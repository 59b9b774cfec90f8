-- ===== src/Kmm/Big.antt =====
-- The list of large chunks of kernel/kernel/kmm.cpp: `__malloc_big`, `__free_big`, and the dispatch
-- of `malloc` and `free`. The store maps the address of a header to its four fields; 0 is nullptr,
-- and what lies at 0 is never read. A header takes 13 bytes (BigChunk is packed). The heap's end is
-- not tested by the code. C++ leaves `ret->next - ret` open where the distance is no multiple of 13,
-- so that difference of two pointers is the parameter `chunk_diff`. The loop over the chunks takes
-- fuel.
pub mod Layout
pub mod Place
pub mod Overlap
use juos.Prelude.{
  ℕ, zero, suc, ◌+◌, Bool, true, false, Option, none, some, ◌==◌, leb, ltb, if◌then◌else◌, ◌&&◌,
  not,
}
use juos.Prelude.Maps.{update}
use juos.Prelude.Words.{add32, sub32, u32_mod}

pub record BigChunk : Type 0 where
  pub prev : ℕ
  pub next : ℕ
  pub size : ℕ
  pub used : Bool

abbrev pub sizeof_chunk : ℕ
sizeof_chunk = 13

-- sizeof(big_chunk_t) + FASTBIN_THRESHOLD + 1
abbrev pub bigchunk_min_space : ℕ
bigchunk_min_space = 78

pub record Heap : Type 0 where
  pub memory : ℕ → BigChunk
  pub big_chunks : ℕ
  pub allocated_chunks : ℕ

abbrev pub blank_chunk : BigChunk
blank_chunk = record { prev = 0; next = 0; size = 0; used = false }

-- Where the search for a hole stopped.
pub record Search : Type 0 where
  pub curr : ℕ
  pub found : Bool

-- The `while (curr_chunk->next)` of `__malloc_big`. `smallest_hole_value` is still the largest word
-- when a hole is tested, since the first one found ends the loop.
unfoldable pub find_hole : ℕ → ℕ → (ℕ → BigChunk) → ℕ → Option Search
find_hole zero req memory curr = none
find_hole (suc fuel) req memory curr =
    let rest = find_hole fuel req memory (memory curr).next in
    let room = sub32 (memory curr).next curr in
    if (memory curr).next == 0
    then some (record { curr = curr; found = false })
    else (if not (memory curr).used && (ltb room 0xffff_ffff && leb req room)
        then some (record { curr = curr; found = true })
        else rest)

-- The block's address, and the heap after the call.
abbrev pub Reply : Type 0
Reply = ℕ × Heap

-- No chunk is allocated: the first one is taken.
unfoldable pub take_first : ℕ → Heap → Heap
take_first req h = record h {
  memory =
      update h.memory h.big_chunks (record (h.memory h.big_chunks) { size = req; used = true });
}

-- The remaining space of the hole becomes an unused chunk.
unfoldable pub split_hole : ℕ → ℕ → Heap → Heap
split_hole req ret h =
    let unused = add32 ret req in
    let tmp = (h.memory ret).next in
    let chunk : BigChunk = record {
      prev = ret;
      next = tmp;
      size = sub32 (sub32 tmp ret) req;
      used = false;
    } in
    let m₁ = update h.memory unused blank_chunk in
    let m₂ = update m₁ ret (record (m₁ ret) { next = unused }) in
    let m₃ = update m₂ tmp (record (m₂ tmp) { prev = unused }) in
    record h { memory = update m₃ unused chunk }

module _ (chunk_diff : ℕ → ℕ → ℕ) where
  -- A hole is taken. `smallest_hole_value` was set to the requested size.
  unfoldable pub take_hole : ℕ → ℕ → Heap → Heap
  unfolding split_hole
  take_hole req ret h =
      let taken = update h.memory ret (record (h.memory ret) { used = true }) in
      let g : Heap = record h { memory = taken } in
      if ltb req (sub32 req bigchunk_min_space) then split_hole req ret g else record h {
        memory =
            update taken ret
              (record (taken ret) { size = sub32 (chunk_diff (taken ret).next ret) 1 });
      }

  -- A chunk is appended behind the last one.
  unfoldable pub append_chunk : ℕ → ℕ → Heap → Heap
  append_chunk req curr h =
      let new = add32 curr (h.memory curr).size in
      let m₁ = update h.memory new blank_chunk in
      let m₂ = update m₁ curr (record (m₁ curr) { next = new }) in
      record h { memory = update m₂ new (record (m₂ new) { prev = curr; used = true; size = req }) }

  -- The address of the chunk that `__malloc_big` takes, and the heap before the count.
  unfoldable pub place : ℕ → ℕ → Heap → Option Reply
  unfolding find_hole take_first take_hole append_chunk
  place fuel req h =
      if h.allocated_chunks == 0
      then some (h.big_chunks, take_first req h)
      else (elim (find_hole fuel req h.memory h.big_chunks) [
        | none ↦ none
        | some s ↦ some (
            if s.found
            then (s.curr, take_hole req s.curr h)
            else (add32 s.curr (h.memory s.curr).size, append_chunk req s.curr h))
      ])

  unfoldable pub malloc_big : ℕ → ℕ → Heap → Option Reply
  unfolding place
  malloc_big fuel req h = elim (place fuel req h) [
    | none ↦ none
    | some (ret, g) ↦ some (
      add32 ret sizeof_chunk,
      if ret == 0 then g else record g { allocated_chunks = add32 g.allocated_chunks 1 },
    )
  ]

-- The next chunk is unused: it leaves the list, and its size is added with a header's.
unfoldable pub consolidate_forwards : ℕ → (ℕ → BigChunk) → ℕ → BigChunk
consolidate_forwards chunk m =
    let tmp = (m chunk).next in
    if not (tmp == 0) && not (m tmp).used
    then (let after = (m tmp).next in
        let m₁ = update m chunk (record (m chunk) { next = after }) in
        let m₂ = if after == 0 then m₁ else update m₁ after (record (m₁ after) { prev = chunk }) in
        update m₂ chunk
          (record (m₂ chunk) { size = add32 (m₂ chunk).size (add32 (m₂ tmp).size sizeof_chunk) }))
    else m

-- The chunk before is unused: it leaves the list, unless it is the first.
unfoldable pub consolidate_backwards : ℕ → (ℕ → BigChunk) → ℕ → BigChunk
consolidate_backwards chunk m =
    let tmp = (m chunk).prev in
    if not (tmp == 0) && not (m tmp).used
    then (let before = (m tmp).prev in
        let m₁ = update m chunk (record (m chunk) { prev = before }) in
        let m₂ =
          if before == 0 then m₁ else update m₁ before (record (m₁ before) { next = chunk }) in
        update m₂ chunk
          (record (m₂ chunk) { size = add32 (m₂ chunk).size (add32 (m₂ tmp).size sizeof_chunk) }))
    else m

unfoldable pub free_big : ℕ → Heap → Heap
unfolding consolidate_forwards consolidate_backwards
free_big ptr h =
    let chunk = sub32 ptr sizeof_chunk in
    let m = update h.memory chunk (record (h.memory chunk) { used = false }) in
    record h {
      memory = consolidate_backwards chunk (consolidate_forwards chunk m);
      allocated_chunks = sub32 h.allocated_chunks 1;
    }
