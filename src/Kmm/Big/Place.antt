-- ===== src/Kmm/Big/Place.antt =====
-- `__malloc_big` of kernel/kernel/kmm.cpp on a heap with an allocated chunk: the block that it hands
-- out meets no other, and the list stays laid out.
use juos.Prelude.{
  ℕ, ◌+◌, ◌≤◌, ◌<◌, ◌≡◌, refl, ◌∙◌, sym, subst, ◌≢◌, ◌⊎◌, inl, inr, true, false, some, List, [],
  ◌∷◌, ◌++◌, ◌==◌, ltb, if◌then◌else◌, length, arith, le→ltb, pos-ne_zero,
}
use juos.Prelude.Maps.{update}
use juos.Prelude.Words.{add32, sub32, u32_mod}
use juos.Kmm.Big.{BigChunk, Heap, Search, find_hole, take_hole, append_chunk, place, malloc_big}
use juos.Kmm.Big.Layout.{
  Block, IsLaid, Separate, IsLaid-Separate, IsHole, fill, fill_all, last_addr, IsLaid-last,
  fill_addr, IsHole-le, IsLaid-fill, IsLaid-append, find_hole_lem, Holds, Has, Has-fill, Has-append,
}

IsLaid-pos : (m : ℕ → BigChunk) (b : Block) (bs : List Block) → IsLaid m b bs → 0 < b.addr
IsLaid-pos m b [] h = h.0
IsLaid-pos m b (c ∷ bs) h = h.0

module _ (chunk_diff : ℕ → ℕ → ℕ) where
  abbrev pub marked : ℕ → Heap → ℕ → BigChunk
  marked ret h = update h.memory ret (record (h.memory ret) { used = true })

  abbrev pub resized : ℕ → Heap → ℕ → BigChunk
  resized ret h =
      update (marked ret h) ret
        (record (marked ret h ret) { size = sub32 (chunk_diff (marked ret h ret).next ret) 1 })

  -- For a request of at least 78 bytes a hole is never split, however large it is: the test compares
  -- the request with itself less the smallest chunk. The whole hole is taken.
  pub take_hole_whole :
      (req ret : ℕ) (h : Heap)
      → 78 ≤ req
      → req < u32_mod
      → take_hole chunk_diff req ret h ≡ record h { memory = resized ret h }
  unfolding take_hole
  take_hole_whole req ret h min max =
      let t : ltb req (sub32 req 78) ≡ false = le→ltb req (sub32 req 78) (omega arith) in rw t

  resized_ne : (ret : ℕ) (h : Heap) (x : ℕ) → x ≢ ret → resized ret h x ≡ h.memory x
  resized_ne ret h x ne = ground arith

  resized_self :
      (ret : ℕ) (h : Heap)
      → ((resized ret h ret).next ≡ (h.memory ret).next) × ((resized ret h ret).used ≡ true)
  resized_self ret h = (ground arith, ground arith)

  abbrev Appended : ℕ → ℕ → Heap → ℕ → Type 0
  Appended req curr h new =
      let m = (append_chunk chunk_diff req curr h).memory in
      ((x : ℕ) → x ≢ curr → x ≢ new → m x ≡ h.memory x)
      × ((m curr).used ≡ (h.memory curr).used)
      × ((m curr).next ≡ new)
      × ((m new).used ≡ true)
      × ((m new).next ≡ 0)
      × ((m new).size ≡ req)

  appended :
      (req curr : ℕ) (h : Heap)
      → curr ≢ add32 curr (h.memory curr).size
      → Appended req curr h (add32 curr (h.memory curr).size)
  unfolding append_chunk
  appended req curr h ne =
      (λ x a b. ground arith, ground arith, ground arith, ground arith, ground arith, ground arith)

  -- The address of the new chunk and the blocks after the call.
  abbrev pub Places : ℕ → ℕ → Block → List Block → Heap → Type 0
  Places req ret b bs g =
      (d : Block) × (ds : List Block) × Holds g d ds
      × Separate d ds
      × Has ret req (d ∷ ds)
      × (0 < ret)
      × (((IsHole ret req b bs) × (d ∷ ds ≡ fill_all ret req (b ∷ bs)))
          ⊎ (d ∷ ds ≡ b ∷ bs ++ record { addr = ret; need = req; live = true } ∷ []))

  place_found :
      (fuel req : ℕ) (h : Heap) (s : Search)
      → (h.allocated_chunks == 0) ≡ false
      → find_hole fuel req h.memory h.big_chunks ≡ some s
      → place chunk_diff fuel req h
        ≡ some (
            if s.found
            then (s.curr, take_hole chunk_diff req s.curr h)
            else (add32 s.curr (h.memory s.curr).size, append_chunk chunk_diff req s.curr h))
  unfolding place
  place_found fuel req h s z f = rw (z, place) (rw (f, place))

  place_in_hole :
      (req ret : ℕ) (h : Heap) (b : Block) (bs : List Block)
      → 78 ≤ req
      → req < u32_mod
      → Holds h b bs
      → IsHole ret req b bs
      → Places req ret b bs (take_hole chunk_diff req ret h)
  place_in_hole req ret h b bs min max (e, laid) hole =
      let (nx, us) = resized_self ret h in
      let laid' =
        IsLaid-fill h.memory (resized ret h) ret req b bs (resized_ne ret h) nx us laid hole in
      rw (take_hole_whole req ret h min max) (
        fill ret req b,
        fill_all ret req bs,
        (e ∙ sym (fill_addr ret req b), laid'),
        IsLaid-Separate (resized ret h) (fill ret req b) (fill_all ret req bs) laid',
        Has-fill ret req b bs hole,
        omega (arith, IsHole-le h.memory ret req b bs laid hole, IsLaid-pos h.memory b bs laid),
        inl (hole, refl),
      )

  behind :
      (req : ℕ) (h : Heap) (b : Block) (bs : List Block) (new : ℕ)
      → 78 ≤ req
      → new + req < u32_mod
      → Holds h b bs
      → last_addr b bs + (h.memory (last_addr b bs)).size ≡ new
      → Appended req (last_addr b bs) h new
      → Places req new b bs (append_chunk chunk_diff req (last_addr b bs) h)
  unfolding append_chunk
  behind req h b bs new min fits (e, laid) at (same, us, nx, us', nx', sz) =
      let laid' =
        IsLaid-append h.memory (append_chunk chunk_diff req (last_addr b bs) h).memory req b bs new
          (sym at) same us nx us' nx' sz (omega arith) fits laid in
      (
        b,
        bs ++ record { addr = new; need = req; live = true } ∷ [],
        (e, laid'),
        IsLaid-Separate (append_chunk chunk_diff req (last_addr b bs) h).memory b _ laid',
        Has-append new req (b ∷ bs),
        omega (arith, IsLaid-last h.memory b bs laid),
        inr refl,
      )

  place_behind :
      (req : ℕ) (h : Heap) (b : Block) (bs : List Block)
      → 78 ≤ req
      → last_addr b bs + (h.memory (last_addr b bs)).size + req < u32_mod
      → Holds h b bs
      → Places req
          (add32 (last_addr b bs) (h.memory (last_addr b bs)).size)
          b
          bs
          (append_chunk chunk_diff req (last_addr b bs) h)
  place_behind req h b bs min fits held =
      let (pos, size) = IsLaid-last h.memory b bs held.1 in
      behind req h b bs (add32 (last_addr b bs) (h.memory (last_addr b bs)).size) min (omega arith)
        held (omega arith) (appended req (last_addr b bs) h (omega arith))

  place_lem :
      (fuel req : ℕ) (h : Heap) (b : Block) (bs : List Block)
      → length bs < fuel
      → 78 ≤ req
      → req < u32_mod
      → (h.allocated_chunks == 0) ≡ false
      → last_addr b bs + (h.memory (last_addr b bs)).size + req < u32_mod
      → Holds h b bs
      → (ret : ℕ) × (g : Heap) × (place chunk_diff fuel req h ≡ some (ret, g))
        × Places req ret b bs g
        × (g.allocated_chunks ≡ h.allocated_chunks)
  unfolding place append_chunk
  place_lem fuel req h b bs lt min max z fits held =
      let (s, found, r) = find_hole_lem fuel req h.memory b bs lt held.1 in
      let placed =
        place_found fuel req h s z
          (subst (λ a. find_hole fuel req h.memory a ≡ some s) (sym held.0) found) in
      elim r [
        | inl (t, hole) ↦ (
          s.curr,
          take_hole chunk_diff req s.curr h,
          placed ∙ rw t,
          place_in_hole req s.curr h b bs min max held hole,
          rw (take_hole_whole req s.curr h min max),
        )
        | inr (f, at) ↦ (
          add32 s.curr (h.memory s.curr).size,
          append_chunk chunk_diff req s.curr h,
          placed ∙ rw f,
          subst (λ c. Places req (add32 c (h.memory c).size) b bs (append_chunk chunk_diff req c h))
              (sym at) (place_behind req h b bs min fits held),
          refl,
        )
      ]

  -- In a heap of laid out blocks, with at least one chunk allocated, a request of at least 78 bytes
  -- that fits below 2 ^ 32 behind the last block returns, for fuel above the number of links, the
  -- place behind a header. The `req` bytes from that header on share no byte with another block: they
  -- are an unused block that is put to use, or a new one at the end. The blocks stay laid out, and
  -- the count of allocated chunks rises.
  pub malloc_big_lem :
      (fuel req : ℕ) (h : Heap) (b : Block) (bs : List Block)
      → length bs < fuel
      → 78 ≤ req
      → req < u32_mod
      → (h.allocated_chunks == 0) ≡ false
      → h.allocated_chunks + 1 < u32_mod
      → last_addr b bs + (h.memory (last_addr b bs)).size + req < u32_mod
      → Holds h b bs
      → (ret : ℕ) × (g : Heap) × (malloc_big chunk_diff fuel req h ≡ some (add32 ret 13, g))
        × Places req ret b bs g
        × (g.allocated_chunks ≡ h.allocated_chunks + 1)
  unfolding malloc_big
  malloc_big_lem fuel req h b bs lt min max z count fits held =
      let (ret, g, e, p, same) = place_lem fuel req h b bs lt min max z fits held in
      (
        ret,
        record g { allocated_chunks = add32 g.allocated_chunks 1 },
        rw (e, malloc_big) (rw (pos-ne_zero ret p.5)),
        p,
        rw same (omega arith),
      )
