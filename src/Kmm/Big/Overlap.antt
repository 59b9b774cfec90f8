-- ===== src/Kmm/Big/Overlap.antt =====
-- A fault of kernel/kernel/kmm.cpp: when the count of allocated chunks falls to 0 the first chunk may
-- still have a next one, and `__malloc_big` then hands the first chunk out at any size.
use juos.Prelude.{
  ℕ, suc, ◌+◌, ◌≤◌, ◌<◌, ◌≡◌, refl, Bool, true, false, some, ◌==◌, arith, pos-ne_zero,
}
use juos.Prelude.Maps.{update}
use juos.Prelude.Words.{add32, u32_mod}
use juos.Kmm.Big.{
  BigChunk, Heap, blank_chunk, take_first, append_chunk, place, malloc_big, free_big,
}

-- Part of `Initialize`: the first header is cleared.
unfoldable pub init_heap : ℕ → Heap
init_heap start = record { memory = λ _. blank_chunk; big_chunks = start; allocated_chunks = 0 }

-- A heap that starts at `s`, its first header, and the one at `t`.
pub record Two (s t n : ℕ) (c d : BigChunk) (h : Heap) : Type 0 where
  pub starts : h.big_chunks ≡ s
  pub first : h.memory s ≡ c
  pub second : h.memory t ≡ d
  pub count : h.allocated_chunks ≡ n

abbrev chunk : ℕ → ℕ → ℕ → Bool → BigChunk
chunk p n s u = record { prev = p; next = n; size = s; used = u }

free_first :
    (s t r₁ r₂ : ℕ) (h : Heap)
    → 0 < s
    → s < t
    → t + 13 < u32_mod
    → Two s t 2 (chunk 0 t r₁ true) (chunk s 0 r₂ true) h
    → Two s t 1 (chunk 0 t r₁ false) (chunk s 0 r₂ true) (free_big (add32 s 13) h)
unfolding free_big
free_first s t r₁ r₂ h pos lt max two = ground arith

free_second :
    (s t r₁ r₂ : ℕ) (h : Heap)
    → 0 < s
    → s < t
    → t + 13 < u32_mod
    → Two s t 1 (chunk 0 t r₁ false) (chunk s 0 r₂ true) h
    → Two s t 0
        (chunk 0 t r₁ false)
        (chunk 0 0 (add32 r₂ (add32 r₁ 13)) false)
        (free_big (add32 t 13) h)
unfolding free_big
free_second s t r₁ r₂ h pos lt max two = ground arith

module _ (chunk_diff : ℕ → ℕ → ℕ) where
  malloc_first :
      (fuel s r₁ : ℕ)
      → 0 < s
      → s + r₁ < u32_mod
      → 78 ≤ r₁
      → (h : Heap) × (malloc_big chunk_diff fuel r₁ (init_heap s) ≡ some (add32 s 13, h))
        × Two s (s + r₁) 1 (chunk 0 0 r₁ true) blank_chunk h
  unfolding malloc_big init_heap
  malloc_first fuel s r₁ pos max min = (
    record {
      memory = update (λ _. blank_chunk) s (chunk 0 0 r₁ true);
      big_chunks = s;
      allocated_chunks = 1;
    },
    rw (pos-ne_zero s pos),
    record { starts = refl; first = ground arith; second = ground arith; count = refl },
  )

  -- The first chunk is the last one: the search stops there.
  place_end :
      (fuel s n r₁ r₂ : ℕ) (h : Heap)
      → h.big_chunks ≡ s
      → h.allocated_chunks ≡ suc n
      → h.memory s ≡ chunk 0 0 r₁ true
      → place chunk_diff (suc fuel) r₂ h ≡ some (add32 s r₁, append_chunk chunk_diff r₂ s h)
  unfolding place append_chunk
  place_end fuel s n r₁ r₂ h at count first = ground arith

  malloc_placed :
      (fuel r ret : ℕ) (h g : Heap)
      → place chunk_diff fuel r h ≡ some (ret, g)
      → 0 < ret
      → malloc_big chunk_diff fuel r h
        ≡ some (add32 ret 13, record g { allocated_chunks = add32 g.allocated_chunks 1 })
  unfolding malloc_big
  malloc_placed fuel r ret h g e pos = rw (e, malloc_big) (rw (pos-ne_zero ret pos))

  appended_second :
      (s t r₁ r₂ : ℕ) (h : Heap)
      → s + r₁ ≡ t
      → s < t
      → t < u32_mod
      → h.memory s ≡ chunk 0 0 r₁ true
      → ((append_chunk chunk_diff r₂ s h).memory s ≡ chunk 0 t r₁ true)
        × ((append_chunk chunk_diff r₂ s h).memory t ≡ chunk s 0 r₂ true)
  unfolding append_chunk
  appended_second s t r₁ r₂ h at lt max first = (ground arith, ground arith)

  place_empty :
      (fuel s r : ℕ) (h : Heap)
      → h.big_chunks ≡ s
      → h.allocated_chunks ≡ 0
      → place chunk_diff fuel r h ≡ some (s, take_first r h)
  unfolding place take_first
  place_empty fuel s r h at count =
      let z : (h.allocated_chunks == 0) ≡ true = ground arith in
      rw (z, place) (λ i. some (at i, take_first r h))

  malloc_second :
      (fuel s t r₁ r₂ : ℕ) (h : Heap)
      → 0 < s
      → s + r₁ ≡ t
      → s < t
      → t + 13 < u32_mod
      → Two s t 1 (chunk 0 0 r₁ true) blank_chunk h
      → (g : Heap) × (malloc_big chunk_diff (suc fuel) r₂ h ≡ some (add32 t 13, g))
        × Two s t 2 (chunk 0 t r₁ true) (chunk s 0 r₂ true) g
  unfolding append_chunk
  malloc_second fuel s t r₁ r₂ h pos at lt max two =
      let g = append_chunk chunk_diff r₂ s h in
      let (first, second) = appended_second s t r₁ r₂ h at lt (omega arith) two.first in
      let count = two.count in
      let e : add32 s r₁ ≡ t = omega arith in
      (
        record g { allocated_chunks = add32 g.allocated_chunks 1 },
        malloc_placed (suc fuel) r₂ t h g
            (rw e at (place_end fuel s 0 r₁ r₂ h two.starts two.count two.first)) (omega arith),
        record { starts = two.starts; first = first; second = second; count = omega arith },
      )

  -- The count is 0 and the first chunk still leads to the header at `t`: whatever the size, the
  -- first chunk is handed out, and it keeps its next chunk.
  malloc_overlap :
      (fuel s t r₁ r₃ : ℕ) (d : BigChunk) (h : Heap)
      → 0 < s
      → Two s t 0 (chunk 0 t r₁ false) d h
      → (g : Heap) × (malloc_big chunk_diff fuel r₃ h ≡ some (add32 s 13, g))
        × ((g.memory s).used ≡ true)
        × ((g.memory s).next ≡ t)
  unfolding take_first
  malloc_overlap fuel s t r₁ r₃ d h pos two =
      let count = two.count in
      let g = take_first r₃ h in
      (
        record g { allocated_chunks = add32 g.allocated_chunks 1 },
        malloc_placed fuel r₃ s h g (place_empty fuel s r₃ h two.starts two.count) pos,
        ground arith,
        ground arith,
      )

  -- On a fresh heap below 2 ^ 32, two allocations, the first of at least 78 bytes, that are freed in
  -- order, and a third one that is larger than the first: the third block starts at the first header, and the list still leads from there to the
  -- second header, which lies inside the third block.
  pub heap_overlap :
      (fuel s r₁ r₂ r₃ : ℕ)
      → 0 < s
      → 78 ≤ r₁
      → s + r₁ + 13 < u32_mod
      → r₁ < r₃
      → (h₁ h₂ h₃ : Heap) × (malloc_big chunk_diff (suc fuel) r₁ (init_heap s)
          ≡ some (add32 s 13, h₁))
        × (malloc_big chunk_diff (suc fuel) r₂ h₁ ≡ some (add32 (s + r₁) 13, h₂))
        × (malloc_big chunk_diff
              (suc fuel)
              r₃
              (free_big (add32 (s + r₁) 13) (free_big (add32 s 13) h₂))
            ≡ some (add32 s 13, h₃))
        × ((h₃.memory s).used ≡ true)
        × ((h₃.memory s).next ≡ s + r₁)
        × (s + r₁ < s + r₃)
  heap_overlap fuel s r₁ r₂ r₃ pos min max big =
      let (h₁, e₁, t₁) = malloc_first (suc fuel) s r₁ pos (omega arith) min in
      let (h₂, e₂, t₂) =
        malloc_second fuel s (s + r₁) r₁ r₂ h₁ pos refl (omega arith) (omega arith) t₁ in
      let t₃ = free_first s (s + r₁) r₁ r₂ h₂ pos (omega arith) (omega arith) t₂ in
      let t₄ = free_second s (s + r₁) r₁ r₂ _ pos (omega arith) (omega arith) t₃ in
      let (h₃, e₃, us, nx) = malloc_overlap (suc fuel) s (s + r₁) r₁ r₃ _ _ pos t₄ in
      (h₁, h₂, h₃, e₁, e₂, e₃, us, nx, omega arith)
