-- ===== src/Tests/Memory.antt =====
-- The allocators' theorems at small heaps.
use juos.Prelude.{
  ℕ, ◌+◌, ◌*◌, ◌≤◌, ◌<◌, ◌≡◌, refl, ◌⊎◌, inl, inr, true, false, some, [], ◌∷◌, arith,
}
use juos.Prelude.Maps.{update}
use juos.Prelude.Words.{add32, sub32}
use juos.Kmm.Fast.{FastBin, malloc_fastbin, free_fastbin}
use juos.Kmm.Fast.Slots.{IsBin, NoneFree, Apart, malloc_fastbin_lem}
use juos.Kmm.Big.{BigChunk, Heap, malloc_big, free_big}
use juos.Kmm.Big.Layout.{Block, Holds}
use juos.Kmm.Big.Place.{Places, malloc_big_lem}
use juos.Kmm.Big.Overlap.{init_heap, heap_overlap}
use juos.Kmm.Dispatch.{Manager, malloc, free, free-malloc_small}

-- Pointers to headers of 13 bytes, subtracted as bytes.
abbrev byte_diff : ℕ → ℕ → ℕ
byte_diff a b = sub32 a b

-- Three slots, the middle one in use.
abbrev bin : FastBin
bin = record { chunks = 0 ∷ 1064 ∷ 0 ∷ []; chunk_size = 64; fast_bins = 1000 }

bin-IsBin : IsBin bin
bin-IsBin = record {
  not_null = omega arith;
  in_memory = omega arith;
  slot_size = refl;
  slots = (inl refl, (inr refl, (inl refl, tt)));
}

-- A block in use at 5000, and an unused one of 200 bytes at 5100.
abbrev chunks : ℕ → BigChunk
chunks =
    update
      (update (λ _. record { prev = 0; next = 0; size = 0; used = false }) 5000
        (record { prev = 0; next = 5100; size = 100; used = true }))
      5100 (record { prev = 5000; next = 0; size = 200; used = false })

abbrev heap : Heap
heap = record { memory = chunks; big_chunks = 5000; allocated_chunks = 1 }

abbrev first_block : Block
first_block = record { addr = 5000; need = 100; live = true }

abbrev second_block : Block
second_block = record { addr = 5100; need = 200; live = false }

heap-Holds : Holds heap first_block (second_block ∷ [])
heap-Holds = (
  refl,
  (
    omega arith,
    refl,
    refl,
    omega arith,
    omega arith,
    (omega arith, refl, refl, omega arith, omega arith, omega arith),
  ),
)

abbrev manager : Manager
manager = record { bin = bin; heap = heap }

malloc_fastbin_lem_example :
    IsBin (malloc_fastbin bin).1
    × ((((malloc_fastbin bin).0 ≡ 0) × ((malloc_fastbin bin).1 ≡ bin) × NoneFree bin.chunks)
        ⊎ ((1000 ≤ (malloc_fastbin bin).0)
            × ((malloc_fastbin bin).0 + 64 ≤ 1000 + 3 * 64)
            × Apart (malloc_fastbin bin).0 bin.chunks
            × (free_fastbin (malloc_fastbin bin).0 (malloc_fastbin bin).1 ≡ some bin)))
malloc_fastbin_lem_example = malloc_fastbin_lem bin bin-IsBin

malloc_big_lem_example :
    (ret : ℕ) × (g : Heap) × (malloc_big byte_diff 2 80 heap ≡ some (add32 ret 13, g))
    × Places byte_diff 80 ret first_block (second_block ∷ []) g
    × (g.allocated_chunks ≡ 1 + 1)
malloc_big_lem_example =
    malloc_big_lem byte_diff 2 80 heap first_block (second_block ∷ []) (omega arith) (omega arith)
      (omega arith) refl (omega arith) (omega arith) heap-Holds

heap_overlap_example :
    (h₁ h₂ h₃ : Heap) × (malloc_big byte_diff 1 80 (init_heap 5000) ≡ some (add32 5000 13, h₁))
    × (malloc_big byte_diff 1 96 h₁ ≡ some (add32 (5000 + 80) 13, h₂))
    × (malloc_big byte_diff 1 160 (free_big (add32 (5000 + 80) 13) (free_big (add32 5000 13) h₂))
        ≡ some (add32 5000 13, h₃))
    × ((h₃.memory 5000).used ≡ true)
    × ((h₃.memory 5000).next ≡ 5000 + 80)
    × (5000 + 80 < 5000 + 160)
heap_overlap_example =
    heap_overlap byte_diff 0 5000 80 96 160 (omega arith) (omega arith) (omega arith) (omega arith)

free-malloc_small_example :
    (p : ℕ) × (k : Manager) × (malloc byte_diff 1 20 manager ≡ some (p, k))
    × (((p ≡ 0) × NoneFree bin.chunks) ⊎ (free p k ≡ some manager))
free-malloc_small_example =
    free-malloc_small byte_diff 1 20 manager (omega arith) (omega arith) bin-IsBin (omega arith)
