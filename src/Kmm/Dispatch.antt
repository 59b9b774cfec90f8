-- ===== src/Kmm/Dispatch.antt =====
-- The entry points of kernel/kernel/kmm.cpp, `malloc` and `free`: which allocator serves a request,
-- and which one takes a pointer back. `size_t` is a 32-bit word; ALIGN_VAL (kuseful.h) computes in 64
-- bits and its result is cut to 32.
use juos.Prelude.{
  ℕ, ◌+◌, ◌-◌, ◌*◌, ◌%◌, ◌^◌, ◌≤◌, ◌<◌, ◌≡◌, refl, ◌⊎◌, inl, inr, true, false, Option, none, some,
  leb, if◌then◌else◌, arith, length,
}
use juos.Prelude.Words.{u32_mod, wrap32, add32}
use juos.Kmm.Fast.{FastBin, malloc_fastbin, free_fastbin, in_fastbin_area, fastbin_threshold}
use juos.Kmm.Fast.Slots.{IsBin, NoneFree, malloc_fastbin_lem}
use juos.Kmm.Big.{Heap, malloc_big, free_big}

-- `value + (-value & (alignment - 1))` on 64-bit words, at the alignment 8 (CHUNK_SIZE_ALIGN): the
-- low three bits of `-value`.
unfoldable pub align_chunk : ℕ → ℕ
align_chunk value = (value + ((2 ^ 64 - value) % 2 ^ 64) % 8) % 2 ^ 64

pub record Manager : Type 0 where
  pub bin : FastBin
  pub heap : Heap

-- The size that `__malloc_big` is asked for.
unfoldable pub big_request : ℕ → ℕ
unfolding align_chunk
big_request size = wrap32 (align_chunk (add32 size 13))

module _ (chunk_diff : ℕ → ℕ → ℕ) where
  -- `none` is out of fuel in the search for a hole; 0 is nullptr.
  unfoldable pub malloc : ℕ → ℕ → Manager → Option (ℕ × Manager)
  malloc fuel size k =
      if leb size 0
      then some (0, k)
      else (if leb size fastbin_threshold
          then (let r = malloc_fastbin k.bin in some (r.0, record k { bin = r.1 }))
          else (elim (malloc_big chunk_diff fuel (big_request size) k.heap) [
            | none ↦ none
            | some (p, h) ↦ some (p, record k { heap = h })
          ]))

-- `none` is a write outside the bin's slots.
unfoldable pub free : ℕ → Manager → Option Manager
free ptr k =
    if in_fastbin_area k.bin.fast_bins k.heap.big_chunks ptr
    then (elim (free_fastbin ptr k.bin) [ none ↦ none | some b ↦ some (record k { bin = b }) ])
    else some (record k { heap = free_big ptr k.heap })

-- A size above the threshold that does not wrap becomes a request that holds the header and the
-- bytes, is a multiple of 8 less than 8 above them, and is at least the smallest chunk, 78 bytes.
pub big_request_lem :
    (size : ℕ)
    → 0x40 < size
    → size + 21 < u32_mod
    → (size + 13 ≤ big_request size)
      × (big_request size < size + 21)
      × (big_request size % 8 ≡ 0)
      × (78 ≤ big_request size)
unfolding big_request
big_request_lem size lo hi = (omega arith, omega arith, omega arith, omega arith)

in_area : (lo hi p : ℕ) → lo ≤ p → p ≤ hi → in_fastbin_area lo hi p ≡ true
unfolding in_fastbin_area
in_area lo hi p a b = ground arith

above_area : (lo hi p : ℕ) → hi < p → in_fastbin_area lo hi p ≡ false
unfolding in_fastbin_area
above_area lo hi p a = ground arith

module _ (chunk_diff : ℕ → ℕ → ℕ) where
  malloc_fast :
      (fuel size : ℕ) (k : Manager)
      → 0 < size
      → size ≤ 0x40
      → malloc chunk_diff fuel size k
        ≡ some ((malloc_fastbin k.bin).0, record k { bin = (malloc_fastbin k.bin).1 })
  unfolding malloc
  malloc_fast fuel size k pos small = ground arith

  free_fast :
      (p : ℕ) (k : Manager) (b : FastBin)
      → in_fastbin_area k.bin.fast_bins k.heap.big_chunks p ≡ true
      → free_fastbin p k.bin ≡ some b
      → free p k ≡ some (record k { bin = b })
  unfolding free
  free_fast p k b t e = rw (t, free) (rw e)

  fast_bins_same : (b : FastBin) → (malloc_fastbin b).1.fast_bins ≡ b.fast_bins
  unfolding malloc_fastbin
  fast_bins_same b = refl

  -- Where the bin is well formed and ends below the large chunks, a request of 1 to 64 bytes is
  -- served by the bin: null when every slot is in use, else a pointer whose `free` restores the
  -- manager as it was before.
  pub free-malloc_small :
      (fuel size : ℕ) (k : Manager)
      → 0 < size
      → size ≤ 0x40
      → IsBin k.bin
      → k.bin.fast_bins + length k.bin.chunks * 64 ≤ k.heap.big_chunks
      → (p : ℕ) × (k' : Manager) × (malloc chunk_diff fuel size k ≡ some (p, k'))
        × (((p ≡ 0) × NoneFree k.bin.chunks) ⊎ (free p k' ≡ some k))
  free-malloc_small fuel size k pos small bin room = (
    (malloc_fastbin k.bin).0,
    record k { bin = (malloc_fastbin k.bin).1 },
    malloc_fast fuel size k pos small,
    elim (malloc_fastbin_lem k.bin bin).1 [
      | inl (null, same, full) ↦ inl (null, full)
      | inr (lo, hi, apart, back) ↦ inr (
          free_fast (malloc_fastbin k.bin).0 (record k { bin = (malloc_fastbin k.bin).1 }) k.bin
            (rw (fast_bins_same k.bin)
              (in_area k.bin.fast_bins k.heap.big_chunks _ lo (omega arith)))
            back)
    ],
  )

  -- A pointer behind a chunk header at or above the first large chunk goes to the list of large
  -- chunks.
  pub free_large :
      (ret : ℕ) (k : Manager)
      → k.heap.big_chunks ≤ ret
      → ret + 13 < u32_mod
      → free (add32 ret 13) k ≡ some (record k { heap = free_big (add32 ret 13) k.heap })
  unfolding free
  free_large ret k le fits =
      rw (above_area k.bin.fast_bins k.heap.big_chunks (add32 ret 13) (omega arith))
