-- ===== src/Kmm/Fast.antt =====
-- The fast bin of kernel/kernel/kmm.cpp: `__malloc_fastbin`, `__free_fastbin`, and the tests of
-- `malloc` and `free` that choose it. `chunks` holds `ptr_to_heap` of each slot, 0 for a free one;
-- `fast_bins` is the address of the first slot. `none` is a write outside `chunks`.
pub mod Slots
use juos.Prelude.{
  ℕ, zero, suc, ◌+◌, ◌*◌, ◌/◌, ◌%◌, Bool, Option, none, some, List, [], ◌∷◌, ◌==◌, leb, ltb,
  if◌then◌else◌, ◌&&◌, length, set, replicate,
}
use juos.Prelude.Words.{wrap32, sub32}

abbrev pub fastbin_threshold : ℕ
fastbin_threshold = 0x40

abbrev pub fastbin_max_size : ℕ
fastbin_max_size = 0x64

pub record FastBin : Type 0 where
  pub chunks : List ℕ
  pub chunk_size : ℕ
  pub fast_bins : ℕ

-- `(uint32_t*)fast_bins + (i * chunk_size / 4)`: the pointer steps by four bytes.
abbrev pub slot_address : FastBin → ℕ → ℕ
slot_address b i = wrap32 (b.fast_bins + 4 * (wrap32 (i * b.chunk_size) / 4))

-- The loop over the slots, from slot `i` on: the address found, or 0, and the slots after it.
find_slot : FastBin → ℕ → List ℕ → ℕ × List ℕ
find_slot b i [] = (0, [])
find_slot b i (c ∷ cs) =
    let rest = find_slot b (i + 1) cs in
    if c == 0 then (slot_address b i, slot_address b i ∷ cs) else (rest.0, c ∷ rest.1)

unfoldable pub malloc_fastbin : FastBin → ℕ × FastBin
unfolding find_slot
malloc_fastbin b = let r = find_slot b 0 b.chunks in (r.0, record b { chunks = r.1 })

unfoldable pub free_fastbin : ℕ → FastBin → Option FastBin
free_fastbin ptr b =
    let i = sub32 ptr b.fast_bins / fastbin_threshold in
    if ltb i (length b.chunks) then some (record b { chunks = set b.chunks i 0 }) else none

-- Part of `Initialize`: every slot is free.
unfoldable pub init_fastbin : ℕ → FastBin
init_fastbin start = record {
  chunks = replicate fastbin_max_size 0;
  chunk_size = fastbin_threshold;
  fast_bins = start;
}

-- `free` takes a pointer for a fast chunk by its address.
unfoldable pub in_fastbin_area : ℕ → ℕ → ℕ → Bool
in_fastbin_area fast_bins big_chunks ptr = leb fast_bins ptr && leb ptr big_chunks
