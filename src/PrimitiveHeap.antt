-- ===== src/PrimitiveHeap.antt =====
-- kernel/kernel/kheap.cpp: the heap that only grows. Its state is `__primitive_heap`, the word at
-- which the free memory starts.
use juos.Prelude.{
  ℕ, ◌+◌, ◌-◌, ◌%◌, ◌≤◌, ◌<◌, ◌≡◌, ap, Bool, true, false, ◌==◌, if◌then◌else◌, ◌&&◌, not, arith,
}
use juos.Prelude.Words.{add32, u32_mod}

abbrev pub page_size : ℕ
page_size = 0x1000

-- IS_ALIGNED: the low twelve bits are clear.
abbrev is_aligned : ℕ → Bool
is_aligned addr = addr % page_size == 0

-- `Allocate_WPointer`: the address, also written through `phys`, and the new top.
unfoldable pub allocate : ℕ → Bool → ℕ → ℕ × ℕ
allocate n aligned top =
    let at =
      if aligned && not (is_aligned top) then add32 (top - top % page_size) page_size else top in
    (at, add32 at n)

-- While the top stays below 2 ^ 32 blocks follow one another: an aligned allocation starts at or
-- above the old top, on a page boundary, wastes less than a page, and ends at the new top; any other
-- one starts at the old top and ends at the new one.
pub allocate_lem :
    (n top : ℕ)
    → top + n + page_size < u32_mod
    → let r = allocate n true top in
      (top ≤ r.0)
      × (r.0 < top + page_size)
      × (r.0 % page_size ≡ 0)
      × (r.1 ≡ r.0 + n)
      × (allocate n false top ≡ (top, top + n))
unfolding allocate
allocate_lem n top h =
    (ground arith, ground arith, ground arith, ground arith, ap (λ t. (top, t)) (omega arith))
