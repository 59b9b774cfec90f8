-- ===== src/Paging/Map.antt =====
-- What map_region (kernel/kernel/paging.cpp) does where the page tables are there.
use juos.Prelude.{ℕ, zero, suc, ◌+◌, ◌*◌, ◌/◌, ◌%◌, ◌≤◌, ◌<◌, ◌≡◌, refl, ap, ◌∙◌, true, arith}
use Prim.Native.Nat.{bit_or}
use native.Mathlib.Decide.{dec_le}
use juos.Prelude.Words.{add32, u32_mod}
use juos.PrimitiveHeap.{page_size}
use juos.Paging.{Machine, PageRef, map_region, mapped}
use juos.Paging.Frames.{free_count, find_first-free}
use juos.Paging.Step.{
  entry, index_of, table_of, written, map_region_step, map_region_end, map_page_lem,
  get_page-present,
}

-- Every address from `lo` up to `hi` has a page table, and the directory's word for it.
abbrev pub HasTables : ℕ → ℕ → Machine → Type 0
HasTables lo hi k =
    (a : ℕ)
    → lo ≤ a
    → a < hi
    → (0 < k.dir.tables (table_of a))
      × (k.dir.table_addresses (table_of a) ≡ bit_or (k.dir.tables (table_of a)) 7)

-- The processor finds the page: the word of the directory that it reads for the address is that of
-- the address's table, with the three flags that make it present, writable and the user's, and the
-- table's entry is present.
abbrev pub IsMapped : ℕ → Machine → Type 0
IsMapped a k =
    ((entry a k).is_present ≡ true)
    × (k.dir.table_addresses (table_of a) ≡ bit_or (k.dir.tables (table_of a)) 7)

-- Mapping one page keeps the pages that are there.
written-IsMapped : (p : PageRef) (i a : ℕ) (k : Machine) → IsMapped a k → IsMapped a (written p i k)
written-IsMapped p i a k (on, linked) = (ground arith, linked)

written_self :
    (i top a : ℕ) (k : Machine)
    → a / page_size ≡ top / page_size
    → k.dir.table_addresses (table_of top) ≡ bit_or (k.dir.tables (table_of top)) 7
    → IsMapped a
        (written (record { table = k.dir.tables (table_of top); index = index_of top }) i k)
written_self i top a k same linked = rw same (ground arith, linked)

-- For a region of `n` whole pages below 2 ^ 32 with a table for each page and a free frame for each,
-- and fuel above `n`: the call reports `n` more pages, every address of the region is mapped, what
-- was mapped before stays so, each page took one free frame, and the directory's arrays are as
-- before.
pub map_region_lem :
    (n fuel created top end : ℕ) (k : Machine)
    → n < fuel
    → end ≡ top + n * page_size
    → end < u32_mod
    → created + n < u32_mod
    → top % page_size ≡ 0
    → HasTables top end k
    → n ≤ free_count k.frames
    → (k' : Machine) × (map_region fuel created top end k ≡ mapped (created + n) k')
      × ((a : ℕ) → top ≤ a → a < end → IsMapped a k')
      × ((a : ℕ) → IsMapped a k → IsMapped a k')
      × (free_count k'.frames + n ≡ free_count k.frames)
      × (k'.dir ≡ k.dir)
map_region_lem n zero created top end k lt e max count al tables free = absurd (omega arith)
map_region_lem zero (suc fuel) created top end k lt e max count al tables free = (
  k,
  map_region_end fuel created top end k (omega arith) ∙ ap (λ c. mapped c k) (omega arith),
  (λ a lo hi. absurd (omega arith)),
  (λ a h. h),
  omega arith,
  refl,
)
map_region_lem (suc n) (suc fuel) created top end k lt e max count al tables free =
    let (i, found, less) = find_first-free k.frames (omega arith) in
    let p : PageRef = record { table = k.dir.tables (table_of top); index = index_of top } in
    let k₁ = written p i k in
    let (pos, linked) = tables top (omega arith) (omega arith) in
    let one =
      map_region_step fuel created top end k k₁ (omega arith)
        (map_page_lem top i p k k (get_page-present top k pos) found) in
    let (k', rest, here, keep, used, same) =
      map_region_lem n fuel (created + 1) (top + page_size) end k₁ (omega arith) (omega arith) max
        (omega arith) (omega arith) (λ a lo hi. tables a (omega arith) hi) (omega arith) in
    (
      k',
      one
          ∙ rw
              (
                (let z : add32 created 1 ≡ created + 1 = omega arith in z),
                (let z : add32 top page_size ≡ top + page_size = omega arith in z),
              )
              (rest ∙ ap (λ c. mapped c k') (omega arith)),
      (λ a lo hi. elim (dec_le (top + page_size) a) [
        | yes behind ↦ here a behind hi
        | no before ↦ keep a (written_self i top a k (omega arith) linked)
      ]),
      (λ a h. keep a (written-IsMapped p i a k h)),
      omega arith,
      same,
    )
