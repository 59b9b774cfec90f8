-- ===== src/Paging/Fresh.antt =====
-- A fault of `_get_page` (kernel/kernel/paging.cpp): in a table that it has just made it takes the
-- entry by the table's address, not by the page's number.
use juos.Prelude.{ℕ, suc, ◌+◌, ◌*◌, ◌%◌, ◌<◌, ◌≡◌, refl, sym, ◌∙◌, ◌≢◌, true, false, arith}
use juos.Prelude.Words.{add32, u32_mod}
use juos.PrimitiveHeap.{allocate, allocate_lem, page_size}
use juos.Paging.{Machine, map_region, mapped}
use juos.Paging.Frames.{free_count, find_first-free}
use juos.Paging.Step.{
  entry, index_of, table_of, written, with_table, map_region_step, map_region_end, map_page_lem,
  get_page-absent,
}

still_blank :
    (addr a i : ℕ) (k : Machine)
    → (allocate page_size true k.heap_top).0 ≡ a
    → a % 1024 ≢ index_of addr
    → (entry addr
        (written (record { table = a; index = a % 1024 }) i (with_table addr k))).is_present
      ≡ false
still_blank addr a i k e ne = ground arith

-- Where the page table of an address is missing, the address's index in it is not 0, a frame is free
-- and there is room for a table: the call that maps the page at the address reports one page mapped
-- and takes a frame, and the page is not present afterwards.
pub map_region-fresh :
    (fuel addr : ℕ) (k : Machine)
    → addr + page_size < u32_mod
    → k.dir.tables (table_of addr) ≡ 0
    → index_of addr ≢ 0
    → 0 < free_count k.frames
    → k.heap_top + 2 * page_size < u32_mod
    → (k' : Machine) × (map_region (suc (suc fuel)) 0 addr (addr + page_size) k ≡ mapped 1 k')
      × ((entry addr k').is_present ≡ false)
      × (free_count k'.frames + 1 ≡ free_count k.frames)
map_region-fresh fuel addr k fits absent ne free room =
    let (i, found, less) = find_first-free k.frames free in
    let a = (allocate page_size true k.heap_top).0 in
    let at = (allocate_lem page_size k.heap_top (omega arith)).2 in
    let k' = written (record { table = a; index = a % 1024 }) i (with_table addr k) in
    let e : add32 addr page_size ≡ addr + page_size = omega arith in
    (
      k',
      map_region_step (suc fuel) 0 addr (addr + page_size) k k' (omega arith)
            (map_page_lem addr i _ k (with_table addr k) (get_page-absent addr k absent) found)
          ∙ rw e (map_region_end fuel 1 (addr + page_size) (addr + page_size) k' (omega arith)),
      still_blank addr a i k refl (λ same. ne (sym same ∙ omega arith)),
      less,
    )
