-- ===== src/Paging/Step.antt =====
-- One page of `_map_virt_to_phys` (kernel/kernel/paging.cpp), as an equation.
use juos.Prelude.{
  ℕ, suc, ◌/◌, ◌%◌, ◌^◌, ◌≤◌, ◌<◌, ◌≡◌, true, false, some, ◌==◌, set, arith, lt→ltb, le→ltb,
  pos-ne_zero,
}
use Prim.Native.Nat.{bit_or}
use juos.Prelude.Maps.{update}
use juos.PrimitiveHeap.{allocate, page_size}
use juos.Paging.{
  Machine, Page, PageRef, blank_page, write_page, get_page, find_first, map_page, map_region,
  mapped, page_table_size,
}
use juos.Prelude.Words.{add32}

abbrev pub table_of : ℕ → ℕ
table_of addr = addr / page_size / page_table_size

abbrev pub index_of : ℕ → ℕ
index_of addr = addr / page_size % page_table_size

-- The entry that the processor reads for an address.
abbrev pub entry : ℕ → Machine → Page
entry addr k = k.memory (k.dir.tables (table_of addr)) (index_of addr)

-- The page at `p` gets the frame `i`.
abbrev pub written : PageRef → ℕ → Machine → Machine
written p i k = record k {
  memory =
      write_page p
        (record (k.memory p.table p.index) {
          is_present = true;
          is_user = false;
          rw = false;
          frame_addr = i % 2 ^ 20;
        })
        k.memory;
  frames = set k.frames i true;
}

pub map_page_lem :
    (addr i : ℕ) (p : PageRef) (k k₁ : Machine)
    → get_page addr true k ≡ (some p, k₁)
    → find_first k.frames ≡ some i
    → map_page addr k ≡ some (written p i k₁)
unfolding map_page
map_page_lem addr i p k k₁ g f = rw (f, map_page) (rw g)

-- The machine with a new, empty table for the address.
abbrev pub with_table : ℕ → Machine → Machine
with_table addr k =
    let r = allocate page_size true k.heap_top in
    record k {
      heap_top = r.1;
      memory = update k.memory r.0 (λ _. blank_page);
      dir = record {
        tables = update k.dir.tables (table_of addr) r.0;
        table_addresses = update k.dir.table_addresses (table_of addr) (bit_or r.0 7);
      };
    }

-- The loop of `_map_virt_to_phys`: at its end, and one round before it.
pub map_region_end :
    (fuel created top end : ℕ) (k : Machine)
    → end ≤ top
    → map_region (suc fuel) created top end k ≡ mapped created k
unfolding map_region
map_region_end fuel created top end k le = rw (le→ltb top end le, map_region)

pub map_region_step :
    (fuel created top end : ℕ) (k k' : Machine)
    → top < end
    → map_page top k ≡ some k'
    → map_region (suc fuel) created top end k
      ≡ map_region fuel (add32 created 1) (add32 top page_size) end k'
unfolding map_region
map_region_step fuel created top end k k' lt e =
    rw (lt→ltb top end lt, map_region) (rw (e, map_region))

pub get_page-absent :
    (addr : ℕ) (k : Machine)
    → k.dir.tables (table_of addr) ≡ 0
    → get_page addr true k ≡ (
      some (record {
        table = (allocate page_size true k.heap_top).0;
        index = (allocate page_size true k.heap_top).0 % page_table_size;
      }),
      with_table addr k,
    )
unfolding get_page
get_page-absent addr k z = let t : (k.dir.tables (table_of addr) == 0) ≡ true = ground arith in rw t

pub get_page-present :
    (addr : ℕ) (k : Machine)
    → 0 < k.dir.tables (table_of addr)
    → get_page addr true k
      ≡ (some (record { table = k.dir.tables (table_of addr); index = index_of addr }), k)
unfolding get_page
get_page-present addr k pos = rw (pos-ne_zero (k.dir.tables (table_of addr)) pos)
