-- ===== src/Paging.antt =====
-- kernel/kernel/frame_table.cpp, kernel/kernel/paging.cpp and kernel/include/kernel/paging.h: the
-- table of physical frames, page tables, and the mapping of a region. Tables live in a store by
-- address, since directories share them; a directory is its two arrays, as functions of the index.
-- A page has the fields that the code writes; the allocator is the primitive heap. The parts that
-- only load registers (SetDirectory, Initialize's last calls) are not modelled.
pub mod Frames
pub mod Step
pub mod Map
pub mod Fresh
pub mod Destroy
pub mod Space
use Prim.Native.Nat.{bit_or}
use juos.Prelude.{
  ℕ, zero, suc, ◌+◌, ◌-◌, ◌*◌, ◌/◌, ◌%◌, ◌^◌, Bool, true, false, Option, none, some, List, [], ◌∷◌,
  ◌==◌, leb, ltb, if◌then◌else◌, length, set, replicate,
}
use juos.Prelude.Maps.{update}
use juos.Prelude.Words.{add32}
use juos.PrimitiveHeap.{allocate, page_size}

abbrev pub page_table_size : ℕ
page_table_size = 1024

-- `FindFirst`: `none` is the result with `error` set.
unfoldable pub find_first : List Bool → Option ℕ
find_first [] = none
find_first (taken ∷ fs) =
    let rest = find_first fs in
    if taken then (elim rest [ none ↦ none | some i ↦ some (suc i) ]) else some 0

unfoldable pub set_at_index : ℕ → List Bool → List Bool
set_at_index i frames = set frames i true

unfoldable pub set_at_address : ℕ → List Bool → List Bool
set_at_address addr frames = set frames (addr / page_size) true

unfoldable pub free_at_index : ℕ → List Bool → List Bool
free_at_index i frames = set frames i false

-- The loop of the constructor: no frame is taken.
abbrev pub untaken : ℕ → List Bool
untaken n = replicate n false

-- The constructor, with the top of the heap from which it allocates `n` bytes.
unfoldable pub frame_table : ℕ → ℕ → List Bool × ℕ
frame_table n heap_top = (untaken n, (allocate n true heap_top).1)

pub record Page : Type 0 where
  pub is_present : Bool
  pub rw : Bool
  pub is_user : Bool
  pub frame_addr : ℕ

abbrev pub blank_page : Page
blank_page = record { is_present = false; rw = false; is_user = false; frame_addr = 0 }

pub record Directory : Type 0 where
  pub tables : ℕ → ℕ
  pub table_addresses : ℕ → ℕ

pub record Machine : Type 0 where
  pub frames : List Bool
  pub heap_top : ℕ
  pub memory : ℕ → ℕ → Page
  pub dir : Directory

-- A pointer to a page is its table and its index there.
pub record PageRef : Type 0 where
  pub table : ℕ
  pub index : ℕ

-- `_get_page`; `none` is nullptr.
unfoldable pub get_page : ℕ → Bool → Machine → Option PageRef × Machine
get_page addr make k =
    let page_idx = addr / page_size in
    let table_idx = page_idx / page_table_size in
    let table = k.dir.tables table_idx in
    if table == 0
    then (if make
        then (let r = allocate page_size true k.heap_top in
            (
              some (record { table = r.0; index = r.0 % page_table_size }),
              record k {
                heap_top = r.1;
                memory = update k.memory r.0 (λ _. blank_page);
                dir = record {
                  tables = update k.dir.tables table_idx r.0;
                  table_addresses = update k.dir.table_addresses table_idx (bit_or r.0 7);
                };
              },
            ))
        else (none, k))
    else (some (record { table = table; index = page_idx % page_table_size }), k)

abbrev write_page : PageRef → Page → (ℕ → ℕ → Page) → ℕ → ℕ → Page
write_page p v m = update m p.table (update (m p.table) p.index v)

pub data Outcome : Type 0 where
  mapped : ℕ → Machine → Outcome
  panic : Outcome
  out_of_fuel : Outcome

-- The page takes the frame, whose number is cut to the 20 bits of its field.
map_at : ℕ → Option PageRef × Machine → Option Machine
map_at i (none, k) = none
map_at i (some p, k) = some (record k {
  memory =
      write_page p
        (record (k.memory p.table p.index) {
          is_present = true;
          is_user = false;
          rw = false;
          frame_addr = i % 2 ^ 20;
        })
        k.memory;
  frames = set k.frames i true;
})

-- One round of `_map_virt_to_phys` for the page at `top`: `none` is the panic for want of a frame.
unfoldable pub map_page : ℕ → Machine → Option Machine
unfolding get_page map_at
map_page top k = elim (find_first k.frames) [
  | none ↦ none
  | some i ↦ map_at i (get_page top true k)
]

-- `_map_virt_to_phys`, and `map_region` with a directory.
unfoldable pub map_region : ℕ → ℕ → ℕ → ℕ → Machine → Outcome
unfolding map_page
map_region zero created top end k = out_of_fuel
map_region (suc fuel) created top end k = elim (ltb top end) [
  | false ↦ mapped created k
  | true ↦ elim (map_page top k) [
    | none ↦ panic
    | some k' ↦ map_region fuel (add32 created 1) (add32 top page_size) end k'
  ]
]
