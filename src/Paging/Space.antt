-- ===== src/Paging/Space.antt =====
-- kernel/kernel/paging.cpp: page directories by their address, over the tables and frames that they
-- share. `map_region`, `create_directory`, `Initialize` and `page_fault_handler`. A panic loops for
-- ever: `none` is a call that does not return. The register that holds the directory is set by
-- assembly, and `cr2` and the error code are arguments.
pub mod Grown
pub mod Aligned
pub mod Mappings
pub mod Created
pub mod Fault
pub mod Identity
pub mod Initial
use juos.Prelude.{
  ℕ, zero, suc, ◌+◌, ◌-◌, ◌*◌, ◌/◌, ◌%◌, Bool, true, false, Option, none, some, List, [], ◌∷◌, ◌==◌,
  if◌then◌else◌,
}
use juos.Prelude.Maps.{update}
use juos.Prelude.Options.{◌>>=◌}
use juos.Prelude.Words.{add32}
use juos.PrimitiveHeap.{allocate, page_size}
use juos.Paging.{
  Page, Directory, Machine, Outcome, mapped, panic, out_of_fuel, map_region, frame_table,
  page_table_size,
}

-- `_HeapMappingSettings`
pub record Mapping : Type 0 where
  pub start : ℕ
  pub stop : ℕ

pub record Space : Type 0 where
  pub frames : List Bool
  pub heap_top : ℕ
  pub memory : ℕ → ℕ → Page
  pub directories : ℕ → Directory
  pub current_directory : ℕ
  pub kernel_directory : ℕ
  pub base_kernel_tables_size : ℕ

-- What the mapping of a region works on, and the space after it.
abbrev pub machine_of : ℕ → Space → Machine
machine_of d s = record {
  frames = s.frames;
  heap_top = s.heap_top;
  memory = s.memory;
  dir = s.directories d;
}

abbrev pub with_machine : ℕ → Machine → Space → Space
with_machine d k s = record s {
  frames = k.frames;
  heap_top = k.heap_top;
  memory = k.memory;
  directories = update s.directories d k.dir;
}

-- The directory that a call of `map_region` means.
abbrev pub directory_or_current : ℕ → Space → ℕ
directory_or_current dir s = if dir == 0 then s.current_directory else dir

-- The space after the mapping, unless it did not return.
abbrev pub of_outcome : ℕ → Space → Outcome → Option (ℕ × Space)
of_outcome d s (mapped n k) = some (n, with_machine d k s)
of_outcome d s panic = none
of_outcome d s out_of_fuel = none

-- `_map_virt_to_phys` in the directory at `d`.
unfoldable pub map_virt_to_phys : ℕ → ℕ → ℕ → ℕ → Space → Option (ℕ × Space)
unfolding map_region
map_virt_to_phys fuel start end d s = of_outcome d s (map_region fuel 0 start end (machine_of d s))

-- `map_region`, with the number of pages that it returns.
unfoldable pub map_region_in : ℕ → ℕ → ℕ → ℕ → Space → Option (ℕ × Space)
unfolding map_virt_to_phys
map_region_in fuel start end dir s = map_virt_to_phys fuel start end (directory_or_current dir s) s

abbrev pub blank_directory : Directory
blank_directory = record { tables = λ _. 0; table_addresses = λ _. 0 }

-- The loop over the kernel's tables, from `i` on; the rounds left are counted.
unfoldable pub copy_tables : ℕ → ℕ → Directory → Directory → Directory
copy_tables zero i old dir = dir
copy_tables (suc rounds) i old dir = copy_tables rounds (i + 1) old (record {
  tables = update dir.tables i (old.tables i);
  table_addresses = update dir.table_addresses i (old.table_addresses i);
})

-- The loop over the mappings.
unfoldable pub map_all : ℕ → List Mapping → ℕ → Space → Option Space
unfolding map_region_in
map_all fuel [] dir s = some s
map_all fuel (m ∷ ms) dir s = do
  r ← map_region_in fuel m.start m.stop dir s
  map_all fuel ms dir r.1

abbrev pub directory_size : ℕ
directory_size = 8192

-- A directory that was allocated: its address, and the space with the heap moved on.
abbrev pub allocate_directory : Space → ℕ × Space
allocate_directory s =
    let r = allocate directory_size true s.heap_top in (r.0, record s { heap_top = r.1 })

unfoldable pub create_directory : ℕ → List Mapping → Space → Option (ℕ × Space)
unfolding map_all copy_tables
create_directory fuel mappings s =
    let (at, s₁) = allocate_directory s in
    let shared =
      copy_tables s.base_kernel_tables_size 0 (s.directories s.current_directory) blank_directory in
    do
      s₂ ← map_all fuel mappings at (record s₁ { directories = update s.directories at shared })
      some (at, s₂)

-- `K_PHYSICAL_MEM_SIZE / FRAME_SIZE * 10`
abbrev pub number_of_frames : ℕ
number_of_frames = 0x1000000 / 0x1000 * 10

-- `K_MAPPED_REGION`
abbrev pub mapped_region : ℕ
mapped_region = 0x200000

abbrev pub heap_start : ℕ
heap_start = 0xC0000000

abbrev pub heap_initial_size : ℕ
heap_initial_size = 0x1000000

abbrev pub base_tables : ℕ → ℕ
base_tables pages =
    let num_tables = pages / page_table_size in if num_tables == 0 then 1 else num_tables

-- The part of `Initialize` under `if (heap_mapping)`, with the number of pages created before.
unfoldable pub map_heap : ℕ → Bool → ℕ → ℕ × Space → Option (ℕ × Space)
unfolding map_region_in
map_heap fuel false kernel (pages, s) = some (pages, s)
map_heap fuel true kernel (pages, s) = do
  r ← map_region_in fuel heap_start (heap_start + heap_initial_size) kernel s
  some (add32 pages r.0, r.1)

-- `Initialize` up to the mapping of the kernel: two directories and the table of frames are made.
unfoldable pub unmapped : Space → Space
unfolding frame_table
unmapped s =
    let (current, s₁) = allocate_directory s in
    let (kernel, s₂) = allocate_directory s₁ in
    let (frames, heap_top) = frame_table number_of_frames s₂.heap_top in
    record s₂ {
      heap_top = heap_top;
      current_directory = current;
      kernel_directory = kernel;
      directories = update s.directories kernel blank_directory;
      frames = frames;
    }

-- And behind the mappings: `pages` is what the first one created, and the kernel's directory is copied
-- to the current one.
abbrev pub finished : ℕ → Space → Space
finished pages s = record s {
  base_kernel_tables_size = base_tables pages;
  directories = update s.directories s.current_directory (s.directories s.kernel_directory);
}

-- `Initialize`, up to the registers; `heap` is whether it has a heap mapping, whose numbers it does
-- not use.
unfoldable pub initialize : ℕ → Bool → Space → Option Space
unfolding map_region_in map_heap unmapped
initialize fuel heap s = do
  r ← map_region_in fuel 0 mapped_region (unmapped s).kernel_directory (unmapped s)
  t ← map_heap fuel heap r.1.kernel_directory r
  some (finished r.0 t.1)

abbrev pub returned_space : Option (ℕ × Space) → Option Space
returned_space none = none
returned_space (some (pages, s)) = some s

-- `page_fault_handler`, with the error code, `cr2`, and the directory of the process that GetNext
-- gives where there is one.
unfoldable pub page_fault_handler : ℕ → ℕ → ℕ → Option ℕ → Space → Option Space
unfolding map_region_in
page_fault_handler fuel err_code faulting_address none s = none
page_fault_handler fuel err_code faulting_address (some directory) s =
    let base_fault = faulting_address - faulting_address % page_size in
    let top_fault = add32 base_fault page_size in
    let done = map_region_in fuel base_fault top_fault directory s in
    if err_code % 2 == 0 then returned_space done else none
