-- ===== src/Tests/Spaces.antt =====
-- The theorems on page directories at a space whose kernel has one table, at 8192.
use juos.Prelude.{
  ℕ, ◌+◌, ◌/◌, ◌≤◌, ◌<◌, ◌≡◌, refl, inl, inr, Bool-cases, ◌⊎◌, true, some, ◌==◌, if◌then◌else◌,
  arith,
}
use juos.Paging.{Directory, Machine, blank_page, untaken, map_region, mapped}
use juos.Paging.Frames.{free_count-untaken}
use juos.Paging.Map.{IsMapped}
use juos.Paging.Space.{
  Space, machine_of, create_directory, initialize, mapped_region, page_fault_handler,
}
use juos.Paging.Space.Grown.{IsLinked, InPages, Grows}
use juos.Paging.Space.Aligned.{map_region-Grows}
use juos.Paging.Space.Created.{IsProcessDirectory, create_directory_lem}
use juos.Paging.Space.Fault.{IsUnsettled, page_start, page_fault_handler-IsMapped}
use juos.Paging.Space.Initial.{InHeap, initialize-Identity}
use juos.Paging.Step.{entry}
use juos.PrimitiveHeap.{page_size}
use juos.Processing.{process_mappings}

abbrev pub kernel_tables : Directory
kernel_tables = record {
  tables = λ t. if t == 0 then 8192 else 0;
  table_addresses = λ t. if t == 0 then 8199 else 0;
}

abbrev pub space : Space
space = record {
  frames = untaken 5000;
  heap_top = 20480;
  memory = λ _ _. blank_page;
  directories = λ _. kernel_tables;
  current_directory = 4096;
  kernel_directory = 4096;
  base_kernel_tables_size = 1;
}

pub space-IsLinked : IsLinked (machine_of 4096 space)
space-IsLinked t = elim (Bool-cases (t == 0)) [
  | inl e ↦ let z : t ≡ 0 = ground arith in rw z (omega arith, inr refl)
  | inr ne ↦ (ground arith, inl (ground arith))
]

map_region-Grows_example :
    (k : Machine) × (map_region 9 0 0xA0000000 0xA0003000 (machine_of 4096 space)
      ≡ mapped (0 + 3) k)
    × Grows (InPages 3 0xA0000000) 3 (machine_of 4096 space) k
map_region-Grows_example =
    map_region-Grows 3 9 0 0xA0000000 0xA0003000 (machine_of 4096 space) (omega arith) refl
      (omega arith) (omega arith) refl
      (record {
        settled = inr refl;
        linked = space-IsLinked;
        heap = omega arith;
        room = omega arith;
        frames = omega (arith, free_count-untaken 5000);
      })

create_directory_lem_example :
    (at : ℕ) × (s : Space) × (create_directory 2000000 process_mappings space ≡ some (at, s))
    × (20480 ≤ at)
    × IsProcessDirectory at process_mappings space s
create_directory_lem_example =
    create_directory_lem 2000000 process_mappings space (omega arith)
      (
        (omega arith, refl, omega arith, refl, omega arith),
        ((omega arith, refl, omega arith, refl, omega arith), tt),
      )
      space-IsLinked (omega arith) (omega arith) (omega (arith, free_count-untaken 5000))

page_fault_handler-IsMapped_example :
    (s₁ : Space) × (s₂ : Space) × (page_fault_handler 2 2 0xB0001234 (some 4096) space ≡ some s₁)
    × (page_fault_handler 2 0 0xB0001234 (some 4096) s₁ ≡ some s₂)
    × (IsUnsettled (page_start 0xB0001234) (machine_of 4096 space)
        ⊎ IsMapped 0xB0001234 (machine_of 4096 s₁))
    × IsMapped 0xB0001234 (machine_of 4096 s₂)
page_fault_handler-IsMapped_example =
    page_fault_handler-IsMapped 0 2 0 0xB0001234 4096 space refl refl (omega arith) (omega arith)
      (record {
        linked = space-IsLinked;
        heap = omega arith;
        room = omega arith;
        frames = omega (arith, free_count-untaken 5000);
      })

initialize-Identity_example :
    (t : Space) × (initialize 5000 true space ≡ some t)
    × ((a : ℕ)
        → a < mapped_region
        → IsMapped a (machine_of t.kernel_directory t)
          × ((entry a (machine_of t.kernel_directory t)).frame_addr ≡ a / page_size))
    × ((a : ℕ) → InHeap true a → IsMapped a (machine_of t.kernel_directory t))
    × (t.base_kernel_tables_size ≡ 1)
    × (t.directories t.current_directory ≡ t.directories t.kernel_directory)
initialize-Identity_example =
    initialize-Identity 5000 true space (omega arith) (omega arith) (omega arith)
