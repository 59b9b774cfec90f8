-- ===== src/Tests/Pages.antt =====
-- The theorems on frames and page tables at a machine with four frames.
use juos.Prelude.{◌+◌, ◌≡◌, refl, Bool, true, false, List, [], ◌∷◌, arith, get_or}
use juos.PrimitiveHeap.{page_size}
use juos.Paging.{Machine, blank_page, map_region, mapped}
use juos.Paging.Step.{entry}
use juos.Paging.Frames.{free_count}
use juos.Paging.Map.{HasTables}
use juos.Paging.Fresh.{map_region-fresh}
use juos.Paging.Destroy.{destroy_directory, IsFree, destroy_directory-IsFree}

abbrev four_frames : List Bool
four_frames = true ∷ false ∷ false ∷ false ∷ []

-- Every directory entry leads to one table.
abbrev one_table : Machine
one_table = record {
  frames = four_frames;
  heap_top = 20480;
  memory = λ _ _. blank_page;
  dir = record { tables = λ _. 8192; table_addresses = λ _. 8199 };
}

-- No page table is there.
abbrev no_table : Machine
no_table = record one_table { dir = record { tables = λ _. 0; table_addresses = λ _. 0 } }

one_table-HasTables : HasTables 4096 12288 one_table
one_table-HasTables a lo hi = omega arith

map_region-fresh_example :
    (k : Machine) × (map_region 2 0 4096 (4096 + page_size) no_table ≡ mapped 1 k)
    × ((entry 4096 k).is_present ≡ false)
    × (free_count k.frames + 1 ≡ 3)
map_region-fresh_example =
    map_region-fresh 0 4096 no_table (omega arith) refl (omega arith) (omega arith) (omega arith)

-- Nothing is mapped, so each entry names the frame 0.
destroy_directory-IsFree_example :
    IsFree 0 (destroy_directory one_table).frames
    × (get_or (destroy_directory one_table).frames 2 true ≡ false)
destroy_directory-IsFree_example =
    destroy_directory-IsFree one_table 5 6 2 (omega arith) (omega arith) (omega arith)
      (λ t e lt. omega arith)
