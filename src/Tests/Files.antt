-- ===== src/Tests/Files.antt =====
-- The theorems on the file system, on a device whose sectors are a table.
use juos.Prelude.{
  if◌then◌else◌, ltb, List, [], ◌∷◌, ℕ, ◌+◌, ◌*◌, ◌≤◌, ◌≡◌, ◌≢◌, refl, ap, ◌∙◌, true, some, arith,
}
use juos.Prelude.Maps.{update}
use juos.Ext2.Storage.{Storage}
use juos.Ext2.Bytes.{SuperBlock}
use juos.Ext2.Volume.{Fs, FsDescriptor, zero_buffer, inode_idx_containing_block, inode_offset}
use juos.Ext2.Super.{
  new_super_block, create_super_block, get_super_block, no_create, create_if_not_found,
}
use juos.Ext2.File.{
  new_fs, create_file, get_available_inode_idx, available_from, fill_entry, empty_cache,
}
use juos.Prelude.Options.{◌>>=◌}
use juos.Ext2.Block.{IsVolume}
use juos.Ext2.Made.{get_super_block_made}
use juos.Ext2.Mounted.{unmounted, look_up, new_fs_lem}
use juos.Ext2.Slots.{inode_place}
use juos.Ext2.Created.{IsFiled, create_file_lem}
use juos.Ext2.Places.{IsMounted, HasGroup, group_of, filed}
use juos.Ext2.First.{
  fresh, create_file-new_fs, IsMounted-fresh, HasGroup-fresh, group_of-fresh, available-fresh,
  fresh_cache,
}

abbrev table_storage : Storage
table_storage = record {
  State = ℕ → ℕ → ℕ;
  sector = λ s i k. s i k;
  read_sectors = λ b i n s k. if ltb k 512 then s i k else b k;
  write_sectors = λ b i n s. update s i b;
  read_one = λ s i k b lt. ground arith;
  read_behind = λ s i k b le. ground arith;
  write_self = λ s i k b lt. table_self s i k b;
  write_ne = λ s i j k b ne. table_ne s i j k b ne;
}
  where
    table_self : (s : ℕ → ℕ → ℕ) (i k : ℕ) (b : ℕ → ℕ) → update s i b i k ≡ b k
    table_self s i k b = ground arith

    table_ne : (s : ℕ → ℕ → ℕ) (i j k : ℕ) (b : ℕ → ℕ) → i ≢ j → update s i b j k ≡ s j k
    table_ne s i j k b ne = ground arith

-- A device that holds the byte 7 everywhere.
abbrev sevens : ℕ → ℕ → ℕ
sevens i k = 7

abbrev kilobyte : FsDescriptor
kilobyte = record { block_size = 1024; super_block_idx = 1 }

abbrev no_super_block : SuperBlock
no_super_block = new_super_block 0 (record { block_size = 512; super_block_idx = 0 })

abbrev volume : Fs table_storage
volume = unmounted table_storage sevens kilobyte no_super_block

volume-IsVolume : IsVolume table_storage volume
volume-IsVolume = record { some_sectors = omega arith; whole = refl }

abbrev mounted_volume : Fs table_storage
mounted_volume = fresh table_storage sevens kilobyte no_super_block

abbrev filename : List ℕ
filename = 97 ∷ 46 ∷ 116 ∷ []

get_super_block_made_example :
    (get_super_block table_storage 1 create_if_not_found kilobyte volume >>= λ (sb, fs').
    get_super_block table_storage 5 no_create kilobyte fs')
    ≡ some (new_super_block 1 kilobyte, (create_super_block table_storage 1 kilobyte volume).1)
get_super_block_made_example =
    get_super_block_made table_storage 1 5 kilobyte volume volume-IsVolume (omega arith)
      (omega arith) (omega arith)

new_fs_lem_example :
    (new_fs table_storage true sevens kilobyte no_super_block >>= look_up table_storage 1 kilobyte)
    ≡ some (new_super_block 1 kilobyte, some (zero_buffer, zero_buffer))
new_fs_lem_example =
    new_fs_lem table_storage 1 sevens kilobyte no_super_block (omega arith) (omega arith) refl
      (omega arith) (omega arith)

mounted_volume-IsMounted : IsMounted table_storage mounted_volume
mounted_volume-IsMounted =
    IsMounted-fresh table_storage sevens kilobyte no_super_block (omega arith) (omega arith) refl

first_free : get_available_inode_idx table_storage mounted_volume ≡ some 2
first_free = available-fresh table_storage sevens kilobyte no_super_block

first_group : group_of table_storage 2 mounted_volume ≡ 2
first_group =
    group_of-fresh table_storage sevens kilobyte no_super_block (omega arith) (omega arith)

first_group-HasGroup : HasGroup table_storage 2 mounted_volume
first_group-HasGroup =
    HasGroup-fresh table_storage sevens kilobyte no_super_block (omega arith) (omega arith) refl
      (omega arith)

create_file_lem_example :
    (create_file table_storage filename mounted_volume
      ≡ some (filed table_storage filename 2 mounted_volume))
    × IsFiled table_storage filename 2 mounted_volume
        (filed table_storage filename 2 mounted_volume)
create_file_lem_example =
    create_file_lem table_storage filename 2 mounted_volume mounted_volume-IsMounted first_free
      (omega arith) (omega (arith, first_group)) first_group-HasGroup

first_file :
    IsFiled table_storage filename 2 mounted_volume (filed table_storage filename 2 mounted_volume)
first_file =
    (create_file_lem table_storage filename 2 mounted_volume mounted_volume-IsMounted first_free
      (omega arith) (omega (arith, first_group)) first_group-HasGroup).1

second_free :
    get_available_inode_idx table_storage (filed table_storage filename 2 mounted_volume) ≡ some 3
unfolding get_available_inode_idx available_from fill_entry empty_cache
second_free = ap (available_from 0) (
    first_file.cache
    ∙ ap (fill_entry 2 filename) (fresh_cache table_storage sevens kilobyte no_super_block))

create_file-new_fs_example :
    (new_fs table_storage true sevens kilobyte no_super_block
      >>= create_file table_storage filename)
    ≡ some (filed table_storage filename 2 mounted_volume)
create_file-new_fs_example =
    create_file-new_fs table_storage filename sevens kilobyte no_super_block (omega arith)
      (omega arith) refl (omega arith) (omega arith)

inode_place_example :
    (inode_idx_containing_block 6 no_super_block * 512 + inode_offset 6 ≡ 768)
    × (inode_offset 6 + 128 ≤ 512)
unfolding new_super_block
inode_place_example = inode_place 6 no_super_block refl (omega arith)
