-- ===== src/Ext2/File.antt =====
-- kernel/drivers/ext2.cpp: the constructor of Fs, `CreateFile` and what it calls. A filename is the
-- list of its characters.
use juos.Prelude.{
  ℕ, ◌+◌, ◌-◌, ◌/◌, ◌%◌, Bool, Option, none, some, List, [], ◌∷◌, ◌==◌, ltb, leb, if◌then◌else◌,
  length, set, get_or, replicate,
}
use juos.Prelude.Maps.{update}
use juos.Prelude.Options.{◌>>=◌, ◌>>◌, guard}
use juos.Prelude.Words.{add32}
use juos.Ext2.Storage.{Storage}
use juos.Ext2.Bytes.{SuperBlock, descriptor_bytes, new_inode, sizeof_inode}
use juos.Ext2.Volume.{
  Fs, FsDescriptor, FileInode, zero_buffer, overlay, read_storage, write_storage,
  write_object_to_block, bytes_to_blocks, inode_idx_to_block_group, inode_idx_in_block_group,
  inode_idx_containing_block, inode_offset,
}
use juos.Ext2.Super.{create_if_not_found, force_create, get_super_block}
use juos.Ext2.Group.{BlockGroupTable, get_block_group}

abbrev pub filename_length : ℕ
filename_length = 512

abbrev pub max_files : ℕ
max_files = 1024

-- The size of `name` in FileInode.
abbrev pub name_size : ℕ
name_size = 256

abbrev pub free_entry : FileInode
free_entry = record { name = zero_buffer; inode_idx = 0 }

-- `memset(_file_inodes_cache, 0, sizeof(_file_inodes_cache))`
unfoldable pub empty_cache : List FileInode
empty_cache = replicate max_files free_entry

-- The loop of `_get_available_inode_idx` from the index `i` on; `none` is -1.
unfoldable pub available_from : ℕ → List FileInode → Option ℕ
available_from i [] = none
available_from i (f ∷ fs) =
    let rest = available_from (i + 1) fs in if f.inode_idx == 0 then some (i + 1) else rest

-- `memcpy` of the filename into the entry of the cache.
unfoldable pub fill_entry : ℕ → List ℕ → List FileInode → List FileInode
unfolding overlay
fill_entry inode_idx filename cache = set cache (inode_idx - 1) (record {
  name = overlay 0 filename (get_or cache (inode_idx - 1) free_entry).name;
  inode_idx = inode_idx;
})

module _ (D : Storage) where
  unfoldable pub get_available_inode_idx : Fs D → Option ℕ
  unfolding available_from
  get_available_inode_idx fs = available_from 0 fs.file_inodes_cache

  unfoldable pub write_block_group :
      BlockGroupTable → (ℕ → ℕ) → (ℕ → ℕ) → ℕ → List ℕ → ℕ → Fs D → Fs D
  write_block_group bg block_bitmap inode_bitmap block_idx inode inode_idx fs =
      let d = bg.group_descriptor in
      let n = bytes_to_blocks fs.info.block_size fs.global_super_block in
      let fs₁ = write_object_to_block D (descriptor_bytes d) block_idx fs in
      let fs₂ = write_storage D block_bitmap d.block_bitmap_block n fs₁ in
      let fs₃ = write_storage D inode_bitmap d.inode_bitmap_block n fs₂ in
      let inode_block =
        add32 d.inode_table_start_block
          (inode_idx_containing_block inode_idx fs.global_super_block) in
      let block = read_storage D zero_buffer inode_block 1 fs₃ in
      let offset = inode_offset inode_idx in
      let cleared = overlay offset (replicate sizeof_inode 0) block in
      write_storage D (overlay offset inode cleared) inode_block 1 fs₃

  -- With the bitmaps of the group at hand.
  unfoldable pub write_file : List ℕ → ℕ → ℕ → BlockGroupTable → (ℕ → ℕ) × (ℕ → ℕ) → Fs D → Fs D
  unfolding fill_entry write_block_group
  write_file filename inode_idx bg_idx bg (block_bitmap, inode_bitmap) fs =
      let taken =
        update inode_bitmap (inode_idx_in_block_group inode_idx fs.global_super_block) 1 in
      let named : Fs D = record fs {
        file_inodes_cache = fill_entry inode_idx filename fs.file_inodes_cache;
      } in
      write_block_group bg block_bitmap taken bg_idx (new_inode 0x9999) inode_idx named

  -- A filename of more than 256 characters passes the ASSERT and runs over the end of `name`.
  unfoldable pub create_file : List ℕ → Fs D → Option (Fs D)
  unfolding get_available_inode_idx write_file
  create_file filename fs = do
    inode_idx ← get_available_inode_idx fs
    guard (ltb (length filename) filename_length)
    guard (leb (length filename) name_size)
    let bg_idx = inode_idx_to_block_group inode_idx fs.global_super_block fs.info.super_block_idx
    (bg, fs₁) ← get_block_group D bg_idx create_if_not_found fs
    bitmaps ← bg.bitmaps
    some (write_file filename inode_idx bg_idx bg bitmaps fs₁)

  -- The constructor; `new_storage` is K_NEW_STORAGE, and "root" goes into the first entry.
  unfoldable pub new_fs : Bool → D.State → FsDescriptor → SuperBlock → Option (Fs D)
  unfolding fill_entry
  new_fs new_storage disk descriptor old_super_block =
      let opts = if new_storage then force_create else create_if_not_found in
      let start : Fs D = record {
        disk = disk;
        info = descriptor;
        sectors_per_block = descriptor.block_size / 512;
        global_super_block = old_super_block;
        file_inodes_cache = empty_cache;
      } in
      do
        guard (descriptor.block_size % 512 == 0)
        (sb, fs₁) ← get_super_block D descriptor.super_block_idx opts descriptor start
        let fs₂ : Fs D = record fs₁ { global_super_block = sb }
        (bg, fs₃) ← get_block_group D (add32 descriptor.super_block_idx 1) opts fs₂
        some (record fs₃ {
          file_inodes_cache = fill_entry 1 (114 ∷ 111 ∷ 111 ∷ 116 ∷ 0 ∷ []) fs₃.file_inodes_cache;
        })
