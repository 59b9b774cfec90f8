-- ===== src/Ext2/Group.antt =====
-- kernel/drivers/ext2.cpp, `_get_block_group`.
use juos.Prelude.{ℕ, ◌/◌, ◌%◌, ◌^◌, Option, none, some, Bool, ◌||◌, ◌==◌, if◌then◌else◌}
use juos.Prelude.Words.{add32, mul32}
use juos.Ext2.Storage.{Storage}
use juos.Ext2.Bytes.{BlockGroupDescriptor, descriptor_bytes, descriptor_at, sizeof_inode}
use juos.Ext2.Volume.{
  Fs, zero_buffer, read_storage, read_object_from_block, write_object_to_block, zero_block,
}
use juos.Ext2.Super.{GetObjectOptions, no_create, create_if_not_found, force_create}

-- The two bitmaps, `none` where the pointers were not set.
pub record BlockGroupTable : Type 0 where
  pub group_descriptor : BlockGroupDescriptor
  pub bitmaps : Option ((ℕ → ℕ) × (ℕ → ℕ))
  pub inode_table_block_size : ℕ

-- The bit fields take the low bits of what is assigned.
unfoldable pub new_descriptor : ℕ → ℕ → BlockGroupDescriptor
new_descriptor block_idx block_size = record {
  block_bitmap_block = add32 block_idx 1 % 2 ^ 4;
  inode_bitmap_block = add32 block_idx 2 % 2 ^ 4;
  inode_table_start_block = add32 block_idx 3 % 2 ^ 4;
  group_n_unalloc_blocks = block_size % 2 ^ 2;
  group_n_unalloc_inodes = block_size % 2 ^ 2;
  n_dirs_in_group = 0;
}

-- The test of CreateIfNotFound and the ASSERTs of NoCreate.
unfoldable pub is_missing : BlockGroupDescriptor → Bool
is_missing d = d.block_bitmap_block == 0 || d.inode_bitmap_block == 0

module _ (D : Storage) where
  unfoldable pub create_block_group : ℕ → Fs D → BlockGroupTable × Fs D
  unfolding new_descriptor
  create_block_group block_idx fs =
      let d = new_descriptor block_idx fs.info.block_size in
      let fs₁ = write_object_to_block D (descriptor_bytes d) block_idx fs in
      let fs₂ = zero_block D d.block_bitmap_block fs₁ in
      let fs₃ = zero_block D d.inode_bitmap_block fs₂ in
      let fs₄ = zero_block D d.inode_table_start_block fs₃ in
      (record { group_descriptor = d; bitmaps = none; inode_table_block_size = 0 }, fs₄)

  unfoldable pub load_bitmaps : BlockGroupDescriptor → Fs D → BlockGroupTable
  load_bitmaps d fs = record {
    group_descriptor = d;
    bitmaps = some (
      read_storage D zero_buffer d.block_bitmap_block 1 fs,
      read_storage D zero_buffer d.inode_bitmap_block 1 fs,
    );
    inode_table_block_size =
        (mul32 fs.global_super_block.group_inode_size sizeof_inode / fs.info.block_size) % 2 ^ 8;
  }

  unfoldable pub get_block_group : ℕ → GetObjectOptions → Fs D → Option (BlockGroupTable × Fs D)
  unfolding create_block_group load_bitmaps is_missing
  get_block_group block_idx force_create fs = some (create_block_group block_idx fs)
  get_block_group block_idx no_create fs =
      let d = descriptor_at (read_object_from_block D block_idx fs) in
      if is_missing d then none else some (load_bitmaps d fs, fs)
  get_block_group block_idx create_if_not_found fs =
      let d = descriptor_at (read_object_from_block D block_idx fs) in
      let made = create_block_group block_idx fs in
      if is_missing d
      then some (load_bitmaps made.0.group_descriptor made.1, made.1)
      else some (load_bitmaps d fs, fs)
