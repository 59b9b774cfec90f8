-- ===== src/Ext2/Super.antt =====
-- kernel/drivers/ext2.cpp, `_get_super_block`.
use juos.Prelude.{ℕ, Option, none, some, ◌==◌, if◌then◌else◌}
use juos.Ext2.Storage.{Storage}
use juos.Ext2.Bytes.{SuperBlock, super_block_bytes, super_block_at}
use juos.Ext2.Volume.{Fs, FsDescriptor, read_object_from_block, write_object_to_block}

pub data GetObjectOptions : Type 0 where
  no_create create_if_not_found force_create : GetObjectOptions

abbrev pub ext2_sign_value : ℕ
ext2_sign_value = 0xef53

-- The word -1, and the half word.
abbrev pub minus_one : ℕ
minus_one = 0xffff_ffff

abbrev pub minus_one16 : ℕ
minus_one16 = 0xffff

-- Clean is 0, Panic is 2 and Other is 4.
unfoldable pub new_super_block : ℕ → FsDescriptor → SuperBlock
new_super_block sb_block_idx descriptor = record {
  total_inodes = 0;
  total_blocks = 0;
  n_su_blocks = 0;
  unallocated_blocks = 0;
  unallocated_inodes = 0;
  sb_block = sb_block_idx;
  block_size = descriptor.block_size;
  fragment_size = minus_one;
  group_block_size = descriptor.block_size;
  group_fragment_size = minus_one;
  group_inode_size = descriptor.block_size;
  last_mount_time = minus_one;
  last_written_time = minus_one;
  mount_since_last_ck = minus_one16;
  n_mounts_before_ck = minus_one16;
  ext2_sign = ext2_sign_value;
  fs_state = 0;
  err_handling = 2;
  version_minor = 0x69;
  last_ck_time = minus_one;
  forced_ck_interval = minus_one;
  os_id = 4;
  version_major = 0x420;
  uid_can_reserve = minus_one16;
  gid_can_reserve = minus_one16;
}

module _ (D : Storage) where
  unfoldable pub create_super_block : ℕ → FsDescriptor → Fs D → SuperBlock × Fs D
  unfolding new_super_block
  create_super_block sb_block_idx descriptor fs =
      let sb = new_super_block sb_block_idx descriptor in
      (sb, write_object_to_block D (super_block_bytes sb) 1 fs)

  unfoldable pub get_super_block :
      ℕ → GetObjectOptions → FsDescriptor → Fs D → Option (SuperBlock × Fs D)
  unfolding create_super_block
  get_super_block sb_block_idx force_create descriptor fs =
      some (create_super_block sb_block_idx descriptor fs)
  get_super_block sb_block_idx no_create descriptor fs =
      let sb = super_block_at (read_object_from_block D 1 fs) in
      if sb.ext2_sign == 0 then none else some (sb, fs)
  -- What is read first is not looked at.
  get_super_block sb_block_idx create_if_not_found descriptor fs =
      some (create_super_block sb_block_idx descriptor fs)
