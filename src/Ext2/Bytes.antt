-- ===== src/Ext2/Bytes.antt =====
-- The packed structures of kernel/include/drivers/ext2.h as bytes, low byte first.
use juos.Prelude.{ℕ, zero, suc, ◌+◌, ◌*◌, ◌/◌, ◌%◌, ◌^◌, List, [], ◌∷◌, ◌++◌, replicate}

-- The low `w` bytes of a number.
abbrev pub bytes_of : ℕ → ℕ → List ℕ
bytes_of zero v = []
bytes_of (suc w) v = (v % 256) ∷ bytes_of w (v / 256)

abbrev pub read16 : (ℕ → ℕ) → ℕ → ℕ
read16 b i = b i + 256 * b (i + 1)

abbrev pub read32 : (ℕ → ℕ) → ℕ → ℕ
read32 b i = b i + 256 * b (i + 1) + 65536 * b (i + 2) + 16777216 * b (i + 3)

pub record SuperBlock : Type 0 where
  pub total_inodes : ℕ
  pub total_blocks : ℕ
  pub n_su_blocks : ℕ
  pub unallocated_blocks : ℕ
  pub unallocated_inodes : ℕ
  pub sb_block : ℕ
  pub block_size : ℕ
  pub fragment_size : ℕ
  pub group_block_size : ℕ
  pub group_fragment_size : ℕ
  pub group_inode_size : ℕ
  pub last_mount_time : ℕ
  pub last_written_time : ℕ
  pub mount_since_last_ck : ℕ
  pub n_mounts_before_ck : ℕ
  pub ext2_sign : ℕ
  pub fs_state : ℕ
  pub err_handling : ℕ
  pub version_minor : ℕ
  pub last_ck_time : ℕ
  pub forced_ck_interval : ℕ
  pub os_id : ℕ
  pub version_major : ℕ
  pub uid_can_reserve : ℕ
  pub gid_can_reserve : ℕ

abbrev pub sizeof_super_block : ℕ
sizeof_super_block = 84

unfoldable pub super_block_bytes : SuperBlock → List ℕ
super_block_bytes s =
    bytes_of 4 s.total_inodes
    ++ bytes_of 4 s.total_blocks
    ++ bytes_of 4 s.n_su_blocks
    ++ bytes_of 4 s.unallocated_blocks
    ++ bytes_of 4 s.unallocated_inodes
    ++ bytes_of 4 s.sb_block
    ++ bytes_of 4 s.block_size
    ++ bytes_of 4 s.fragment_size
    ++ bytes_of 4 s.group_block_size
    ++ bytes_of 4 s.group_fragment_size
    ++ bytes_of 4 s.group_inode_size
    ++ bytes_of 4 s.last_mount_time
    ++ bytes_of 4 s.last_written_time
    ++ bytes_of 2 s.mount_since_last_ck
    ++ bytes_of 2 s.n_mounts_before_ck
    ++ bytes_of 2 s.ext2_sign
    ++ bytes_of 2 s.fs_state
    ++ bytes_of 2 s.err_handling
    ++ bytes_of 2 s.version_minor
    ++ bytes_of 4 s.last_ck_time
    ++ bytes_of 4 s.forced_ck_interval
    ++ bytes_of 4 s.os_id
    ++ bytes_of 4 s.version_major
    ++ bytes_of 2 s.uid_can_reserve
    ++ bytes_of 2 s.gid_can_reserve

unfoldable pub super_block_at : (ℕ → ℕ) → SuperBlock
super_block_at b = record {
  total_inodes = read32 b 0;
  total_blocks = read32 b 4;
  n_su_blocks = read32 b 8;
  unallocated_blocks = read32 b 12;
  unallocated_inodes = read32 b 16;
  sb_block = read32 b 20;
  block_size = read32 b 24;
  fragment_size = read32 b 28;
  group_block_size = read32 b 32;
  group_fragment_size = read32 b 36;
  group_inode_size = read32 b 40;
  last_mount_time = read32 b 44;
  last_written_time = read32 b 48;
  mount_since_last_ck = read16 b 52;
  n_mounts_before_ck = read16 b 54;
  ext2_sign = read16 b 56;
  fs_state = read16 b 58;
  err_handling = read16 b 60;
  version_minor = read16 b 62;
  last_ck_time = read32 b 64;
  forced_ck_interval = read32 b 68;
  os_id = read32 b 72;
  version_major = read32 b 76;
  uid_can_reserve = read16 b 80;
  gid_can_reserve = read16 b 82;
}

-- The fields of BlockGroupDescriptor are bit fields of 4, 4, 4, 2, 2 and 2 bits, and 14 unused ones.
pub record BlockGroupDescriptor : Type 0 where
  pub block_bitmap_block : ℕ
  pub inode_bitmap_block : ℕ
  pub inode_table_start_block : ℕ
  pub group_n_unalloc_blocks : ℕ
  pub group_n_unalloc_inodes : ℕ
  pub n_dirs_in_group : ℕ

abbrev pub sizeof_descriptor : ℕ
sizeof_descriptor = 4

unfoldable pub descriptor_bytes : BlockGroupDescriptor → List ℕ
descriptor_bytes d = bytes_of 4 (
    d.block_bitmap_block
    + 2 ^ 4 * d.inode_bitmap_block
    + 2 ^ 8 * d.inode_table_start_block
    + 2 ^ 12 * d.group_n_unalloc_blocks
    + 2 ^ 14 * d.group_n_unalloc_inodes
    + 2 ^ 16 * d.n_dirs_in_group)

unfoldable pub descriptor_at : (ℕ → ℕ) → BlockGroupDescriptor
descriptor_at b =
    let w = read32 b 0 in
    record {
      block_bitmap_block = w % 2 ^ 4;
      inode_bitmap_block = w / 2 ^ 4 % 2 ^ 4;
      inode_table_start_block = w / 2 ^ 8 % 2 ^ 4;
      group_n_unalloc_blocks = w / 2 ^ 12 % 2 ^ 2;
      group_n_unalloc_inodes = w / 2 ^ 14 % 2 ^ 2;
      n_dirs_in_group = w / 2 ^ 16 % 2 ^ 2;
    }

abbrev pub sizeof_inode : ℕ
sizeof_inode = 128

-- An Inode is its bytes: 36 of the fields before `os_specific_1`, then this word.
unfoldable pub new_inode : ℕ → List ℕ
new_inode os_specific_1 = replicate 36 0 ++ bytes_of 4 os_specific_1 ++ replicate 88 0
