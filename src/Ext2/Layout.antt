-- ===== src/Ext2/Layout.antt =====
-- kernel/drivers/ext2.cpp: the bytes of a superblock and of a descriptor are read as what they were.
use juos.Prelude.{ℕ, ◌+◌, ◌*◌, ◌/◌, ◌%◌, ◌≤◌, ◌<◌, ◌≡◌, refl, ap, ◌∙◌, List, arith, length}
use juos.Prelude.Words.{u32_mod, add32}
use juos.Ext2.Bytes.{
  SuperBlock, BlockGroupDescriptor, super_block_at, super_block_bytes, descriptor_at,
  descriptor_bytes,
}
use juos.Ext2.Volume.{FsDescriptor, overlay, zero_buffer}
use juos.Ext2.Super.{new_super_block}
use juos.Ext2.Group.{new_descriptor}

word :
    (x : ℕ)
    → x < u32_mod
    → x % 256
        + 256 * (x / 256 % 256)
        + 65536 * (x / 256 / 256 % 256)
        + 16777216 * (x / 256 / 256 / 256 % 256)
      ≡ x
word x lt = omega (arith, lt)

-- The bytes of the new superblock are read as that superblock.
pub super_block_at-super_block_bytes :
    (n : ℕ) (info : FsDescriptor)
    → n < u32_mod
    → info.block_size < u32_mod
    → super_block_at (overlay 0 (super_block_bytes (new_super_block n info)) zero_buffer)
      ≡ new_super_block n info
unfolding super_block_at overlay super_block_bytes new_super_block
super_block_at-super_block_bytes n info n_fits size_fits = λ i. record {
  total_inodes = 0;
  total_blocks = 0;
  n_su_blocks = 0;
  unallocated_blocks = 0;
  unallocated_inodes = 0;
  sb_block = word n n_fits i;
  block_size = word info.block_size size_fits i;
  fragment_size = 0xffff_ffff;
  group_block_size = word info.block_size size_fits i;
  group_fragment_size = 0xffff_ffff;
  group_inode_size = word info.block_size size_fits i;
  last_mount_time = 0xffff_ffff;
  last_written_time = 0xffff_ffff;
  mount_since_last_ck = 0xffff;
  n_mounts_before_ck = 0xffff;
  ext2_sign = 0xef53;
  fs_state = 0;
  err_handling = 2;
  version_minor = 0x69;
  last_ck_time = 0xffff_ffff;
  forced_ck_interval = 0xffff_ffff;
  os_id = 4;
  version_major = 0x420;
  uid_can_reserve = 0xffff;
  gid_can_reserve = 0xffff;
}

pub overlay-beyond :
    (bytes : List ℕ) (size k : ℕ)
    → length bytes ≤ size
    → size ≤ k
    → overlay 0 bytes zero_buffer k ≡ 0
unfolding overlay
overlay-beyond bytes size k fits le = ground arith

-- The bytes of a new descriptor are read as that descriptor.
pub descriptor_at-descriptor_bytes :
    (n size : ℕ)
    → descriptor_at (overlay 0 (descriptor_bytes (new_descriptor n size)) zero_buffer)
      ≡ new_descriptor n size
unfolding descriptor_at overlay descriptor_bytes new_descriptor
descriptor_at-descriptor_bytes n size =
    let a = add32 n 1 % 16 in
    let b = add32 n 2 % 16 in
    let c = add32 n 3 % 16 in
    let e = size % 4 in
    let w = a + 16 * b + 256 * c + 4096 * e + 16384 * e + 65536 * 0 in
    let t = word w (omega arith) in
    let e0 : w % 16 ≡ a = omega arith in
    let e1 : w / 16 % 16 ≡ b = omega arith in
    let e2 : w / 256 % 16 ≡ c = omega arith in
    let e3 : w / 4096 % 4 ≡ e = omega arith in
    let e4 : w / 16384 % 4 ≡ e = omega arith in
    let e5 : w / 65536 % 4 ≡ 0 = omega arith in
    λ i. record {
      block_bitmap_block = (ap (λ x. x % 16) t ∙ e0) i;
      inode_bitmap_block = (ap (λ x. x / 16 % 16) t ∙ e1) i;
      inode_table_start_block = (ap (λ x. x / 256 % 16) t ∙ e2) i;
      group_n_unalloc_blocks = (ap (λ x. x / 4096 % 4) t ∙ e3) i;
      group_n_unalloc_inodes = (ap (λ x. x / 16384 % 4) t ∙ e4) i;
      n_dirs_in_group = (ap (λ x. x / 65536 % 4) t ∙ e5) i;
    }

pub length-super_block_bytes : (sb : SuperBlock) → length (super_block_bytes sb) ≡ 84
unfolding super_block_bytes
length-super_block_bytes sb = refl

pub length-descriptor_bytes : (d : BlockGroupDescriptor) → length (descriptor_bytes d) ≡ 4
unfolding descriptor_bytes
length-descriptor_bytes d = refl
