-- ===== src/Ext2/Places.antt =====
-- kernel/drivers/ext2.cpp: the blocks that a file's group and inode take on a mounted volume.
use juos.Prelude.{ℕ, ◌+◌, ◌*◌, ◌/◌, ◌%◌, ◌^◌, ◌≤◌, ◌<◌, ◌≡◌, List, some, arith, length}
use juos.Prelude.Words.{u32_mod, add32}
use juos.Prelude.Maps.{update}
use juos.Ext2.Storage.{Storage}
use juos.Ext2.Bytes.{BlockGroupDescriptor, descriptor_bytes, sizeof_inode}
use juos.Ext2.Volume.{
  Fs, overlay, zero_buffer, read_object_from_block, bytes_to_blocks, inode_idx_containing_block,
  inode_idx_in_block_group, inode_idx_to_block_group,
}
use juos.Ext2.Block.{IsVolume, InRange}
use juos.Ext2.Objects.{InRange-le}
use juos.Ext2.Group.{new_descriptor, load_bitmaps}
use juos.Ext2.Made.{big_enough}
use juos.Ext2.Filed.{EndsAt, AreApart}
use juos.Ext2.File.{get_available_inode_idx, write_file}
use native.Mathlib.Nat.{div_self, mod-lt, div-mul-le_self, mul-le-mul_left}
use juos.Ext2.Available.{available_from-bounds}

module _ (D : Storage) where
  -- The superblock of the volume has its block size, and 300 blocks are below the sector 2 ^ 32.
  pub record IsMounted (fs : Fs D) : Type 0 where
    pub volume : IsVolume D fs
    pub block_size_same : fs.global_super_block.block_size ≡ fs.info.block_size
    pub group_inode_size_same : fs.global_super_block.group_inode_size ≡ fs.info.block_size
    pub low : InRange D fs 300
    pub few_files : length fs.file_inodes_cache ≤ 1024

  -- The block of the group that holds the inode.
  abbrev pub group_of : ℕ → Fs D → ℕ
  group_of idx fs = inode_idx_to_block_group idx fs.global_super_block fs.info.super_block_idx

  pub containing-bound :
      (idx : ℕ) (fs : Fs D)
      → IsMounted fs
      → idx ≤ 1024
      → inode_idx_containing_block idx fs.global_super_block ≤ 256
  unfolding inode_idx_containing_block
  containing-bound idx fs m le =
      let x = (idx * sizeof_inode) % u32_mod in
      let s = fs.global_super_block.block_size in
      let same = m.block_size_same in
      let big = big_enough D m.volume in
      let below = div-mul-le_self x s in
      let more : x / s * 512 ≤ x / s * s = mul-le-mul_left (x / s) (omega (arith, same, big)) in
      omega (arith, below, more, le)

  abbrev pub group_descriptor_of : ℕ → Fs D → BlockGroupDescriptor
  group_descriptor_of idx fs = new_descriptor (group_of idx fs) fs.info.block_size

  -- The block of the inode table that holds the inode.
  abbrev pub table_block : ℕ → Fs D → ℕ
  table_block idx fs =
      add32 (group_descriptor_of idx fs).inode_table_start_block
        (inode_idx_containing_block idx fs.global_super_block)

  -- The descriptor of the inode's group is on the device.
  abbrev pub HasGroup : ℕ → Fs D → Type 0
  HasGroup idx fs =
      read_object_from_block D (group_of idx fs) fs
      ≡ overlay 0 (descriptor_bytes (group_descriptor_of idx fs)) zero_buffer

  -- The state that `CreateFile` leaves for the inode.
  abbrev pub filed : List ℕ → ℕ → Fs D → Fs D
  filed filename idx fs =
      let d = group_descriptor_of idx fs in
      write_file D filename idx (group_of idx fs) (load_bitmaps D d fs)
        (
          read_object_from_block D d.block_bitmap_block fs,
          read_object_from_block D d.inode_bitmap_block fs,
        )
        fs

  pub update-EndsAt :
      (size place : ℕ) (bitmap : ℕ → ℕ)
      → place < size
      → EndsAt size bitmap
      → EndsAt size (update bitmap place 1)
  update-EndsAt size place bitmap lt ends k le = let rest = ends k le in ground arith

  pub place-bound :
      (idx : ℕ) (fs : Fs D)
      → IsMounted fs
      → inode_idx_in_block_group idx fs.global_super_block < fs.info.block_size
  unfolding inode_idx_in_block_group
  place-bound idx fs m =
      let big = big_enough D m.volume in
      let same = m.group_inode_size_same in rw same (mod-lt _ (omega (arith, big)))

  pub one_block :
      (fs : Fs D) → IsMounted fs → bytes_to_blocks fs.info.block_size fs.global_super_block ≡ 1
  unfolding bytes_to_blocks
  one_block fs m =
      let big = big_enough D m.volume in rw m.block_size_same (div_self (omega (arith, big)))

  pub idx-bound :
      (idx : ℕ) (fs : Fs D) → IsMounted fs → get_available_inode_idx D fs ≡ some idx → idx ≤ 1024
  unfolding get_available_inode_idx
  idx-bound idx fs m e =
      let bounds = available_from-bounds 0 idx fs.file_inodes_cache e in
      let few = m.few_files in omega (arith, bounds.1, few)

  -- The blocks of the group and the block of the inode are apart and on the device.
  pub places :
      (idx : ℕ) (fs : Fs D)
      → IsMounted fs
      → group_of idx fs + 3 < 16
      → idx ≤ 1024
      → let d = group_descriptor_of idx fs in
        let t =
          add32 d.inode_table_start_block (inode_idx_containing_block idx fs.global_super_block) in
        AreApart (group_of idx fs) d.block_bitmap_block d.inode_bitmap_block t
        × InRange D fs (group_of idx fs)
        × InRange D fs d.block_bitmap_block
        × InRange D fs d.inode_bitmap_block
        × InRange D fs t
  unfolding new_descriptor
  places idx fs m small le =
      let n = group_of idx fs in
      let c = inode_idx_containing_block idx fs.global_super_block in
      let near = containing-bound idx fs m le in
      let in_low = λ (b : ℕ) (le : b ≤ 300). InRange-le D b 300 fs le m.low in
      (
        record {
          block_b = omega (arith, small);
          block_i = omega (arith, small);
          block_t = omega (arith, small, near);
          b_i = omega (arith, small);
          b_t = omega (arith, small, near);
          i_t = omega (arith, small, near);
        },
        in_low n (omega (arith, small)),
        in_low (add32 n 1 % 2 ^ 4) (omega arith),
        in_low (add32 n 2 % 2 ^ 4) (omega arith),
        in_low (add32 (add32 n 3 % 2 ^ 4) c) (omega (arith, near)),
      )
