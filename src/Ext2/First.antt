-- ===== src/Ext2/First.antt =====
-- kernel/drivers/ext2.cpp: the constructor of Fs, then the first `CreateFile`.
use juos.Prelude.{
  List, ℕ, ◌+◌, ◌*◌, ◌/◌, ◌%◌, ◌≤◌, ◌<◌, ◌≡◌, refl, sym, subst, true, some, arith, length,
}
use juos.Prelude.Words.{u32_mod, add32}
use juos.Ext2.Storage.{Storage}
use juos.Ext2.Bytes.{SuperBlock}
use juos.Ext2.Volume.{
  Fs, FsDescriptor, FileInode, read_object_from_block, read_storage, write_object_to_block,
  write_storage, inode_idx_to_block_group, zero_block,
}
use juos.Ext2.Block.{IsVolume, InRange}
use juos.Ext2.Super.{new_super_block, create_super_block}
use juos.Ext2.Group.{create_block_group, new_descriptor}
use juos.Ext2.Objects.{InRange-le}
use juos.Ext2.File.{
  empty_cache, fill_entry, get_available_inode_idx, available_from, new_fs, create_file,
}
use juos.Prelude.Options.{◌>>=◌}
use juos.Ext2.Made.{IsVolume-create_super_block, create_block_group_parts}
use juos.Ext2.Mounted.{unmounted, blank, mounted, root, new_fs-mounted}
use juos.Ext2.Places.{IsMounted, HasGroup, group_of, filed}
use juos.Ext2.Created.{create_file_lem}
use native.Mathlib.Nat.{div-mul-le_self, mul-le-mul_left}

-- The cache after the constructor.
abbrev pub first_cache : List FileInode
first_cache = fill_entry 1 root empty_cache

length-first_cache : length first_cache ≤ 1024
unfolding fill_entry empty_cache
length-first_cache = omega arith

available-first_cache : available_from 0 first_cache ≡ some 2
unfolding fill_entry empty_cache available_from
available-first_cache = refl

module _ (D : Storage) where
  -- The file system that the constructor for a new storage makes.
  abbrev pub fresh : D.State → FsDescriptor → SuperBlock → Fs D
  fresh disk info old =
      let n = info.super_block_idx in
      let start = unmounted D disk info old in
      mounted D n info start (
        fill_entry 1 root (create_block_group D (n + 1) (blank D n info start)).1.file_inodes_cache)

  pub fresh_cache :
      (disk : D.State) (info : FsDescriptor) (old : SuperBlock)
      → (fresh disk info old).file_inodes_cache ≡ first_cache
  unfolding create_block_group create_super_block write_object_to_block write_storage zero_block
  fresh_cache disk info old = refl

  pub available-fresh :
      (disk : D.State) (info : FsDescriptor) (old : SuperBlock)
      → get_available_inode_idx D (fresh disk info old) ≡ some 2
  unfolding get_available_inode_idx
  available-fresh disk info old = rw (fresh_cache disk info old) available-first_cache

  pub IsMounted-fresh :
      (disk : D.State) (info : FsDescriptor) (old : SuperBlock)
      → 0 < info.block_size
      → info.block_size < u32_mod
      → info.block_size % 512 ≡ 0
      → IsMounted D (fresh disk info old)
  unfolding create_block_group create_super_block write_object_to_block write_storage zero_block
      new_super_block
  IsMounted-fresh disk info old pos fits whole = record {
    volume = record { some_sectors = omega (arith, whole, pos); whole = omega (arith, whole) };
    block_size_same = refl;
    group_inode_size_same = refl;
    low = omega (arith, whole, fits);
    few_files = length-first_cache;
  }

  pub group_of-fresh :
      (disk : D.State) (info : FsDescriptor) (old : SuperBlock)
      → 512 ≤ info.block_size
      → info.super_block_idx + 4 < 16
      → group_of D 2 (fresh disk info old) ≡ info.super_block_idx + 1
  unfolding inode_idx_to_block_group create_block_group create_super_block write_object_to_block
      write_storage zero_block new_super_block
  group_of-fresh disk info old pos hi =
      let below = div-mul-le_self 1 info.block_size in
      let more : 1 / info.block_size * 512 ≤ 1 / info.block_size * info.block_size =
        mul-le-mul_left (1 / info.block_size) pos in
      omega (arith, below, more, hi)

  pub HasGroup-fresh :
      (disk : D.State) (info : FsDescriptor) (old : SuperBlock)
      → 0 < info.block_size
      → info.block_size < u32_mod
      → info.block_size % 512 ≡ 0
      → info.super_block_idx + 4 < 16
      → HasGroup D 2 (fresh disk info old)
  unfolding create_super_block write_object_to_block write_storage read_object_from_block
      read_storage new_descriptor create_block_group zero_block
  HasGroup-fresh disk info old pos fits whole hi =
      let n = info.super_block_idx in
      let start = unmounted D disk info old in
      let v : IsVolume D start = record {
        some_sectors = omega (arith, whole, pos);
        whole = omega (arith, whole);
      } in
      let w = IsVolume-create_super_block D n info v in
      let v' : IsVolume D (blank D n info start) = record {
        some_sectors = w.some_sectors;
        whole = w.whole;
      } in
      let low : InRange D start 15 = omega (arith, whole, fits) in
      let (own, b, i, t) =
        create_block_group_parts D (n + 1) (blank D n info start) v' low
          (InRange-le D (n + 1) 15 start (omega arith) low) in
      rw (group_of-fresh disk info old (omega (arith, pos, whole)) hi)
        (own (omega arith) (omega arith) (omega arith))

  -- On any device that moves one sector of 512 bytes for the count 0 that the file system passes, as
  -- kernel/drivers/ata.cpp does, with a block size of whole sectors below 2 ^ 32 and a superblock block
  -- below 12:
  -- after the constructor for a new storage, `CreateFile` with a filename of at most 256 characters
  -- succeeds and takes the inode 2.
  pub create_file-new_fs :
      (filename : List ℕ) (disk : D.State) (info : FsDescriptor) (old : SuperBlock)
      → 0 < info.block_size
      → info.block_size < u32_mod
      → info.block_size % 512 ≡ 0
      → info.super_block_idx + 4 < 16
      → length filename ≤ 256
      → (new_fs D true disk info old >>= create_file D filename)
        ≡ some (filed D filename 2 (fresh disk info old))
  create_file-new_fs filename disk info old pos fits whole hi short =
      let e : add32 info.super_block_idx 1 ≡ info.super_block_idx + 1 = omega (arith, hi) in
      rw (new_fs-mounted D disk info old whole e) (
        (create_file_lem D filename 2 (fresh disk info old)
          (IsMounted-fresh disk info old pos fits whole) (available-fresh disk info old) short
          (subst (λ n. n + 3 < 16)
            (sym (group_of-fresh disk info old (omega (arith, pos, whole)) hi)) (omega (arith, hi)))
          (HasGroup-fresh disk info old pos fits whole hi)).0)
