-- ===== src/Ext2/Mounted.antt =====
-- kernel/drivers/ext2.cpp: what the constructor of Fs leaves on the device.
use juos.Prelude.{
  List, [], ◌∷◌, ℕ, ◌+◌, ◌/◌, ◌%◌, ◌≤◌, ◌<◌, ◌≡◌, refl, ap, ◌∙◌, true, Option, some, arith,
}
use juos.Prelude.Words.{u32_mod, add32}
use juos.Ext2.Storage.{Storage}
use juos.Ext2.Bytes.{SuperBlock, super_block_at}
use juos.Ext2.Volume.{
  Fs, FsDescriptor, FileInode, write_object_to_block, read_storage, zero_buffer,
  read_object_from_block, write_storage, zero_block,
}
use juos.Ext2.Block.{IsVolume, InRange}
use juos.Ext2.Super.{no_create, new_super_block, create_super_block, get_super_block}
use juos.Ext2.Group.{
  BlockGroupTable, create_block_group, load_bitmaps, new_descriptor, get_block_group,
}
use juos.Ext2.File.{empty_cache, fill_entry, new_fs}
use juos.Prelude.Options.{◌>>=◌}
use juos.Ext2.Made.{
  super_block_written, IsVolume-create_super_block, no_create_found, sign_set,
  create_block_group_other, group_found, create_block_group_parts,
}
use juos.Ext2.Objects.{InRange-le}

-- "root", as `memcpy` copies it.
abbrev pub root : List ℕ
root = 114 ∷ 111 ∷ 111 ∷ 116 ∷ 0 ∷ []

module _ (D : Storage) where
  -- The superblock, and the bitmaps of the first group, as NoCreate finds them.
  abbrev pub look_up : ℕ → FsDescriptor → Fs D → Option (SuperBlock × Option ((ℕ → ℕ) × (ℕ → ℕ)))
  look_up m info fs = do
    (sb, fs₁) ← get_super_block D m no_create info fs
    (bg, fs₂) ← get_block_group D (add32 info.super_block_idx 1) no_create fs₁
    some (sb, bg.bitmaps)

  abbrev pub unmounted : D.State → FsDescriptor → SuperBlock → Fs D
  unmounted disk info old = record {
    disk = disk;
    info = info;
    sectors_per_block = info.block_size / 512;
    global_super_block = old;
    file_inodes_cache = empty_cache;
  }

  -- After the superblock is made.
  abbrev pub blank : ℕ → FsDescriptor → Fs D → Fs D
  blank n info start = record (create_super_block D n info start).1 {
    global_super_block = new_super_block n info;
  }

  -- After the first group is made.
  abbrev pub mounted : ℕ → FsDescriptor → Fs D → List FileInode → Fs D
  mounted n info start cache = record (create_block_group D (n + 1) (blank n info start)).1 {
    file_inodes_cache = cache;
  }

  pub new_fs-mounted :
      (disk : D.State) (info : FsDescriptor) (old : SuperBlock)
      → info.block_size % 512 ≡ 0
      → add32 info.super_block_idx 1 ≡ info.super_block_idx + 1
      → let start = unmounted disk info old in
        let n = info.super_block_idx in
        new_fs D true disk info old
        ≡ some (
            mounted n info start (
              fill_entry 1 root
                (create_block_group D (n + 1) (blank n info start)).1.file_inodes_cache))
  unfolding new_fs get_super_block create_super_block get_block_group
  new_fs-mounted disk info old whole e = rw whole (rw e refl)

  look_up_both :
      (m : ℕ) (info : FsDescriptor) (fs : Fs D) (sb : SuperBlock) (bg : BlockGroupTable)
      (bitmaps : Option ((ℕ → ℕ) × (ℕ → ℕ)))
      → get_super_block D m no_create info fs ≡ some (sb, fs)
      → get_block_group D (add32 info.super_block_idx 1) no_create fs ≡ some (bg, fs)
      → bg.bitmaps ≡ bitmaps
      → look_up m info fs ≡ some (sb, bitmaps)
  look_up_both m info fs sb bg bitmaps super group same =
      rw (super, group) (ap (λ b. some (sb, b)) same)

  module _ (n m : ℕ) (info : FsDescriptor) (start : Fs D) (cache : List FileInode)
      (v : IsVolume D start) (low : InRange D start 15) (lo : 0 < n) (hi : n + 4 < 16)
      (fits : info.block_size < u32_mod) where
    IsVolume-blank : IsVolume D (blank n info start)
    IsVolume-blank =
        let w = IsVolume-create_super_block D n info v in
        record { some_sectors = w.some_sectors; whole = w.whole }

    super_block_found :
        get_super_block D m no_create info (mounted n info start cache)
        ≡ some (new_super_block n info, (mounted n info start cache))
    unfolding read_object_from_block read_storage create_super_block write_object_to_block
        write_storage create_block_group zero_block
    super_block_found =
        let in_low = λ (b : ℕ) (le : b ≤ 15). InRange-le D b 15 start le low in
        let kept : read_object_from_block D 1 (create_block_group D (n + 1) (blank n info start)).1
            ≡ read_object_from_block D 1 (blank n info start) =
          create_block_group_other D (n + 1) 1 (blank n info start) IsVolume-blank low
            (in_low (n + 1) (omega arith)) (in_low 1 (omega arith)) (omega arith) (omega arith)
            (omega arith) (omega arith) in
        no_create_found D m info (mounted n info start cache) (new_super_block n info)
          (ap super_block_at kept
            ∙ super_block_written D n info start v (in_low 1 (omega arith)) (omega arith) fits)
          (sign_set n info)

    bitmaps_found :
        (get_block_group D (n + 1) no_create (mounted n info start cache)
          ≡ some (
            load_bitmaps D
                (new_descriptor (n + 1) start.info.block_size)
                (mounted n info start cache),
            (mounted n info start cache),
          ))
        × ((load_bitmaps D
              (new_descriptor (n + 1) start.info.block_size)
              (mounted n info start cache)).bitmaps
            ≡ some (zero_buffer, zero_buffer))
    unfolding read_object_from_block read_storage create_super_block write_object_to_block
        write_storage create_block_group zero_block load_bitmaps new_descriptor
    bitmaps_found =
        let in_low = λ (b : ℕ) (le : b ≤ 15). InRange-le D b 15 start le low in
        let (own, b, i, t) =
          create_block_group_parts D (n + 1) (blank n info start) IsVolume-blank low
            (in_low (n + 1) (omega arith)) in
        let (found, found') =
          group_found D (n + 1) (mounted n info start cache) start.info.block_size (omega arith)
            (own (omega arith) (omega arith) (omega arith)) in
        (found', rw (b, i) refl)

    mounted_found :
        add32 info.super_block_idx 1 ≡ n + 1
        → look_up m info (mounted n info start cache)
          ≡ some (new_super_block n info, some (zero_buffer, zero_buffer))
    mounted_found e =
        let (group, clear) = bitmaps_found in
        look_up_both m info (mounted n info start cache) (new_super_block n info)
          (load_bitmaps D (new_descriptor (n + 1) start.info.block_size)
            (mounted n info start cache))
          (some (zero_buffer, zero_buffer)) super_block_found (rw e group) clear

  pub new_fs_lem :
      (m : ℕ) (disk : D.State) (info : FsDescriptor) (old : SuperBlock)
      → 0 < info.block_size
      → info.block_size < u32_mod
      → info.block_size % 512 ≡ 0
      → 0 < info.super_block_idx
      → info.super_block_idx + 4 < 16
      → (new_fs D true disk info old >>= look_up m info)
        ≡ some (new_super_block info.super_block_idx info, some (zero_buffer, zero_buffer))
  unfolding new_fs
  new_fs_lem m disk info old pos fits whole lo hi =
      let n = info.super_block_idx in
      let start = unmounted disk info old in
      let v : IsVolume D start = record {
        some_sectors = omega (arith, whole, pos);
        whole = omega (arith, whole);
      } in
      let e : add32 n 1 ≡ n + 1 = omega (arith, hi) in
      rw (new_fs-mounted disk info old whole e)
        (mounted_found n m info start _ v (omega (arith, whole, fits)) lo hi fits e)
