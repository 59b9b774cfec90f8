-- ===== src/Ext2/Created.antt =====
-- kernel/drivers/ext2.cpp: `CreateFile` on a mounted volume.
use juos.Prelude.{ℕ, ◌+◌, ◌-◌, ◌≤◌, ◌<◌, ◌≡◌, ◌≢◌, refl, true, List, some, ltb, leb, arith, length}
use juos.Prelude.Maps.{update}
use juos.Ext2.Storage.{Storage}
use juos.Ext2.Bytes.{new_inode, sizeof_inode}
use juos.Ext2.Volume.{
  Fs, read_storage, write_storage, read_object_from_block, write_object_to_block, bytes_to_blocks,
  inode_idx_in_block_group,
}
use juos.Ext2.Block.{IsVolume}
use juos.Ext2.Objects.{InRange-le}
use juos.Ext2.Group.{load_bitmaps, get_block_group}
use juos.Ext2.Super.{no_create}
use juos.Ext2.Made.{group_found}
use juos.Ext2.Filed.{with_inode, read_object-EndsAt, write_block_group_lem}
use juos.Ext2.File.{
  get_available_inode_idx, fill_entry, name_size, filename_length, write_block_group, write_file,
  create_file,
}
use juos.Ext2.Available.{available_from-bounds, available_from-set}
use juos.Ext2.Places.{
  IsMounted, group_of, group_descriptor_of, table_block, HasGroup, filed, update-EndsAt,
  place-bound, one_block, idx-bound, places,
}

new_inode-size : length (new_inode 0x9999) ≡ sizeof_inode
unfolding new_inode
new_inode-size = refl

module _ (D : Storage) where
  create_file-write_file :
      (filename : List ℕ) (idx : ℕ) (fs : Fs D)
      → get_available_inode_idx D fs ≡ some idx
      → length filename ≤ 256
      → group_of D idx fs + 3 < 16
      → HasGroup D idx fs
      → create_file D filename fs ≡ some (filed D filename idx fs)
  unfolding create_file load_bitmaps read_object_from_block
  create_file-write_file filename idx fs free short small there =
      let long : ltb (length filename) filename_length ≡ true = ground arith in
      let fits : leb (length filename) name_size ≡ true = ground arith in
      rw (free, long, fits)
        (rw ((group_found D (group_of D idx fs) fs fs.info.block_size small there).0) refl)

  -- What `CreateFile` does: the group is found with the inode's byte of its bitmap set and the rest of
  -- both bitmaps as before, the block of the inode table holds the new inode in its place and the rest
  -- as before, the entry of the cache is filled, and every other block of the first 300 is as before.
  pub record IsFiled (filename : List ℕ) (idx : ℕ) (fs fs' : Fs D) : Type 0 where
    pub group :
        get_block_group D (group_of D idx fs) no_create fs'
        ≡ some (load_bitmaps D (group_descriptor_of D idx fs) fs', fs')
    pub bitmaps :
        (load_bitmaps D (group_descriptor_of D idx fs) fs').bitmaps
        ≡ some (
          read_object_from_block D (group_descriptor_of D idx fs).block_bitmap_block fs,
          update
              (read_object_from_block D (group_descriptor_of D idx fs).inode_bitmap_block fs)
              (inode_idx_in_block_group idx fs.global_super_block)
              1,
        )
    pub inode :
        read_object_from_block D (table_block D idx fs) fs'
        ≡ with_inode idx (new_inode 0x9999) (read_object_from_block D (table_block D idx fs) fs)
    pub cache : fs'.file_inodes_cache ≡ fill_entry idx filename fs.file_inodes_cache
    pub others :
        (other : ℕ)
        → other ≤ 300
        → group_of D idx fs ≢ other
        → (group_descriptor_of D idx fs).block_bitmap_block ≢ other
        → (group_descriptor_of D idx fs).inode_bitmap_block ≢ other
        → table_block D idx fs ≢ other
        → read_object_from_block D other fs' ≡ read_object_from_block D other fs

  -- On a device that moves one sector of 512 bytes for the count 0 that the file system passes, as
  -- kernel/drivers/ata.cpp does, and a mounted volume of at most 1024 files, for the first free inode, a filename of at most 256
  -- characters and a group whose block is below 13 and whose descriptor is on the device, `CreateFile`
  -- returns; then the group is found with the inode's byte of its bitmap set and the rest of both
  -- bitmaps as before, the block of the inode table holds the new inode in its place and the rest as
  -- before, the entry of the cache is filled, and every other block of the first 300 is as before.
  pub create_file_lem :
      (filename : List ℕ) (idx : ℕ) (fs : Fs D)
      → IsMounted D fs
      → get_available_inode_idx D fs ≡ some idx
      → length filename ≤ 256
      → group_of D idx fs + 3 < 16
      → HasGroup D idx fs
      → (create_file D filename fs ≡ some (filed D filename idx fs))
        × IsFiled filename idx fs (filed D filename idx fs)
  unfolding write_file write_block_group write_storage write_object_to_block load_bitmaps
      read_object_from_block read_storage
  create_file_lem filename idx fs m free short small there =
      let (apart, rn, rb, ri, rt) = places D idx fs m small (idx-bound D idx fs m free) in
      let d = group_descriptor_of D idx fs in
      let named : Fs D = record fs {
        file_inodes_cache = fill_entry idx filename fs.file_inodes_cache;
      } in
      let v = m.volume in
      let v' : IsVolume D named = record { some_sectors = v.some_sectors; whole = v.whole } in
      let bb = read_object_from_block D d.block_bitmap_block fs in
      let ib = read_object_from_block D d.inode_bitmap_block fs in
      let place = inode_idx_in_block_group idx fs.global_super_block in
      let one : bytes_to_blocks fs.info.block_size fs.global_super_block ≡ 1 = one_block D fs m in
      let (own, b, i, t, rest) =
        write_block_group_lem D (load_bitmaps D d fs) bb (update ib place 1) (group_of D idx fs)
          (new_inode 0x9999) idx named v' one apart rn rb ri rt new_inode-size
          (read_object-EndsAt D d.block_bitmap_block fs v rb)
          (update-EndsAt D fs.info.block_size place ib (place-bound D idx fs m)
            (read_object-EndsAt D d.inode_bitmap_block fs v ri)) in
      let (found, found') =
        group_found D (group_of D idx fs) (filed D filename idx fs) fs.info.block_size small own in
      (
        create_file-write_file filename idx fs free short small there,
        record {
          group = found';
          bitmaps = rw (b, i) refl;
          inode = t;
          cache = refl;
          others = λ other le. rest other (InRange-le D other 300 fs le m.low);
        },
      )

  -- After `CreateFile` on a mounted volume, the next inode that is found free is a later one.
  pub create_file_next :
      (filename : List ℕ) (idx j : ℕ) (fs : Fs D)
      → IsMounted D fs
      → get_available_inode_idx D fs ≡ some idx
      → get_available_inode_idx D (filed D filename idx fs) ≡ some j
      → idx < j
  unfolding get_available_inode_idx write_file write_block_group write_storage write_object_to_block
      fill_entry
  create_file_next filename idx j fs m free next =
      let bounds = available_from-bounds 0 idx fs.file_inodes_cache free in
      available_from-set 0 idx j (idx - 1) _ fs.file_inodes_cache free (omega (arith, bounds.0))
        (λ e. absurd (omega (arith, bounds.0, e))) next
