-- ===== src/Ext2/Volume.antt =====
-- kernel/drivers/ext2.cpp: the state of the file system, the block arithmetic, and the transfer of
-- blocks between a buffer and the storage device.
use juos.Prelude.{
  ℕ, zero, suc, ◌+◌, ◌-◌, ◌*◌, ◌/◌, ◌%◌, List, ltb, leb, ◌&&◌, if◌then◌else◌, get_or, length,
}
use juos.Prelude.Words.{add32, sub32, mul32}
use juos.Ext2.Storage.{Storage}
use juos.Ext2.Bytes.{SuperBlock, sizeof_inode}

abbrev pub sector_size_bytes : ℕ
sector_size_bytes = 512

pub record FsDescriptor : Type 0 where
  pub block_size : ℕ
  pub super_block_idx : ℕ

-- An entry of `_file_inodes_cache`: the bytes of the name, and the inode, 0 for a free entry.
pub record FileInode : Type 0 where
  pub name : ℕ → ℕ
  pub inode_idx : ℕ

module _ (D : Storage) where
  pub record Fs : Type 0 where
    pub disk : D.State
    pub info : FsDescriptor
    pub sectors_per_block : ℕ
    pub global_super_block : SuperBlock
    pub file_inodes_cache : List FileInode

unfoldable pub block_to_sector : ℕ → ℕ → ℕ
block_to_sector block block_size = mul32 block (block_size / sector_size_bytes)

unfoldable pub bytes_to_blocks : ℕ → SuperBlock → ℕ
bytes_to_blocks bytes sb = bytes / sb.block_size

unfoldable pub inode_idx_to_block_group : ℕ → SuperBlock → ℕ → ℕ
inode_idx_to_block_group idx sb super_block_idx =
    add32 (add32 (sub32 idx 1 / sb.group_inode_size) super_block_idx) 1

unfoldable pub inode_idx_in_block_group : ℕ → SuperBlock → ℕ
inode_idx_in_block_group idx sb = sub32 idx 1 % sb.group_inode_size

unfoldable pub inode_idx_containing_block : ℕ → SuperBlock → ℕ
inode_idx_containing_block idx sb = mul32 idx sizeof_inode / sb.block_size

-- `sizeof(Inode) * (idx % 4)`
unfoldable pub inode_offset : ℕ → ℕ
inode_offset idx = sizeof_inode * (idx % 4)

-- `memcpy(buffer + offset, bytes, size)`
unfoldable pub overlay : ℕ → List ℕ → (ℕ → ℕ) → ℕ → ℕ
overlay offset bytes buffer i =
    if leb offset i && ltb i (offset + length bytes) then get_or bytes (i - offset) 0 else buffer i

-- A zeroed buffer.
abbrev pub zero_buffer : ℕ → ℕ
zero_buffer i = 0

module _ (D : Storage) where
  -- The loop of `_read_storage` from round `i` on.
  unfoldable pub read_sectors : ℕ → ℕ → ℕ → D.State → (ℕ → ℕ) → ℕ → ℕ
  read_sectors zero i start disk buffer = buffer
  read_sectors (suc rounds) i start disk buffer = read_sectors rounds (i + 1) start disk (λ k.
      if leb (i * sector_size_bytes) k
      then D.read_sectors (λ j. buffer (i * sector_size_bytes + j)) (add32 start i) 0 disk
          (k - i * sector_size_bytes)
      else buffer k)

  unfoldable pub write_sectors : ℕ → ℕ → ℕ → (ℕ → ℕ) → D.State → D.State
  write_sectors zero i start buffer disk = disk
  write_sectors (suc rounds) i start buffer disk =
      write_sectors rounds (i + 1) start buffer
        (D.write_sectors (λ k. buffer (i * sector_size_bytes + k)) (add32 start i) 0 disk)

  unfoldable pub read_storage : (ℕ → ℕ) → ℕ → ℕ → Fs D → ℕ → ℕ
  unfolding read_sectors block_to_sector
  read_storage buffer block n_blocks fs =
      read_sectors (mul32 fs.sectors_per_block n_blocks) 0
        (block_to_sector block fs.info.block_size) fs.disk buffer

  unfoldable pub write_storage : (ℕ → ℕ) → ℕ → ℕ → Fs D → Fs D
  unfolding write_sectors block_to_sector
  write_storage buffer block n_blocks fs = record fs {
    disk =
        write_sectors (mul32 fs.sectors_per_block n_blocks) 0
          (block_to_sector block fs.info.block_size) buffer fs.disk;
  }

  unfoldable pub write_object_to_block : List ℕ → ℕ → Fs D → Fs D
  unfolding write_storage overlay
  write_object_to_block obj block fs = write_storage (overlay 0 obj zero_buffer) block 1 fs

  -- The object's bytes are read from the result.
  unfoldable pub read_object_from_block : ℕ → Fs D → ℕ → ℕ
  unfolding read_storage
  read_object_from_block block fs = read_storage zero_buffer block 1 fs

  unfoldable pub zero_block : ℕ → Fs D → Fs D
  unfolding write_storage
  zero_block block fs = write_storage zero_buffer block 1 fs
