-- ===== src/Ext2/Slots.antt =====
-- kernel/drivers/ext2.cpp: the place of an inode in the inode table.
use juos.Prelude.{ℕ, ◌+◌, ◌*◌, ◌^◌, ◌<◌, ◌≤◌, ◌≡◌, arith}
use juos.Ext2.Bytes.{SuperBlock, sizeof_inode}
use juos.Ext2.Volume.{inode_idx_containing_block, inode_offset}

-- For blocks of 512 bytes and an index below 2 ^ 25, the block of the table and the offset in it are
-- the byte 128 * idx of the table, and the inode ends inside the block.
pub inode_place :
    (idx : ℕ) (sb : SuperBlock)
    → sb.block_size ≡ 512
    → idx < 2 ^ 25
    → (inode_idx_containing_block idx sb * 512 + inode_offset idx ≡ sizeof_inode * idx)
      × (inode_offset idx + sizeof_inode ≤ 512)
unfolding inode_idx_containing_block inode_offset
inode_place idx sb e fits = rw e (omega (arith, fits), omega arith)

-- For blocks of 1024 bytes, the inodes 8 * q + r and 8 * q + r + 4 with r < 4 have the same place.
pub inode_place_shared :
    (q r : ℕ) (sb : SuperBlock)
    → sb.block_size ≡ 1024
    → r < 4
    → 8 * q + 8 < 2 ^ 25
    → (inode_idx_containing_block (8 * q + r) sb ≡ inode_idx_containing_block (8 * q + r + 4) sb)
      × (inode_offset (8 * q + r) ≡ inode_offset (8 * q + r + 4))
unfolding inode_idx_containing_block inode_offset
inode_place_shared q r sb e lt fits = rw e (omega (arith, lt, fits), omega (arith, lt))
