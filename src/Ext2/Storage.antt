-- ===== src/Ext2/Storage.antt =====
-- kernel/include/kernel/storage.h: what the file system asks of a StorageDeviceHandler. The buffers
-- start at the pointer that is passed. The interface documents a transfer of `sectors` sectors, and the
-- file system passes 0 (kernel/drivers/ext2.cpp): it relies on what the one driver of the repository
-- does, kernel/drivers/ata.cpp, which does not read the count and moves one sector of 512 bytes. The
-- laws say this of the count 0 only.
use juos.Prelude.{ℕ, ◌<◌, ◌≤◌, ◌≡◌, ◌≢◌}

pub record Storage : Type 1 where
  pub State : Type 0
  -- The byte of a sector.
  pub sector : State → ℕ → ℕ → ℕ
  -- `ReadSectors(buffer, lba, sectors)`: the buffer behind it.
  pub read_sectors : (ℕ → ℕ) → ℕ → ℕ → State → ℕ → ℕ
  -- `WriteSectors(buffer, lba, sectors)`
  pub write_sectors : (ℕ → ℕ) → ℕ → ℕ → State → State
  pub read_one : (s : State) (i k : ℕ) (b : ℕ → ℕ) → k < 512 → read_sectors b i 0 s k ≡ sector s i k
  pub read_behind : (s : State) (i k : ℕ) (b : ℕ → ℕ) → 512 ≤ k → read_sectors b i 0 s k ≡ b k
  pub write_self :
      (s : State) (i k : ℕ) (b : ℕ → ℕ) → k < 512 → sector (write_sectors b i 0 s) i k ≡ b k
  pub write_ne :
      (s : State) (i j k : ℕ) (b : ℕ → ℕ)
      → i ≢ j
      → sector (write_sectors b i 0 s) j k ≡ sector s j k
