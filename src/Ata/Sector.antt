-- ===== src/Ata/Sector.antt =====
-- kernel/drivers/ata.cpp: the transfer of one sector, and of bytes.
use juos.Prelude.{
  ℕ, ◌+◌, ◌-◌, ◌*◌, ◌/◌, ◌%◌, ◌^◌, Bool, Option, some, ◌==◌, leb, ltb, ◌&&◌, if◌then◌else◌, not,
}
use juos.Prelude.Options.{◌>>=◌, ◌>>◌, guard}
use juos.Ata.Drive.{Ports}
use juos.Ata.Ports.{
  Ata, primary, data_words, status_or_command, read_sectors_with_retry, write_sectors_with_retry,
  cache_flush, io_reg_offset, read_byte, after_read_byte, wait_both, command, disable_interrupts,
  set_head, delay_400_ns, set_sector_count, set_lba, timer_sleep,
}

abbrev pub sector_size_bytes : ℕ
sector_size_bytes = 512

-- ALIGN_VAL to the size of a sector, over its size.
unfoldable pub sectors_of : ℕ → ℕ
sectors_of count = (count + (2 ^ 64 - count) % sector_size_bytes) % 2 ^ 64 / sector_size_bytes

module _ (H : Ports) where
  -- The registers of a transfer, up to the wait before its command.
  unfoldable pub set_transfer : ℕ → Ata H → Ata H
  unfolding disable_interrupts set_head delay_400_ns set_sector_count set_lba timer_sleep
  set_transfer lba s =
      let headed = delay_400_ns H (set_head H lba 0 (disable_interrupts H s)) in
      set_lba H lba (timer_sleep H 1 (set_sector_count H 1 headed))

  -- The buffer's first 512 bytes are the result; the count of sectors is not looked at. The bus of a
  -- device is always the primary one.
  unfoldable pub read_sectors : ℕ → ℕ → ℕ → Ata H → Option (((ℕ → ℕ) × Bool) × Ata H)
  unfolding set_transfer wait_both command timer_sleep read_byte after_read_byte io_reg_offset
  read_sectors fuel lba sectors s = do
    ready ← wait_both H fuel (set_transfer lba s)
    (sent, s₁) ← command H fuel read_sectors_with_retry ready
    s₂ ← wait_both H fuel (timer_sleep H 1 s₁)
    let port = io_reg_offset data_words primary
    let s₃ : Ata H = record s₂ { ports = H.after_insw port 256 s₂.ports }
    some (
      (H.insw port 256 s₂.ports, not (read_byte H status_or_command s₃ == 0)),
      after_read_byte H status_or_command s₃,
    )

  unfoldable pub write_sectors : ℕ → (ℕ → ℕ) → ℕ → ℕ → Ata H → Option (Bool × Ata H)
  unfolding set_transfer wait_both command timer_sleep read_byte after_read_byte
  write_sectors fuel buffer lba sectors s = do
    ready ← wait_both H fuel (set_transfer lba s)
    (sent, s₁) ← command H fuel write_sectors_with_retry ready
    s₂ ← wait_both H fuel (timer_sleep H 1 s₁)
    let s₃ = after_read_byte H status_or_command s₂
    let s₄ : Ata H = record s₃ { ports = H.outsw 0x1f0 256 buffer s₃.ports }
    (flushed, s₅) ← command H fuel cache_flush s₄
    some (not (read_byte H status_or_command s₅ == 0), after_read_byte H status_or_command s₅)

  -- `fresh` is what stands in the new buffer. The output is read from the result.
  unfoldable pub read_bytes : ℕ → (ℕ → ℕ) → ℕ → ℕ → Ata H → Option (((ℕ → ℕ) × Bool) × Ata H)
  unfolding read_sectors sectors_of
  read_bytes fuel fresh location count s = do
    let sectors = sectors_of count
    guard (leb sector_size_bytes (sectors * sector_size_bytes))
    ((bytes, success), s') ← read_sectors fuel (location / sector_size_bytes) sectors s
    let offset = location % sector_size_bytes
    guard (leb (offset + count) (sectors * sector_size_bytes))
    some (
      (
        λ k. if ltb (offset + k) sector_size_bytes then bytes (offset + k) else fresh (offset + k),
        success,
      ),
      s',
    )

  -- The bytes from 512 on of the buffer are not written to the device.
  unfoldable pub write_bytes : ℕ → (ℕ → ℕ) → ℕ → ℕ → Ata H → Option (Bool × Ata H)
  unfolding read_sectors write_sectors sectors_of
  write_bytes fuel input location count s = do
    let sectors = sectors_of count
    guard (leb sector_size_bytes (sectors * sector_size_bytes))
    ((bytes, success), s') ← read_sectors fuel (location / sector_size_bytes) sectors s
    let offset = location % sector_size_bytes
    guard (leb (offset + count) (sectors * sector_size_bytes))
    let buffer : ℕ → ℕ =
        λ k. if leb offset k && ltb k (offset + count) then input (k - offset) else bytes k
    write_sectors fuel buffer (location / sector_size_bytes) sectors s'
