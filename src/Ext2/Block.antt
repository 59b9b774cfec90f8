-- ===== src/Ext2/Block.antt =====
-- The block transfers of kernel/drivers/ext2.cpp as reads and writes of whole blocks.
use juos.Prelude.{
  ℕ, zero, suc, ◌+◌, ◌-◌, ◌*◌, ◌/◌, ◌%◌, ◌≤◌, ◌<◌, ◌≡◌, ◌≢◌, refl, ap, sym, ◌∙◌, ◌⊎◌, inl, inr,
  true, false, if◌then◌else◌, ltb, leb, arith, Bool-cases,
}
use juos.Prelude.Words.{add32, mul32, u32_mod}
use juos.Ext2.Storage.{Storage}
use juos.Ext2.Volume.{
  Fs, sector_size_bytes, read_sectors, write_sectors, read_storage, write_storage, block_to_sector,
}
use native.Mathlib.Nat.{mul-le-mul_right}
use juos.Prelude.{◌==◌}
use std.Path.{fun_ext}

module _ (D : Storage) where
  -- The buffer behind the transfer of one sector to `lo`.
  abbrev with_sector : ℕ → ℕ → D.State → (ℕ → ℕ) → ℕ → ℕ
  with_sector lo place disk buffer k =
      if leb lo k then D.read_sectors (λ j. buffer (lo + j)) place 0 disk (k - lo) else buffer k

  with_sector-within :
      (lo place k : ℕ) (disk : D.State) (buffer : ℕ → ℕ)
      → lo ≤ k
      → k < lo + 512
      → with_sector lo place disk buffer k ≡ D.sector disk place (k - lo)
  with_sector-within lo place k disk buffer le lt =
      let t : leb lo k ≡ true = ground arith in
      rw t (D.read_one disk place (k - lo) (λ j. buffer (lo + j)) (omega (arith, le, lt)))

  with_sector-outside :
      (lo place k : ℕ) (disk : D.State) (buffer : ℕ → ℕ)
      → (k < lo) ⊎ (lo + 512 ≤ k)
      → with_sector lo place disk buffer k ≡ buffer k
  with_sector-outside lo place k disk buffer (inl lt) =
      let t : leb lo k ≡ false = ground arith in rw t refl
  with_sector-outside lo place k disk buffer (inr le) =
      let t : leb lo k ≡ true = ground arith in
      let e : lo + (k - lo) ≡ k = omega (arith, le) in
      rw t
        (D.read_behind disk place (k - lo) (λ j. buffer (lo + j)) (omega (arith, le)) ∙ ap buffer e)

  -- The byte `k` from the sector `start` on.
  abbrev pub byte_from : D.State → ℕ → ℕ → ℕ
  byte_from disk start k = D.sector disk (start + k / 512) (k % 512)

  read_sectors-byte_from :
      (rounds i start : ℕ) (disk : D.State) (buffer : ℕ → ℕ)
      → start + i + rounds < u32_mod
      → ((k : ℕ)
          → i * 512 ≤ k
          → k < (i + rounds) * 512
          → read_sectors D rounds i start disk buffer k ≡ byte_from disk start k)
        × ((k : ℕ)
            → (k < i * 512) ⊎ ((i + rounds) * 512 ≤ k)
            → read_sectors D rounds i start disk buffer k ≡ buffer k)
  unfolding read_sectors
  read_sectors-byte_from zero i start disk buffer fits =
      (λ k lo hi. absurd (omega arith), λ k out. refl)
  read_sectors-byte_from (suc rounds) i start disk buffer fits =
      let (inside, outside) = read_sectors-byte_from rounds (i + 1) start disk _ (omega arith) in
      (
        λ k lo hi. elim (Bool-cases (ltb k (i * 512 + 512))) [
          | inl here ↦
              let e : add32 start i ≡ start + k / 512 = ground arith in
              let m : k - i * sector_size_bytes ≡ k % 512 = ground arith in
              outside k (inl (ground arith))
              ∙ with_sector-within (i * 512) (add32 start i) k disk buffer lo (ground arith)
              ∙ rw (e, m)
          | inr later ↦ inside k (ground arith) (ground arith)
        ],
        λ k out.
            outside k (ground arith)
            ∙ with_sector-outside (i * 512) (add32 start i) k disk buffer (ground arith),
      )

  write_sectors-sector :
      (rounds i start : ℕ) (disk : D.State) (buffer : ℕ → ℕ)
      → start + i + rounds < u32_mod
      → ((t m : ℕ)
          → i ≤ t
          → t < i + rounds
          → m < 512
          → D.sector (write_sectors D rounds i start buffer disk) (start + t) m
            ≡ buffer (t * 512 + m))
        × ((j m : ℕ)
            → (j < start + i) ⊎ (start + i + rounds ≤ j)
            → D.sector (write_sectors D rounds i start buffer disk) j m ≡ D.sector disk j m)
  unfolding write_sectors
  write_sectors-sector zero i start disk buffer fits =
      (λ t m lo hi lt. absurd (omega arith), λ j m out. refl)
  write_sectors-sector (suc rounds) i start disk buffer fits =
      let sector_i = λ (k : ℕ). buffer (i * sector_size_bytes + k) in
      let disk' = D.write_sectors sector_i (add32 start i) 0 disk in
      let (inside, outside) =
        write_sectors-sector rounds (i + 1) start disk' buffer (omega arith) in
      let e : add32 start i ≡ start + i = omega arith in
      (
        λ t m lo hi lt. elim (Bool-cases (t == i)) [
          | inl now ↦
              let is : t ≡ i = ground arith in
              outside (start + t) m (inl (ground arith))
              ∙ rw (is, e) (D.write_self disk (start + i) m sector_i lt)
          | inr later ↦ inside t m (ground arith) (omega arith) lt
        ],
        λ j m out.
            outside j m (ground arith)
            ∙ D.write_ne disk (add32 start i) j m sector_i (ground arith),
      )

  -- The device holds whole blocks of at least one sector, and the superblock's size is that of the
  -- volume.
  pub record IsVolume (fs : Fs D) : Type 0 where
    pub some_sectors : 0 < fs.sectors_per_block
    pub whole : fs.info.block_size ≡ fs.sectors_per_block * 512

  -- The byte `k` of a block.
  abbrev pub block_byte : Fs D → ℕ → ℕ → ℕ
  block_byte fs block k = byte_from fs.disk (block * fs.sectors_per_block) k

  -- The block ends below the sector 2 ^ 32.
  abbrev pub InRange : Fs D → ℕ → Type 0
  InRange fs block = (block + 1) * fs.sectors_per_block < u32_mod

  start_of :
      (block : ℕ) (fs : Fs D)
      → IsVolume fs
      → InRange fs block
      → (block_to_sector block fs.info.block_size ≡ block * fs.sectors_per_block)
        × (mul32 fs.sectors_per_block 1 ≡ fs.sectors_per_block)
        × (block * fs.sectors_per_block + 0 + fs.sectors_per_block < u32_mod)
  unfolding block_to_sector
  start_of block fs v r =
      let s = fs.sectors_per_block in
      let w : fs.info.block_size / sector_size_bytes ≡ s =
        let whole = v.whole in omega (arith, whole) in
      let all : (block + 1) * s ≡ block * s + s = grind arith in
      (rw w (omega (arith, all, r)), omega (arith, all, r), omega (arith, all, r))

  -- The sectors of two blocks do not meet.
  apart :
      (block other s t : ℕ)
      → block ≢ other
      → t < s
      → (other * s + t < block * s + 0) ⊎ (block * s + 0 + s ≤ other * s + t)
  apart block other s t ne lt = elim (Bool-cases (ltb other block)) [
    | inl below ↦
        let more : (other + 1) * s ≤ block * s = mul-le-mul_right s (ground arith) in
        let all : (other + 1) * s ≡ other * s + s = grind arith in inl (omega (arith, more, all))
    | inr above ↦
        let more : (block + 1) * s ≤ other * s = mul-le-mul_right s (ground arith) in
        let all : (block + 1) * s ≡ block * s + s = grind arith in inr (omega (arith, more, all))
  ]

  pub read_storage-block_byte :
      (buffer : ℕ → ℕ) (block k : ℕ) (fs : Fs D)
      → IsVolume fs
      → InRange fs block
      → k < fs.info.block_size
      → read_storage D buffer block 1 fs k ≡ block_byte fs block k
  unfolding read_storage
  read_storage-block_byte buffer block k fs v r lt =
      let (start, count, fits) = start_of block fs v r in
      let whole = v.whole in
      rw (start, count)
        ((read_sectors-byte_from fs.sectors_per_block 0 (block * fs.sectors_per_block) fs.disk
            buffer fits).0
          k (omega arith) (omega (arith, whole)))

  pub write_storage-block_byte :
      (buffer : ℕ → ℕ) (block k : ℕ) (fs : Fs D)
      → IsVolume fs
      → InRange fs block
      → k < fs.info.block_size
      → block_byte (write_storage D buffer block 1 fs) block k ≡ buffer k
  unfolding write_storage
  write_storage-block_byte buffer block k fs v r lt =
      let (start, count, fits) = start_of block fs v r in
      let whole = v.whole in
      let written =
        write_sectors-sector fs.sectors_per_block 0 (block * fs.sectors_per_block) fs.disk buffer
          fits in
      rw (start, count)
        (written.0 (k / 512) (k % 512) (omega arith) (omega (arith, whole)) (omega arith)
          ∙ ap buffer (omega arith))

  pub write_storage_other :
      (buffer : ℕ → ℕ) (block other k : ℕ) (fs : Fs D)
      → IsVolume fs
      → InRange fs block
      → block ≢ other
      → k < fs.info.block_size
      → block_byte (write_storage D buffer block 1 fs) other k ≡ block_byte fs other k
  unfolding write_storage
  write_storage_other buffer block other k fs v r ne lt =
      let (start, count, fits) = start_of block fs v r in
      let whole = v.whole in
      let written =
        write_sectors-sector fs.sectors_per_block 0 (block * fs.sectors_per_block) fs.disk buffer
          fits in
      rw (start, count)
        (written.1 _ (k % 512)
          (apart block other fs.sectors_per_block (k / 512) ne (omega (arith, whole))))

  pub read_storage_beyond :
      (buffer : ℕ → ℕ) (block k : ℕ) (fs : Fs D)
      → IsVolume fs
      → InRange fs block
      → fs.info.block_size ≤ k
      → read_storage D buffer block 1 fs k ≡ buffer k
  unfolding read_storage
  read_storage_beyond buffer block k fs v r le =
      let (start, count, fits) = start_of block fs v r in
      let whole = v.whole in
      rw (start, count)
        ((read_sectors-byte_from fs.sectors_per_block 0 (block * fs.sectors_per_block) fs.disk
            buffer fits).1
          k (inr (omega (arith, whole, le))))

  -- A block that is written is read back.
  pub read_storage-write_storage :
      (buffer bytes : ℕ → ℕ) (block : ℕ) (fs : Fs D)
      → IsVolume fs
      → InRange fs block
      → ((k : ℕ) → fs.info.block_size ≤ k → bytes k ≡ buffer k)
      → read_storage D buffer block 1 (write_storage D bytes block 1 fs) ≡ bytes
  unfolding write_storage
  read_storage-write_storage buffer bytes block fs v r rest =
      let fs' = write_storage D bytes block 1 fs in
      let v' : IsVolume fs' = record { some_sectors = v.some_sectors; whole = v.whole } in
      fun_ext (λ k. elim (Bool-cases (ltb k fs.info.block_size)) [
        | inl lt ↦
            read_storage-block_byte buffer block k fs' v' r (ground arith)
            ∙ write_storage-block_byte bytes block k fs v r (ground arith)
        | inr ge ↦
            read_storage_beyond buffer block k fs' v' r (ground arith) ∙ sym (rest k (ground arith))
      ])

  -- The other blocks are read as before.
  pub read_storage-write_storage_ne :
      (buffer bytes : ℕ → ℕ) (block other : ℕ) (fs : Fs D)
      → IsVolume fs
      → InRange fs block
      → InRange fs other
      → block ≢ other
      → read_storage D buffer other 1 (write_storage D bytes block 1 fs)
        ≡ read_storage D buffer other 1 fs
  unfolding write_storage
  read_storage-write_storage_ne buffer bytes block other fs v r r' ne =
      let fs' = write_storage D bytes block 1 fs in
      let v' : IsVolume fs' = record { some_sectors = v.some_sectors; whole = v.whole } in
      fun_ext (λ k. elim (Bool-cases (ltb k fs.info.block_size)) [
        | inl lt ↦
            read_storage-block_byte buffer other k fs' v' r' (ground arith)
            ∙ write_storage_other bytes block other k fs v r ne (ground arith)
            ∙ sym (read_storage-block_byte buffer other k fs v r' (ground arith))
        | inr ge ↦
            read_storage_beyond buffer other k fs' v' r' (ground arith)
            ∙ sym (read_storage_beyond buffer other k fs v r' (ground arith))
      ])

  pub IsVolume-write_storage :
      {fs : Fs D} (bytes : ℕ → ℕ) (block n : ℕ)
      → IsVolume fs
      → IsVolume (write_storage D bytes block n fs)
  unfolding write_storage
  IsVolume-write_storage bytes block n v = record { some_sectors = v.some_sectors; whole = v.whole }
