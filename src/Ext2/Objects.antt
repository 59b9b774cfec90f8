-- ===== src/Ext2/Objects.antt =====
-- kernel/drivers/ext2.cpp: an object that is written to a block, and a block that is cleared.
use juos.Prelude.{
  ℕ, ◌+◌, ◌*◌, ◌≤◌, ◌≡◌, ◌≢◌, inl, inr, refl, subst, ◌∙◌, List, ◌==◌, arith, Bool-cases, length,
}
use juos.Ext2.Storage.{Storage}
use juos.Ext2.Volume.{
  Fs, overlay, zero_buffer, read_object_from_block, write_object_to_block, zero_block,
}
use juos.Ext2.Block.{
  IsVolume, InRange, read_storage-write_storage, read_storage-write_storage_ne,
  IsVolume-write_storage,
}
use native.Mathlib.Nat.{mul-le-mul_right}
use juos.Ext2.Layout.{overlay-beyond}

module _ (D : Storage) where
  -- An object that is written to a block is read back from it.
  pub read_object-write_object :
      (obj : List ℕ) (block : ℕ) (fs : Fs D)
      → IsVolume D fs
      → InRange D fs block
      → length obj ≤ fs.info.block_size
      → read_object_from_block D block (write_object_to_block D obj block fs)
        ≡ overlay 0 obj zero_buffer
  unfolding read_object_from_block write_object_to_block
  read_object-write_object obj block fs v r fits =
      read_storage-write_storage D zero_buffer (overlay 0 obj zero_buffer) block fs v r
        (λ k le. overlay-beyond obj fs.info.block_size k fits le)

  pub IsVolume-zero_block : {fs : Fs D} (b : ℕ) → IsVolume D fs → IsVolume D (zero_block D b fs)
  unfolding zero_block
  IsVolume-zero_block b v = IsVolume-write_storage D zero_buffer b 1 v

  pub zero_block_self :
      (b : ℕ) (fs : Fs D)
      → IsVolume D fs
      → InRange D fs b
      → read_object_from_block D b (zero_block D b fs) ≡ zero_buffer
  unfolding read_object_from_block zero_block
  zero_block_self b fs v r =
      read_storage-write_storage D zero_buffer zero_buffer b fs v r (λ k le. refl)

  pub zero_block_other :
      (b other : ℕ) (fs : Fs D)
      → IsVolume D fs
      → InRange D fs b
      → InRange D fs other
      → b ≢ other
      → read_object_from_block D other (zero_block D b fs) ≡ read_object_from_block D other fs
  unfolding read_object_from_block zero_block
  zero_block_other b other fs v r r' ne =
      read_storage-write_storage_ne D zero_buffer zero_buffer b other fs v r r' ne

  -- A cleared block stays cleared.
  pub zero_block_kept :
      (b other : ℕ) (fs : Fs D)
      → IsVolume D fs
      → InRange D fs b
      → InRange D fs other
      → read_object_from_block D other fs ≡ zero_buffer
      → read_object_from_block D other (zero_block D b fs) ≡ zero_buffer
  zero_block_kept b other fs v r r' cleared = elim (Bool-cases (b == other)) [
    | inl same ↦
        let e : b ≡ other = ground arith in
        subst (λ x. read_object_from_block D x (zero_block D b fs) ≡ zero_buffer) e
          (zero_block_self b fs v r)
    | inr apart ↦ zero_block_other b other fs v r r' (ground arith) ∙ cleared
  ]

  pub write_object_other :
      (obj : List ℕ) (b other : ℕ) (fs : Fs D)
      → IsVolume D fs
      → InRange D fs b
      → InRange D fs other
      → b ≢ other
      → read_object_from_block D other (write_object_to_block D obj b fs)
        ≡ read_object_from_block D other fs
  unfolding read_object_from_block write_object_to_block
  write_object_other obj b other fs v r r' ne =
      read_storage-write_storage_ne D zero_buffer (overlay 0 obj zero_buffer) b other fs v r r' ne

  pub InRange-le : (b c : ℕ) (fs : Fs D) → b ≤ c → InRange D fs c → InRange D fs b
  InRange-le b c fs le r =
      let more : (b + 1) * fs.sectors_per_block ≤ (c + 1) * fs.sectors_per_block =
        mul-le-mul_right fs.sectors_per_block (omega arith) in
      omega (arith, more, r)
