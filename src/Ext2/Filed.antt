-- ===== src/Ext2/Filed.antt =====
-- kernel/drivers/ext2.cpp: what `CreateFile` leaves in the cache and on the device.
use juos.Prelude.{ℕ, ◌+◌, ◌≤◌, ◌≡◌, ◌≢◌, refl, ap, sym, subst, ◌∙◌, List, arith, length, replicate}
use juos.Prelude.Words.{add32}
use juos.Ext2.Storage.{Storage}
use juos.Ext2.Bytes.{descriptor_bytes, sizeof_inode}
use juos.Ext2.Volume.{
  Fs, overlay, zero_buffer, write_storage, read_object_from_block, write_object_to_block,
  bytes_to_blocks, inode_idx_containing_block, inode_offset,
}
use juos.Ext2.Block.{
  IsVolume, InRange, read_storage-write_storage, read_storage-write_storage_ne, read_storage_beyond,
  IsVolume-write_storage,
}
use juos.Ext2.Layout.{length-descriptor_bytes}
use juos.Ext2.Made.{big_enough}
use juos.Ext2.Group.{BlockGroupTable}
use juos.Ext2.File.{write_block_group}

-- Nothing of a buffer lies beyond the size.
abbrev pub EndsAt : ℕ → (ℕ → ℕ) → Type 0
EndsAt size buffer = (k : ℕ) → size ≤ k → buffer k ≡ 0

-- The four blocks that `_write_block_group` writes, each apart from the others.
pub record AreApart (block b i t : ℕ) : Type 0 where
  pub block_b : block ≢ b
  pub block_i : block ≢ i
  pub block_t : block ≢ t
  pub b_i : b ≢ i
  pub b_t : b ≢ t
  pub i_t : i ≢ t

overlay-EndsAt :
    (size offset : ℕ) (bytes : List ℕ) (buffer : ℕ → ℕ)
    → offset + length bytes ≤ size
    → EndsAt size buffer
    → EndsAt size (overlay offset bytes buffer)
unfolding overlay
overlay-EndsAt size offset bytes buffer fits ends k le = let rest = ends k le in ground arith

-- The inode put into the block of the table that holds it.
abbrev pub with_inode : ℕ → List ℕ → (ℕ → ℕ) → ℕ → ℕ
with_inode inode_idx inode block =
    overlay (inode_offset inode_idx) inode
      (overlay (inode_offset inode_idx) (replicate sizeof_inode 0) block)

inode_offset-bound : (idx : ℕ) → inode_offset idx + sizeof_inode ≤ 512
unfolding inode_offset
inode_offset-bound idx = omega arith

module _ (D : Storage) where
  same_block :
      (bytes : ℕ → ℕ) (b : ℕ) (fs : Fs D)
      → IsVolume D fs
      → InRange D fs b
      → EndsAt fs.info.block_size bytes
      → read_object_from_block D b (write_storage D bytes b 1 fs) ≡ bytes
  unfolding read_object_from_block
  same_block bytes b fs v r ends = read_storage-write_storage D zero_buffer bytes b fs v r ends

  other_block :
      (bytes : ℕ → ℕ) (b other : ℕ) (fs : Fs D)
      → IsVolume D fs
      → InRange D fs b
      → InRange D fs other
      → b ≢ other
      → read_object_from_block D other (write_storage D bytes b 1 fs)
        ≡ read_object_from_block D other fs
  unfolding read_object_from_block
  other_block bytes b other fs v r r' ne =
      read_storage-write_storage_ne D zero_buffer bytes b other fs v r r' ne

  -- Four blocks that are written one after the other, the last one from what it held.
  four_blocks :
      (b₀ b₁ b₂ b₃ : ℕ) (x₀ x₁ x₂ : ℕ → ℕ) (change : (ℕ → ℕ) → ℕ → ℕ) (fs : Fs D)
      → IsVolume D fs
      → AreApart b₀ b₁ b₂ b₃
      → InRange D fs b₀
      → InRange D fs b₁
      → InRange D fs b₂
      → InRange D fs b₃
      → EndsAt fs.info.block_size x₀
      → EndsAt fs.info.block_size x₁
      → EndsAt fs.info.block_size x₂
      → EndsAt fs.info.block_size (change (read_object_from_block D b₃ fs))
      → let fs₃ = write_storage D x₂ b₂ 1 (write_storage D x₁ b₁ 1 (write_storage D x₀ b₀ 1 fs)) in
        let fs₄ = write_storage D (change (read_object_from_block D b₃ fs₃)) b₃ 1 fs₃ in
        (read_object_from_block D b₀ fs₄ ≡ x₀)
        × (read_object_from_block D b₁ fs₄ ≡ x₁)
        × (read_object_from_block D b₂ fs₄ ≡ x₂)
        × (read_object_from_block D b₃ fs₄ ≡ change (read_object_from_block D b₃ fs))
        × ((other : ℕ)
            → InRange D fs other
            → b₀ ≢ other
            → b₁ ≢ other
            → b₂ ≢ other
            → b₃ ≢ other
            → read_object_from_block D other fs₄ ≡ read_object_from_block D other fs)
  unfolding write_storage
  four_blocks b₀ b₁ b₂ b₃ x₀ x₁ x₂ change fs v apart r₀ r₁ r₂ r₃ e₀ e₁ e₂ e₃ =
      let fs₁ = write_storage D x₀ b₀ 1 fs in
      let fs₂ = write_storage D x₁ b₁ 1 fs₁ in
      let fs₃ = write_storage D x₂ b₂ 1 fs₂ in
      let v₁ : IsVolume D fs₁ = IsVolume-write_storage D x₀ b₀ 1 v in
      let v₂ : IsVolume D fs₂ = IsVolume-write_storage D x₁ b₁ 1 v₁ in
      let v₃ : IsVolume D fs₃ = IsVolume-write_storage D x₂ b₂ 1 v₂ in
      let x₃ = change (read_object_from_block D b₃ fs₃) in
      let through : (other : ℕ)
          → InRange D fs other
          → b₀ ≢ other
          → b₁ ≢ other
          → b₂ ≢ other
          → read_object_from_block D other fs₃ ≡ read_object_from_block D other fs =
        λ other r n₀ n₁ n₂.
          other_block x₂ b₂ other fs₂ v₂ r₂ r n₂
          ∙ other_block x₁ b₁ other fs₁ v₁ r₁ r n₁
          ∙ other_block x₀ b₀ other fs v r₀ r n₀ in
      let held : read_object_from_block D b₃ fs₃ ≡ read_object_from_block D b₃ fs =
        through b₃ r₃ apart.block_t apart.b_t apart.i_t in
      (
        other_block x₃ b₃ b₀ fs₃ v₃ r₃ r₀ (λ e. apart.block_t (sym e))
            ∙ other_block x₂ b₂ b₀ fs₂ v₂ r₂ r₀ (λ e. apart.block_i (sym e))
            ∙ other_block x₁ b₁ b₀ fs₁ v₁ r₁ r₀ (λ e. apart.block_b (sym e))
            ∙ same_block x₀ b₀ fs v r₀ e₀,
        other_block x₃ b₃ b₁ fs₃ v₃ r₃ r₁ (λ e. apart.b_t (sym e))
            ∙ other_block x₂ b₂ b₁ fs₂ v₂ r₂ r₁ (λ e. apart.b_i (sym e))
            ∙ same_block x₁ b₁ fs₁ v₁ r₁ e₁,
        other_block x₃ b₃ b₂ fs₃ v₃ r₃ r₂ (λ e. apart.i_t (sym e)) ∙ same_block x₂ b₂ fs₂ v₂ r₂ e₂,
        same_block x₃ b₃ fs₃ v₃ r₃ (subst (λ x. EndsAt fs.info.block_size (change x)) (sym held) e₃)
            ∙ ap change held,
        λ other r n₀ n₁ n₂ n₃. other_block x₃ b₃ other fs₃ v₃ r₃ r n₃ ∙ through other r n₀ n₁ n₂,
      )

  abbrev pub inode_block : BlockGroupTable → ℕ → Fs D → ℕ
  inode_block bg inode_idx fs =
      add32 bg.group_descriptor.inode_table_start_block
        (inode_idx_containing_block inode_idx fs.global_super_block)

  with_inode-EndsAt :
      (idx size : ℕ) (inode : List ℕ) (block : ℕ → ℕ)
      → 512 ≤ size
      → length inode ≡ sizeof_inode
      → EndsAt size block
      → EndsAt size (with_inode idx inode block)
  with_inode-EndsAt idx size inode block le len ends =
      let bound = inode_offset-bound idx in
      overlay-EndsAt size (inode_offset idx) inode _ (omega (arith, bound, len, le)) (
        overlay-EndsAt size (inode_offset idx) (replicate sizeof_inode 0) block
          (omega (arith, bound, le)) ends)

  pub read_object-EndsAt :
      (block : ℕ) (fs : Fs D)
      → IsVolume D fs
      → InRange D fs block
      → EndsAt fs.info.block_size (read_object_from_block D block fs)
  unfolding read_object_from_block
  read_object-EndsAt block fs v r k le = read_storage_beyond D zero_buffer block k fs v r le

  -- The blocks after `_write_block_group`.
  pub write_block_group_lem :
      (bg : BlockGroupTable) (block_bitmap inode_bitmap : ℕ → ℕ) (block_idx : ℕ) (inode : List ℕ)
      (inode_idx : ℕ) (fs : Fs D)
      → IsVolume D fs
      → bytes_to_blocks fs.info.block_size fs.global_super_block ≡ 1
      → AreApart block_idx bg.group_descriptor.block_bitmap_block
          bg.group_descriptor.inode_bitmap_block
          (inode_block bg inode_idx fs)
      → InRange D fs block_idx
      → InRange D fs bg.group_descriptor.block_bitmap_block
      → InRange D fs bg.group_descriptor.inode_bitmap_block
      → InRange D fs (inode_block bg inode_idx fs)
      → length inode ≡ sizeof_inode
      → EndsAt fs.info.block_size block_bitmap
      → EndsAt fs.info.block_size inode_bitmap
      → let d = bg.group_descriptor in
        let t = inode_block bg inode_idx fs in
        let fs' = write_block_group D bg block_bitmap inode_bitmap block_idx inode inode_idx fs in
        (read_object_from_block D block_idx fs' ≡ overlay 0 (descriptor_bytes d) zero_buffer)
        × (read_object_from_block D d.block_bitmap_block fs' ≡ block_bitmap)
        × (read_object_from_block D d.inode_bitmap_block fs' ≡ inode_bitmap)
        × (read_object_from_block D t fs'
            ≡ with_inode inode_idx inode (read_object_from_block D t fs))
        × ((other : ℕ)
            → InRange D fs other
            → block_idx ≢ other
            → d.block_bitmap_block ≢ other
            → d.inode_bitmap_block ≢ other
            → t ≢ other
            → read_object_from_block D other fs' ≡ read_object_from_block D other fs)
  unfolding write_block_group write_object_to_block read_object_from_block
  write_block_group_lem bg bb ib n inode idx fs v one apart rn rb ri rt size eb ei =
      let big = big_enough D v in
      rw one (
        four_blocks n bg.group_descriptor.block_bitmap_block bg.group_descriptor.inode_bitmap_block
          (inode_block bg idx fs) (overlay 0 (descriptor_bytes bg.group_descriptor) zero_buffer) bb
          ib (with_inode idx inode) fs v apart rn rb ri rt
          (overlay-EndsAt fs.info.block_size 0 (descriptor_bytes bg.group_descriptor) zero_buffer
            (subst (λ w. 0 + w ≤ fs.info.block_size)
              (sym (length-descriptor_bytes bg.group_descriptor)) (omega (arith, big)))
            (λ k le. refl))
          eb ei
          (with_inode-EndsAt idx fs.info.block_size inode _ big size
            (read_object-EndsAt (inode_block bg idx fs) fs v rt)))
