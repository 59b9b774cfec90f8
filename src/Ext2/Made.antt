-- ===== src/Ext2/Made.antt =====
-- kernel/drivers/ext2.cpp: the superblock and the block groups that are made are found again.
use juos.Prelude.{
  ℕ, ◌+◌, ◌%◌, ◌≤◌, ◌<◌, ◌≡◌, ◌≢◌, refl, ap, sym, subst, ◌∙◌, false, none, some, ◌==◌, arith,
  length,
}
use juos.Prelude.Words.{u32_mod, add32}
use juos.Ext2.Storage.{Storage}
use juos.Ext2.Bytes.{SuperBlock, super_block_at, super_block_bytes, descriptor_at, descriptor_bytes}
use juos.Ext2.Volume.{
  Fs, FsDescriptor, overlay, zero_buffer, read_object_from_block, write_object_to_block, zero_block,
}
use juos.Ext2.Block.{IsVolume, InRange, IsVolume-write_storage}
use juos.Ext2.Super.{
  no_create, create_if_not_found, new_super_block, create_super_block, get_super_block,
}
use juos.Ext2.Group.{new_descriptor, is_missing, create_block_group, load_bitmaps, get_block_group}
use juos.Ext2.Layout.{
  super_block_at-super_block_bytes, descriptor_at-descriptor_bytes, length-super_block_bytes,
  length-descriptor_bytes,
}
use juos.Ext2.Objects.{
  read_object-write_object, IsVolume-zero_block, zero_block_self, zero_block_other, zero_block_kept,
  write_object_other, InRange-le,
}
use juos.Prelude.Options.{◌>>=◌}

pub sign_set : (n : ℕ) (info : FsDescriptor) → ((new_super_block n info).ext2_sign == 0) ≡ false
unfolding new_super_block
sign_set n info = refl

is_missing-new_descriptor : (n size : ℕ) → n + 3 < 16 → is_missing (new_descriptor n size) ≡ false
unfolding is_missing new_descriptor
is_missing-new_descriptor n size small = ground arith

module _ (D : Storage) where
  pub big_enough : {fs : Fs D} → IsVolume D fs → 512 ≤ fs.info.block_size
  big_enough v =
      let some_sectors = v.some_sectors in let whole = v.whole in omega (arith, some_sectors, whole)

  pub no_create_found :
      (n : ℕ) (info : FsDescriptor) (fs : Fs D) (sb : SuperBlock)
      → super_block_at (read_object_from_block D 1 fs) ≡ sb
      → (sb.ext2_sign == 0) ≡ false
      → get_super_block D n no_create info fs ≡ some (sb, fs)
  unfolding get_super_block
  no_create_found n info fs sb e sign = rw e (rw sign refl)

  -- The superblock that is written is read at block 1.
  pub super_block_written :
      (n : ℕ) (info : FsDescriptor) (fs : Fs D)
      → IsVolume D fs
      → InRange D fs 1
      → n < u32_mod
      → info.block_size < u32_mod
      → super_block_at (read_object_from_block D 1 (create_super_block D n info fs).1)
        ≡ new_super_block n info
  unfolding create_super_block
  super_block_written n info fs v r n_fits size_fits =
      let fits =
        subst (λ w. w ≤ fs.info.block_size) (sym (length-super_block_bytes _))
          (omega (arith, big_enough v)) in
      ap super_block_at
        (read_object-write_object D (super_block_bytes (new_super_block n info)) 1 fs v r fits)
      ∙ super_block_at-super_block_bytes n info n_fits size_fits

  pub get_super_block_made :
      (n m : ℕ) (info : FsDescriptor) (fs : Fs D)
      → IsVolume D fs
      → InRange D fs 1
      → n < u32_mod
      → info.block_size < u32_mod
      → (get_super_block D n create_if_not_found info fs >>= λ (sb, fs').
          get_super_block D m no_create info fs')
        ≡ some (new_super_block n info, (create_super_block D n info fs).1)
  unfolding create_super_block get_super_block
  get_super_block_made n m info fs v r n_fits size_fits =
      no_create_found m info (create_super_block D n info fs).1 (new_super_block n info)
        (super_block_written n info fs v r n_fits size_fits) (sign_set n info)

  pub IsVolume-create_super_block :
      {fs : Fs D} (n : ℕ) (info : FsDescriptor)
      → IsVolume D fs
      → IsVolume D (create_super_block D n info fs).1
  unfolding create_super_block write_object_to_block
  IsVolume-create_super_block n info v = IsVolume-write_storage D _ 1 1 v

  pub IsVolume-create_block_group :
      {fs : Fs D} (n : ℕ) → IsVolume D fs → IsVolume D (create_block_group D n fs).1
  unfolding create_block_group write_object_to_block
  IsVolume-create_block_group n v =
      IsVolume-zero_block D _
        (IsVolume-zero_block D _ (IsVolume-zero_block D _ (IsVolume-write_storage D _ n 1 v)))

  -- Reading a block that creating the group does not write.
  pub create_block_group_other :
      (n other : ℕ) (fs : Fs D)
      → IsVolume D fs
      → InRange D fs 15
      → InRange D fs n
      → InRange D fs other
      → n ≢ other
      → add32 n 1 % 16 ≢ other
      → add32 n 2 % 16 ≢ other
      → add32 n 3 % 16 ≢ other
      → read_object_from_block D other (create_block_group D n fs).1
        ≡ read_object_from_block D other fs
  unfolding create_block_group new_descriptor write_object_to_block zero_block
  create_block_group_other n other fs v low rn ro ne0 ne1 ne2 ne3 =
      let in_low = λ (b : ℕ). InRange-le D (b % 16) 15 fs (omega arith) low in
      let d = new_descriptor n fs.info.block_size in
      let fs₁ = write_object_to_block D (descriptor_bytes d) n fs in
      let fs₂ = zero_block D d.block_bitmap_block fs₁ in
      let fs₃ = zero_block D d.inode_bitmap_block fs₂ in
      let v₁ : IsVolume D fs₁ = IsVolume-write_storage D _ n 1 v in
      let v₂ : IsVolume D fs₂ = IsVolume-zero_block D d.block_bitmap_block v₁ in
      let v₃ : IsVolume D fs₃ = IsVolume-zero_block D d.inode_bitmap_block v₂ in
      zero_block_other D d.inode_table_start_block other fs₃ v₃ (in_low (add32 n 3)) ro ne3
      ∙ zero_block_other D d.inode_bitmap_block other fs₂ v₂ (in_low (add32 n 2)) ro ne2
      ∙ zero_block_other D d.block_bitmap_block other fs₁ v₁ (in_low (add32 n 1)) ro ne1
      ∙ write_object_other D (descriptor_bytes d) n other fs v rn ro ne0

  -- What is read of the blocks that creating the group writes.
  pub create_block_group_parts :
      (n : ℕ) (fs : Fs D)
      → IsVolume D fs
      → InRange D fs 15
      → InRange D fs n
      → let fs' = (create_block_group D n fs).1 in
        ((add32 n 1 % 16 ≢ n)
          → (add32 n 2 % 16 ≢ n)
          → (add32 n 3 % 16 ≢ n)
          → read_object_from_block D n fs'
            ≡ overlay 0 (descriptor_bytes (new_descriptor n fs.info.block_size)) zero_buffer)
        × (read_object_from_block D (add32 n 1 % 16) fs' ≡ zero_buffer)
        × (read_object_from_block D (add32 n 2 % 16) fs' ≡ zero_buffer)
        × (read_object_from_block D (add32 n 3 % 16) fs' ≡ zero_buffer)
  unfolding create_block_group new_descriptor write_object_to_block zero_block
  create_block_group_parts n fs v low rn =
      let in_low = λ (b : ℕ). InRange-le D (b % 16) 15 fs (omega arith) low in
      let d = new_descriptor n fs.info.block_size in
      let fs₁ = write_object_to_block D (descriptor_bytes d) n fs in
      let fs₂ = zero_block D d.block_bitmap_block fs₁ in
      let fs₃ = zero_block D d.inode_bitmap_block fs₂ in
      let v₁ : IsVolume D fs₁ = IsVolume-write_storage D _ n 1 v in
      let v₂ : IsVolume D fs₂ = IsVolume-zero_block D d.block_bitmap_block v₁ in
      let v₃ : IsVolume D fs₃ = IsVolume-zero_block D d.inode_bitmap_block v₂ in
      let r1 = in_low (add32 n 1) in
      let r2 = in_low (add32 n 2) in
      let r3 = in_low (add32 n 3) in
      let fits : length (descriptor_bytes d) ≤ fs.info.block_size =
        subst (λ w. w ≤ fs.info.block_size) (sym (length-descriptor_bytes d))
          (omega (arith, big_enough v)) in
      (
        λ ne1 ne2 ne3.
            zero_block_other D d.inode_table_start_block n fs₃ v₃ r3 rn ne3
            ∙ zero_block_other D d.inode_bitmap_block n fs₂ v₂ r2 rn ne2
            ∙ zero_block_other D d.block_bitmap_block n fs₁ v₁ r1 rn ne1
            ∙ read_object-write_object D (descriptor_bytes d) n fs v rn fits,
        zero_block_kept D d.inode_table_start_block d.block_bitmap_block fs₃ v₃ r3 r1 (
            zero_block_kept D d.inode_bitmap_block d.block_bitmap_block fs₂ v₂ r2 r1
              (zero_block_self D d.block_bitmap_block fs₁ v₁ r1)),
        zero_block_kept D d.inode_table_start_block d.inode_bitmap_block fs₃ v₃ r3 r2
            (zero_block_self D d.inode_bitmap_block fs₂ v₂ r2),
        zero_block_self D d.inode_table_start_block fs₃ v₃ r3,
      )

  pub group_found :
      (n : ℕ) (fs : Fs D) (size : ℕ)
      → n + 3 < 16
      → read_object_from_block D n fs
        ≡ overlay 0 (descriptor_bytes (new_descriptor n size)) zero_buffer
      → (get_block_group D n create_if_not_found fs
          ≡ some (load_bitmaps D (new_descriptor n size) fs, fs))
        × (get_block_group D n no_create fs ≡ some (load_bitmaps D (new_descriptor n size) fs, fs))
  unfolding get_block_group is_missing
  group_found n fs size small e =
      let d = ap descriptor_at e ∙ descriptor_at-descriptor_bytes n size in
      let kept : (is_missing (new_descriptor n size)) ≡ false =
        is_missing-new_descriptor n size small in
      (rw d (rw kept refl), rw d (rw kept refl))

  -- A group that was created at a block below 13 is found by the next two ways of getting it, with
  -- the descriptor that was written and both bitmaps clear, and the device is not changed.
  pub get_block_group_again :
      (n : ℕ) (fs : Fs D)
      → IsVolume D fs
      → InRange D fs 15
      → n + 3 < 16
      → let fs' = (create_block_group D n fs).1 in
        let d = new_descriptor n fs.info.block_size in
        (get_block_group D n create_if_not_found fs' ≡ some (load_bitmaps D d fs', fs'))
        × (get_block_group D n no_create fs' ≡ some (load_bitmaps D d fs', fs'))
        × ((load_bitmaps D d fs').bitmaps ≡ some (zero_buffer, zero_buffer))
  unfolding load_bitmaps new_descriptor read_object_from_block
  get_block_group_again n fs v low small =
      let rn = InRange-le D n 15 fs (omega arith) low in
      let (own, b, i, t) = create_block_group_parts n fs v low rn in
      let fs' = (create_block_group D n fs).1 in
      let (found, found') =
        group_found n fs' fs.info.block_size small
          (own (omega arith) (omega arith) (omega arith)) in
      (found, found', rw (b, i) refl)

  -- Creating a group at a block that is 15 modulo 16 clears the block of the superblock.
  pub create_block_group_lost :
      (n m : ℕ) (info : FsDescriptor) (fs : Fs D)
      → IsVolume D fs
      → InRange D fs 15
      → InRange D fs n
      → n % 16 ≡ 15
      → get_super_block D m no_create info (create_block_group D n fs).1 ≡ none
  unfolding get_super_block super_block_at
  create_block_group_lost n m info fs v low rn e =
      let (own, b, i, t) = create_block_group_parts n fs v low rn in
      let one : add32 n 2 % 16 ≡ 1 = omega arith in
      rw (subst (λ x. read_object_from_block D x (create_block_group D n fs).1 ≡ zero_buffer) one i)
        refl
