-- ===== src/Gdt.antt =====
-- kernel/arch/i386/gdt/gdt.cpp and kernel/include/arch/i386/gdt.h: the segment table. Loading it into
-- the processor is assembly.
pub mod Segments
use juos.Prelude.{ℕ, ◌+◌, ◌*◌, ◌/◌, ◌%◌, ◌^◌}
use juos.Prelude.Maps.{update}

pub record SegmentEntry : Type 0 where
  pub limit_low : ℕ
  pub base_low : ℕ
  pub base_middle : ℕ
  pub access : ℕ
  pub granularity : ℕ
  pub base_high : ℕ

-- Gdt::Segment_Access_Type.
pub data SegmentAccessType : Type 0 where
  kernel_code kernel_data user_code user_data : SegmentAccessType

abbrev pub access_value : SegmentAccessType → ℕ
access_value kernel_code = 0x9a
access_value kernel_data = 0x92
access_value user_code = 0xfa
access_value user_data = 0xf2

-- The four bits of the limit and the four of `gran` do not meet, so `|=` is a sum.
unfoldable pub edit_segment : ℕ → ℕ → ℕ → ℕ → ℕ → (ℕ → SegmentEntry) → ℕ → SegmentEntry
edit_segment entry base limit access gran t = update t entry (record {
  limit_low = limit % 2 ^ 16;
  base_low = base % 2 ^ 16;
  base_middle = base / 2 ^ 16 % 2 ^ 8;
  access = access % 2 ^ 8;
  granularity = limit / 2 ^ 16 % 2 ^ 4 + gran / 2 ^ 4 % 2 ^ 4 * 2 ^ 4;
  base_high = base / 2 ^ 24 % 2 ^ 8;
})

abbrev pub flat_segment : ℕ → SegmentAccessType → (ℕ → SegmentEntry) → ℕ → SegmentEntry
flat_segment entry access t = edit_segment entry 0 0xffff_ffff (access_value access) 0xcf t

unfoldable pub init_segments : (ℕ → SegmentEntry) → ℕ → SegmentEntry
unfolding edit_segment
init_segments t = flat_segment 4 user_data (
    flat_segment 3 user_code
      (flat_segment 2 kernel_data (flat_segment 1 kernel_code (edit_segment 0 0 0 0 0 t))))
