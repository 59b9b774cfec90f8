-- ===== src/Gdt/Segments.antt =====
-- What the entries of kernel/arch/i386/gdt/gdt.cpp describe.
use juos.Prelude.{ℕ, ◌+◌, ◌*◌, ◌/◌, ◌%◌, ◌^◌, ◌<◌, ◌≡◌, ◌≢◌, refl, arith}
use juos.Gdt.{
  SegmentEntry, SegmentAccessType, kernel_code, kernel_data, user_code, user_data, access_value,
  edit_segment, init_segments,
}

-- The base that the processor puts together from an entry.
abbrev pub base_of : SegmentEntry → ℕ
base_of e = e.base_low + e.base_middle * 2 ^ 16 + e.base_high * 2 ^ 24

-- The 20 bits of the limit.
abbrev pub limit_of : SegmentEntry → ℕ
limit_of e = e.limit_low + e.granularity % 2 ^ 4 * 2 ^ 16

-- The last byte offset of a segment: the limit counts pages where the flag of granularity is set.
abbrev pub last_offset : SegmentEntry → ℕ
last_offset e = limit_of e * 4096 + 4095

-- A segment of all the memory, with the access byte, in pages and with 32-bit operands.
abbrev pub IsFlat : SegmentAccessType → SegmentEntry → Type 0
IsFlat access e =
    (base_of e ≡ 0)
    × (last_offset e ≡ 0xffff_ffff)
    × (e.access ≡ access_value access)
    × (e.granularity / 2 ^ 4 ≡ 0xc)

-- For a base and a limit of 32 bits, the entry that is edited is read as that base, the low 20 bits of
-- the limit, the access byte and the high four bits of `gran`; the other entries are as before.
pub edit_segment_lem :
    (entry base limit access gran other : ℕ) (t : ℕ → SegmentEntry)
    → base < 2 ^ 32
    → access < 2 ^ 8
    → gran < 2 ^ 8
    → entry ≢ other
    → let t' = edit_segment entry base limit access gran t in
      (base_of (t' entry) ≡ base)
      × (limit_of (t' entry) ≡ limit % 2 ^ 20)
      × ((t' entry).access ≡ access)
      × ((t' entry).granularity / 2 ^ 4 ≡ gran / 2 ^ 4)
      × (t' other ≡ t other)
unfolding edit_segment
edit_segment_lem entry base limit access gran other t bf af gf ne =
    (ground arith, ground arith, ground arith, ground arith, ground arith)

-- After `_Init` the entries 1 to 4 are the flat segments of the kernel's code and data and of the
-- user's, whatever the table held; entry 0 is the null entry.
pub init_segments-IsFlat :
    (t : ℕ → SegmentEntry)
    → IsFlat kernel_code (init_segments t 1)
      × IsFlat kernel_data (init_segments t 2)
      × IsFlat user_code (init_segments t 3)
      × IsFlat user_data (init_segments t 4)
      × (base_of (init_segments t 0) ≡ 0)
      × (limit_of (init_segments t 0) ≡ 0)
unfolding init_segments edit_segment
init_segments-IsFlat t = (
  (refl, refl, refl, refl),
  (refl, refl, refl, refl),
  (refl, refl, refl, refl),
  (refl, refl, refl, refl),
  refl,
  refl,
)
