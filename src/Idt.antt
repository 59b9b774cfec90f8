-- ===== src/Idt.antt =====
-- kernel/arch/i386/interrupts/idt.cpp: the gates of the interrupt descriptor table. The addresses of
-- the handlers `isr_0` to `isr_31`, which are assembly, are a parameter.
pub mod Gates
use juos.Prelude.{ℕ, zero, suc, ◌+◌, ◌*◌, ◌/◌, ◌%◌, ◌^◌}
use juos.Prelude.Maps.{update}

pub record EntryStruct : Type 0 where
  pub base_low : ℕ
  pub sel : ℕ
  pub flags : ℕ
  pub base_high : ℕ

-- `EditEntry`; the arguments are words of 32, 16 and 8 bits.
unfoldable pub edit_entry : ℕ → ℕ → ℕ → ℕ → (ℕ → EntryStruct) → ℕ → EntryStruct
edit_entry entry base sel flags t = update t entry (record {
  base_low = base % 2 ^ 16;
  sel = sel % 2 ^ 16;
  flags = flags % 2 ^ 8;
  base_high = base / 2 ^ 16 % 2 ^ 16;
})

-- The first `n` calls of `_set_all_interrupts`, in their order.
unfoldable pub set_first : ℕ → (ℕ → ℕ) → (ℕ → EntryStruct) → ℕ → EntryStruct
unfolding edit_entry
set_first zero isr t = t
set_first (suc n) isr t = edit_entry n (isr n) 0x08 0x8E (set_first n isr t)

unfoldable pub set_all_interrupts : (ℕ → ℕ) → (ℕ → EntryStruct) → ℕ → EntryStruct
unfolding set_first
set_all_interrupts isr t = set_first 32 isr t
