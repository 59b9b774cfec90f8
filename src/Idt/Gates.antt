-- ===== src/Idt/Gates.antt =====
-- Where the gates of kernel/arch/i386/interrupts/idt.cpp lead.
use juos.Prelude.{
  ℕ, zero, suc, ◌+◌, ◌*◌, ◌^◌, ◌≤◌, ◌<◌, ◌≡◌, refl, ◌∙◌, false, ◌==◌, arith, Bool-cases, inl, inr,
}
use juos.Idt.{EntryStruct, edit_entry, set_first, set_all_interrupts}

-- The address that the processor jumps to.
abbrev pub target : EntryStruct → ℕ
target e = e.base_low + e.base_high * 2 ^ 16

-- A gate in ring 0, in the kernel's code segment.
abbrev pub LeadsTo : ℕ → EntryStruct → Type 0
LeadsTo a e = (target e ≡ a) × (e.sel ≡ 0x08) × (e.flags ≡ 0x8E)

pub edit_entry-LeadsTo :
    (i a : ℕ) (t : ℕ → EntryStruct) → a < 2 ^ 32 → LeadsTo a (edit_entry i a 0x08 0x8E t i)
unfolding edit_entry
edit_entry-LeadsTo i a t lt = (ground arith, ground arith, ground arith)

pub edit_entry_ne :
    (i j a : ℕ) (t : ℕ → EntryStruct) → (j == i) ≡ false → edit_entry i a 0x08 0x8E t j ≡ t j
unfolding edit_entry
edit_entry_ne i j a t ne = ground arith

set_first_behind : (n i : ℕ) (isr : ℕ → ℕ) (t : ℕ → EntryStruct) → n ≤ i → set_first n isr t i ≡ t i
unfolding set_first
set_first_behind zero i isr t le = refl
set_first_behind (suc n) i isr t le =
    edit_entry_ne n i (isr n) (set_first n isr t) (ground arith)
    ∙ set_first_behind n i isr t (omega arith)

set_first-LeadsTo :
    (n i : ℕ) (isr : ℕ → ℕ) (t : ℕ → EntryStruct)
    → i < n
    → isr i < 2 ^ 32
    → LeadsTo (isr i) (set_first n isr t i)
unfolding set_first
set_first-LeadsTo zero i isr t lt fits = absurd (omega arith)
set_first-LeadsTo (suc n) i isr t lt fits = elim (Bool-cases (i == n)) [
  | inl e ↦
      let is : i ≡ n = ground arith in
      rw is (edit_entry-LeadsTo n (isr n) (set_first n isr t) (rw is at fits))
  | inr ne ↦
      rw (edit_entry_ne n i (isr n) (set_first n isr t) ne)
        (set_first-LeadsTo n i isr t (ground arith) fits)
]

-- After `_set_all_interrupts` each of the first 32 gates leads to its own handler, at any address of
-- 32 bits, in the kernel's code segment and with the flags of an interrupt gate; the other gates are
-- as before.
pub set_all_interrupts-LeadsTo :
    (isr : ℕ → ℕ) (t : ℕ → EntryStruct) (i j : ℕ)
    → isr i < 2 ^ 32
    → i < 32
    → 32 ≤ j
    → LeadsTo (isr i) (set_all_interrupts isr t i) × (set_all_interrupts isr t j ≡ t j)
unfolding set_all_interrupts
set_all_interrupts-LeadsTo isr t i j fits lt le =
    (set_first-LeadsTo 32 i isr t lt fits, set_first_behind 32 j isr t le)
