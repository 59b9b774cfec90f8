-- ===== src/Pic.antt =====
-- kernel/arch/i386/interrupts/pic.cpp: the gates of the hardware interrupts. The rest of the file
-- writes constants to the ports of the controller. The addresses of `irq_0` to `irq_15`, which are
-- assembly, are a parameter.
use juos.Prelude.{
  ℕ, zero, suc, ◌+◌, ◌^◌, ◌≤◌, ◌<◌, ◌≡◌, ◌⊎◌, refl, ◌∙◌, ◌==◌, arith, Bool-cases, inl, inr, sym,
  subst,
}
use juos.Idt.{EntryStruct, edit_entry, set_all_interrupts}
use juos.Idt.Gates.{LeadsTo, edit_entry-LeadsTo, edit_entry_ne, set_all_interrupts-LeadsTo}

-- `Interrupts::AddToIdt`.
unfoldable pub add_to_idt : ℕ → ℕ → ℕ → ℕ → (ℕ → EntryStruct) → ℕ → EntryStruct
unfolding edit_entry
add_to_idt entry base sel flags t = edit_entry entry base sel flags t

-- The first `n` calls of `_AddToInterruptTable`, in their order.
unfoldable pub add_first : ℕ → (ℕ → ℕ) → (ℕ → EntryStruct) → ℕ → EntryStruct
unfolding add_to_idt
add_first zero irq t = t
add_first (suc n) irq t = add_to_idt (32 + n) (irq n) 0x08 0x8E (add_first n irq t)

unfoldable pub add_to_interrupt_table : (ℕ → ℕ) → (ℕ → EntryStruct) → ℕ → EntryStruct
unfolding add_first
add_to_interrupt_table irq t = add_first 16 irq t

add_first_other :
    (n i : ℕ) (irq : ℕ → ℕ) (t : ℕ → EntryStruct)
    → (i < 32) ⊎ (32 + n ≤ i)
    → add_first n irq t i ≡ t i
unfolding add_first add_to_idt
add_first_other zero i irq t out = refl
add_first_other (suc n) i irq t out =
    edit_entry_ne (32 + n) i (irq n) (add_first n irq t) (ground arith)
    ∙ add_first_other n i irq t (ground arith)

add_first-LeadsTo :
    (n k : ℕ) (irq : ℕ → ℕ) (t : ℕ → EntryStruct)
    → k < n
    → irq k < 2 ^ 32
    → LeadsTo (irq k) (add_first n irq t (32 + k))
unfolding add_first add_to_idt
add_first-LeadsTo zero k irq t lt fits = absurd (omega (arith, lt))
add_first-LeadsTo (suc n) k irq t lt fits = elim (Bool-cases (k == n)) [
  | inl e ↦
      let is : n ≡ k = ground arith in
      subst
        (λ j. LeadsTo (irq k) (edit_entry (32 + j) (irq j) 0x08 0x8E (add_first n irq t) (32 + k)))
        (sym is) (edit_entry-LeadsTo (32 + k) (irq k) (add_first n irq t) fits)
  | inr ne ↦
      rw (edit_entry_ne (32 + n) (32 + k) (irq n) (add_first n irq t) (ground arith))
        (add_first-LeadsTo n k irq t (ground arith) fits)
]

-- `Idt::_Init`: `Pic::Initialize`, which adds the gates of the hardware, and then those of the
-- processor. The load of the register is assembly.
unfoldable pub idt_init : (ℕ → ℕ) → (ℕ → ℕ) → (ℕ → EntryStruct) → ℕ → EntryStruct
unfolding add_to_interrupt_table
idt_init isr irq t = set_all_interrupts isr (add_to_interrupt_table irq t)

-- After `Idt::_Init`, which runs `_AddToInterruptTable` and then `_set_all_interrupts`: the gates 0 to
-- 31 lead to the handlers of the processor's interrupts, the gates 32 to 47 to those of the
-- hardware's, each at an address of 32 bits, in the kernel's code segment and with the flags of an
-- interrupt gate; the gates from 48 on are as before.
pub idt_init-LeadsTo :
    (isr irq : ℕ → ℕ) (t : ℕ → EntryStruct) (i k j : ℕ)
    → isr i < 2 ^ 32
    → irq k < 2 ^ 32
    → i < 32
    → k < 16
    → 48 ≤ j
    → let t' = idt_init isr irq t in
      LeadsTo (isr i) (t' i) × LeadsTo (irq k) (t' (32 + k)) × (t' j ≡ t j)
unfolding idt_init add_to_interrupt_table
idt_init-LeadsTo isr irq t i k j isr_fits irq_fits i_lt k_lt le =
    let before = add_to_interrupt_table irq t in
    let (gate, rest) =
      set_all_interrupts-LeadsTo isr before i j isr_fits i_lt (omega (arith, le)) in
    let (_, hardware) =
      set_all_interrupts-LeadsTo isr before i (32 + k) isr_fits i_lt (omega arith) in
    (
      gate,
      rw hardware (add_first-LeadsTo 16 k irq t k_lt irq_fits),
      rest ∙ add_first_other 16 j irq t (inr (omega (arith, le))),
    )
