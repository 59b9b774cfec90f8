-- ===== src/Interrupts/Boot.antt =====
-- What the handler table of kernel/arch/i386/interrupts/interrupts.cpp holds after the boot of
-- kernel/kernel/kernel.cpp, and what an interrupt then does.
use juos.Prelude.{
  ℕ, ◌%◌, ◌^◌, ◌<◌, ◌≡◌, refl, ◌∙◌, ◌≢◌, ◌==◌, if◌then◌else◌, none, some, arith, Bool-cases, inl,
  inr,
}
use juos.Interrupts.{
  Handlers, called, logged_described, unhandled, go_to_interrupt, set_handler, boot,
}

module _ {ℓ} {H : Type ℓ} (page_fault_handler keyboard_handler tick_handler : H) where
  boot-slots :
      (t : Handlers H) (n : ℕ)
      → n < 256
      → n ≢ 32
      → n ≢ 33
      → boot page_fault_handler keyboard_handler tick_handler t n ≡ none
  unfolding boot
  boot-slots t n lt a b = ground arith

  unanswered : (t : Handlers H) (n : ℕ) → n < 256 → t n ≡ none → go_to_interrupt t n ≡ unhandled n
  unfolding go_to_interrupt
  unanswered t n lt e =
      let short : n % 2 ^ 16 ≡ n = ground arith in rw (short, go_to_interrupt) (rw e (rw short))

  -- After the boot the timer and the keyboard interrupt call their handlers, and every other
  -- interrupt of the table only writes a line to the log, whatever the table held before.
  pub boot-go_to_interrupt :
      (t : Handlers H) (n : ℕ)
      → n < 256
      → go_to_interrupt (boot page_fault_handler keyboard_handler tick_handler t) n ≡ (
          if n == 32
          then called tick_handler
          else (if n == 33 then called keyboard_handler else unhandled n))
  unfolding go_to_interrupt boot
  boot-go_to_interrupt t n lt = elim (Bool-cases (n == 32)) [
    | inl e ↦ let is : n ≡ 32 = ground arith in rw is refl
    | inr f ↦ elim (Bool-cases (n == 33)) [
      | inl e ↦ let is : n ≡ 33 = ground arith in rw is refl
      | inr g ↦
          unanswered (boot page_fault_handler keyboard_handler tick_handler t) n lt
            (boot-slots t n lt (ground arith) (ground arith))
          ∙ rw (f, g)
    ]
  ]

  -- A page fault after the boot is only logged: `Interrupts::Initialize` runs behind the paging
  -- start and clears the handler that this had set.
  pub boot_page_fault :
      (t : Handlers H)
      → (set_handler 14 page_fault_handler t 14 ≡ some page_fault_handler)
        × (go_to_interrupt (boot page_fault_handler keyboard_handler tick_handler t) 14
            ≡ logged_described 14)
  unfolding set_handler go_to_interrupt boot unhandled
  boot_page_fault t = (refl, refl)
