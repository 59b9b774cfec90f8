-- ===== src/Interrupts.antt =====
-- kernel/arch/i386/interrupts/interrupts.cpp: the table of interrupt handlers and the dispatch, and
-- the calls that kernel_main (kernel/kernel/kernel.cpp) makes of it, by way of
-- kernel/kernel/paging.cpp, kernel/kernel/keyboard.cpp and kernel/kernel/timer.cpp.
pub mod Boot
use juos.Prelude.{
  ℕ, ◌+◌, ◌*◌, ◌%◌, ◌^◌, List, [], ◌∷◌, ◌==◌, ltb, leb, ◌&&◌, Bool, if◌then◌else◌, Option, none,
  some,
}
use juos.Prelude.Maps.{update}

abbrev pub i386_interrupts : ℕ
i386_interrupts = 256

-- The number of rows of `interrupt_descriptions`; the row `n` describes the interrupt `n`.
abbrev pub described : ℕ
described = 17

-- `interrupt_handlers`: what stands in a slot, `none` for `nullptr`.
abbrev pub Handlers {ℓ} : Type ℓ → Type ℓ
Handlers H = ℕ → Option H

-- What a dispatch ends in: a call of the handler, or a line in the log.
pub data Response {ℓ} (H : Type ℓ) : Type ℓ where
  called : H → Response H
  logged_described : ℕ → Response H
  logged_unknown : ℕ → Response H

module _ {ℓ} {H : Type ℓ} where
  unfoldable pub set_handler : ℕ → H → Handlers H → Handlers H
  set_handler interrupt_num handler t = update t interrupt_num (some handler)

  -- `Interrupts::Initialize`.
  unfoldable pub initialize : Handlers H → Handlers H
  initialize t i = if ltb i i386_interrupts then none else t i

  unfoldable pub unhandled : ℕ → Response H
  unhandled num = if ltb num described then logged_described num else logged_unknown num

  -- `_go_to_interrupt`: the number is cut to 16 bits.
  unfoldable pub go_to_interrupt : Handlers H → ℕ → Response H
  unfolding unhandled
  go_to_interrupt t int_no = elim (t (int_no % 2 ^ 16)) [
    | none ↦ unhandled (int_no % 2 ^ 16)
    | some h ↦ called h
  ]

  -- The calls of one boot, in the order of kernel_main: `MemoryManager::Initialize` starts paging,
  -- which sets the page fault handler; then come `Interrupts::Initialize`, the keyboard and the
  -- timer.
  unfoldable pub boot : H → H → H → Handlers H → Handlers H
  unfolding set_handler initialize
  boot page_fault_handler keyboard_handler tick_handler t =
      let paging = set_handler 14 page_fault_handler t in
      let cleared = initialize paging in
      let keyboard = set_handler 33 keyboard_handler cleared in set_handler 32 tick_handler keyboard
