-- ===== src/Tests/Devices.antt =====
-- The theorems on the screen, the keyboard, the line reader and the interrupts at single inputs.
use juos.Prelude.{ℕ, ◌≤◌, ◌≡◌, inl, none, List, [], ◌∷◌, ◌==◌, if◌then◌else◌, arith}
use juos.Tty.{Terminal, putchar}
use juos.Tty.Cursor.{OnScreen, putchar-OnScreen}
use juos.Interrupts.{Handlers, called, unhandled, go_to_interrupt, boot}
use juos.Interrupts.Boot.{boot-go_to_interrupt}
use juos.Kio.{get_string}
use juos.Kio.Line.{edit, Reads, get_string-edit}

abbrev terminal : Terminal
terminal = record { row = 0; column = 0; color = 15; buffer = λ _. 0 }

terminal-OnScreen : OnScreen terminal
terminal-OnScreen = record { row_fits = omega arith; column_fits = omega arith }

putchar-OnScreen_example :
    OnScreen (putchar 65 terminal) × ((i : ℕ) → 2000 ≤ i → (putchar 65 terminal).buffer i ≡ 0)
putchar-OnScreen_example = putchar-OnScreen 65 terminal terminal-OnScreen (inl (omega arith))

-- Handlers by name: 1 for page faults, 2 for the keyboard, 3 for the timer.
abbrev no_handlers : Handlers ℕ
no_handlers _ = none

boot-go_to_interrupt_example :
    go_to_interrupt (boot 1 2 3 no_handlers) 33
    ≡ (if 33 == 32 then called 3 else (if 33 == 33 then called 2 else unhandled 33))
boot-go_to_interrupt_example = boot-go_to_interrupt 1 2 3 no_handlers 33 (omega arith)

-- "H", "J", a backspace, "I" and a newline.
abbrev typed : List ℕ
typed = 72 ∷ 74 ∷ 8 ∷ 73 ∷ 10 ∷ []

get_string-edit_example : Reads 99 (λ _. 0) (get_string 99 (λ _. 0) typed) (edit 99 [] typed)
get_string-edit_example = get_string-edit 99 (λ _. 0) typed (omega arith)

abbrev enter_code : ℕ
enter_code = 28
