-- ===== src/Printf.antt =====
-- libc/stdio/printf.cpp: here the number printer `_convert_to_base`. The static buffer is a function of
-- the index; the result is the buffer and the index of `end`. The loop divides the value by the base
-- until it is 0, and takes fuel.
pub mod Digits
pub mod Format
pub mod Shown
pub mod Pieces
use juos.Prelude.{
  ℕ, zero, suc, ◌+◌, ◌-◌, ◌*◌, ◌/◌, ◌%◌, Bool, Option, none, some, ◌==◌, ltb, if◌then◌else◌,
}
use juos.Prelude.Maps.{update}

-- MaxStrSize
abbrev pub max_str_size : ℕ
max_str_size = 64

-- `representation[d]`: '0' to '9' and then 'a' to 'f'.
abbrev pub representation : ℕ → ℕ
representation d = if ltb d 10 then 48 + d else 87 + d

-- The loop, from the index `end` on; `none` is out of fuel or a write before the buffer.
unfoldable pub convert_from : ℕ → ℕ → ℕ → (ℕ → ℕ) → ℕ → Option ((ℕ → ℕ) × ℕ)
convert_from zero base value buf end = none
convert_from (suc fuel) base value buf zero = none
convert_from (suc fuel) base value buf (suc end) =
    let written = update buf end (representation (value % base)) in
    let rest = convert_from fuel base (value / base) written end in
    if value / base == 0 then some (written, end) else rest

-- The buffer is cleared first, so the digits end in a mark.
unfoldable pub convert_to_base : ℕ → ℕ → ℕ → Option ((ℕ → ℕ) × ℕ)
unfolding convert_from
convert_to_base fuel value base = convert_from fuel base value (λ _. 0) (max_str_size - 1)
