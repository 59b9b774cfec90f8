-- ===== src/Printf/Shown.antt =====
-- libc/stdio/printf.cpp: `print_n` prints the digits of the number.
use juos.Prelude.{
  ℕ, zero, suc, ◌+◌, ◌-◌, ◌*◌, ◌/◌, ◌%◌, ◌^◌, ◌≤◌, ◌<◌, ◌≡◌, refl, ap, sym, ◌∙◌, Option, none, some,
  List, [], ◌∷◌, ◌==◌, ltb, arith, Bool-cases, pos-ne_zero, subst, inl, inr, true, false,
}
use juos.Prelude.Maps.{update, update_self, update_ne}
use juos.Cstring.{strlen, strlen_from}
use juos.Printf.{representation, convert_from, convert_to_base}
use juos.Printf.Digits.{digit, read, convert_to_base-read}
use juos.Printf.Format.{cells, print_s, print_n}

-- The number that a text of digits stands for, behind what was read.
abbrev pub read_text : ℕ → List ℕ → ℕ → ℕ
read_text base [] seen = seen
read_text base (c ∷ cs) seen = read_text base cs (seen * base + digit c)

read_text-cells :
    (base i n seen : ℕ) (buf : ℕ → ℕ) → read_text base (cells buf i n) seen ≡ read base buf i n seen
unfolding read
read_text-cells base i zero seen buf = refl
read_text-cells base i (suc n) seen buf =
    read_text-cells base (i + 1) n (seen * base + digit (buf i)) buf

strlen_from-cells :
    (fuel n len p : ℕ) (m : ℕ → ℕ)
    → n < fuel
    → ((j : ℕ) → j < n → 0 < m (p + len + j))
    → m (p + len + n) ≡ 0
    → strlen_from fuel m p len ≡ some (len + n)
unfolding strlen_from
strlen_from-cells zero n len p m lt pos end = absurd (omega (arith, lt))
strlen_from-cells (suc fuel) zero len p m lt pos end =
    let e : p + len + 0 ≡ p + len = omega arith in
    let e' : len + 0 ≡ len = omega arith in
    let at_end : (m (p + len) == 0) ≡ true = ground arith in rw at_end (ap some (sym e'))
strlen_from-cells (suc fuel) (suc n) len p m lt pos end =
    let e : p + len + 0 ≡ p + len = omega arith in
    let some_char : (m (p + len) == 0) ≡ false =
      pos-ne_zero (m (p + len)) (subst (λ x. 0 < m x) e (pos 0 (omega arith))) in
    let later =
      strlen_from-cells fuel n (len + 1) p m (omega (arith, lt))
        (λ j less.
          let f : p + (len + 1) + j ≡ p + len + (j + 1) = omega arith in
          subst (λ x. 0 < m x) (sym f) (pos (j + 1) (omega (arith, less))))
        (let f : p + (len + 1) + n ≡ p + len + suc n = omega arith in
          subst (λ x. m x ≡ 0) (sym f) end) in
    let f : len + 1 + n ≡ len + suc n = omega arith in rw some_char (later ∙ ap some f)

-- The cells before `end` that the loop writes are not 0, and those from it on are as before.
abbrev Written : ℕ → (ℕ → ℕ) → Option ((ℕ → ℕ) × ℕ) → Type 0
Written end buf none = Unit
Written end buf (some (out, e)) =
    ((i : ℕ) → end ≤ i → out i ≡ buf i) × ((i : ℕ) → e ≤ i → i < end → 0 < out i)

Written-digit :
    (end digit_value : ℕ) (buf : ℕ → ℕ) (result : Option ((ℕ → ℕ) × ℕ))
    → Written end (update buf end (representation digit_value)) result
    → Written (suc end) buf result
Written-digit end v buf none w = tt
Written-digit end v buf (some (out, e)) (kept, pos) =
    let at = update_self buf end (representation v) in
    let here = kept end (omega arith) in
    (
      λ i le.
          kept i (omega (arith, le)) ∙ update_ne buf end (representation v) i (omega (arith, le)),
      λ i le lt. elim (Bool-cases (ltb i end)) [
        | inl below ↦ pos i le (ground arith)
        | inr above ↦ let is : i ≡ end = ground arith in ground arith
      ],
    )

convert_from-Written :
    (fuel base value end : ℕ) (buf : ℕ → ℕ) → Written end buf (convert_from fuel base value buf end)
unfolding convert_from
convert_from-Written zero base value end buf = tt
convert_from-Written (suc fuel) base value zero buf = tt
convert_from-Written (suc fuel) base value (suc end) buf =
    let written = update buf end (representation (value % base)) in
    elim (Bool-cases (value / base == 0)) [
      | inl z ↦ rw z (
          Written-digit end (value % base) buf (some (written, end))
            (λ i le. refl, λ i le lt. absurd (omega (arith, le, lt))))
      | inr more ↦ rw more (
          Written-digit end (value % base) buf _
            (convert_from-Written fuel base (value / base) end written))
    ]

strlen-cells :
    (fuel n p : ℕ) (m : ℕ → ℕ)
    → n < fuel
    → ((j : ℕ) → j < n → 0 < m (p + j))
    → m (p + n) ≡ 0
    → strlen fuel m p ≡ some n
unfolding strlen
strlen-cells fuel n p m lt pos end =
    let e : p + 0 ≡ p = omega arith in
    strlen_from-cells fuel n 0 p m lt (λ j less. subst (λ x. 0 < m (x + j)) (sym e) (pos j less))
      (subst (λ x. m (x + n) ≡ 0) (sym e) end)
    ∙ ap some (omega arith)

convert_to_base-pos :
    (n base end : ℕ) (buf : ℕ → ℕ)
    → convert_to_base 63 n base ≡ some (buf, end)
    → (i : ℕ) → end ≤ i
    → i < 63
    → 0 < buf i
unfolding convert_to_base
convert_to_base-pos n base end buf done =
    (subst (Written 63 (λ _. 0)) done (convert_from-Written 63 base n 63 (λ _. 0))).1

-- A word in a base from 2 to 16 is printed: as digits that are read back as the word.
pub print_n_lem :
    (n base : ℕ)
    → n < 2 ^ 32
    → 2 ≤ base
    → base ≤ 16
    → (digits : List ℕ) × (print_n n base ≡ some (print_s digits)) × (read_text base digits 0 ≡ n)
unfolding print_n
print_n_lem n base fits two max =
    let (buf, end, done, lt, mark, value) =
      convert_to_base-read 63 n base (omega arith) fits two max in
    let at_mark : end + (63 - end) ≡ 63 = omega (arith, lt) in
    let length : strlen 64 buf end ≡ some (63 - end) =
      strlen-cells 64 (63 - end) end buf (omega arith)
        (λ j less.
          convert_to_base-pos n base end buf done (end + j) (omega arith) (omega (arith, less)))
        (subst (λ x. buf x ≡ 0) (sym at_mark) mark) in
    (
      cells buf end (63 - end),
      rw done (rw length refl),
      read_text-cells base end (63 - end) 0 buf ∙ value,
    )
