-- ===== src/Printf/Digits.antt =====
-- The number that libc/stdio/printf.cpp prints, read back.
use juos.Prelude.{
  ℕ, zero, suc, ◌+◌, ◌-◌, ◌*◌, ◌/◌, ◌%◌, ◌^◌, ◌≤◌, ◌<◌, ◌≡◌, ap, ◌∙◌, some, ◌==◌, ltb,
  if◌then◌else◌, arith, Bool-cases, inl, inr,
}
use native.Mathlib.Nat.{pow-suc, div-mul-le_self, div-add-mod', mod-lt, mul-le-mul_left}
use juos.Prelude.Maps.{update, update_self}
use juos.Printf.{representation, convert_from, convert_to_base}

-- The digit that a character stands for.
abbrev pub digit : ℕ → ℕ
digit c = if ltb c 97 then c - 48 else c - 87

-- The number in `n` characters from the index `i` on, behind the digits read so far.
unfoldable pub read : ℕ → (ℕ → ℕ) → ℕ → ℕ → ℕ → ℕ
read base buf i zero seen = seen
read base buf i (suc n) seen = read base buf (i + 1) n (seen * base + digit (buf i))

read-suc :
    (base i n seen : ℕ) (buf : ℕ → ℕ)
    → read base buf i (suc n) seen ≡ read base buf i n seen * base + digit (buf (i + n))
unfolding read
read-suc base i zero seen buf = ap (λ j. seen * base + digit (buf j)) (omega arith)
read-suc base i (suc n) seen buf =
    read-suc base (i + 1) n (seen * base + digit (buf i)) buf
    ∙ ap (λ j. read base buf (i + 1) n (seen * base + digit (buf i)) * base + digit (buf j))
        (omega arith)

digit-representation : (d : ℕ) → d < 16 → digit (representation d) ≡ d
digit-representation d lt = ground arith

half_lt : (v b n : ℕ) → 2 ≤ b → v < 2 ^ suc n → v / b < 2 ^ n
half_lt v b n two lt =
    let low = div-mul-le_self v b in
    let more : v / b * 2 ≤ v / b * b = mul-le-mul_left (v / b) two in
    omega (arith, low, more, pow-suc 2 n)

room_left : (v n : ℕ) → 0 < v → v < 2 ^ n → 0 < n
room_left v zero pos lt = absurd (omega arith)
room_left v (suc n) pos lt = omega arith

-- One digit is read back.
read-one :
    (base value end : ℕ) (buf : ℕ → ℕ)
    → digit (buf end) ≡ value
    → read base buf end (suc end - end) 0 ≡ value
unfolding read
read-one base value end buf shown =
    let one : suc end - end ≡ 1 = omega arith in rw one (front (digit (buf end)) ∙ shown)
  where
    front : (n : ℕ) → 0 * base + n ≡ n
    front n = omega arith

-- The last digit is read behind the others.
read-last :
    (base value end e : ℕ) (out : ℕ → ℕ)
    → e < end
    → read base out e (end - e) 0 ≡ value / base
    → digit (out end) ≡ value % base
    → read base out e (suc end - e) 0 ≡ value
read-last base value end e out lt others last =
    let count : suc end - e ≡ suc (end - e) = omega arith in
    let place : e + (end - e) ≡ end = omega arith in
    rw count
      (read-suc base e (end - e) 0 out ∙ rw place (rw (others, last) (div-add-mod' value base)))

-- The loop, with room for the digits and fuel for each.
convert_from-read :
    (fuel base value end : ℕ) (buf : ℕ → ℕ)
    → 2 ≤ base
    → base ≤ 16
    → value < 2 ^ end
    → 0 < end
    → end ≤ fuel
    → (out : ℕ → ℕ) × (e : ℕ) × (convert_from fuel base value buf end ≡ some (out, e))
      × (e < end)
      × ((i : ℕ) → end ≤ i → out i ≡ buf i)
      × (read base out e (end - e) 0 ≡ value)
unfolding convert_from read
convert_from-read zero base value end buf two max lt pos le = absurd (omega arith)
convert_from-read (suc fuel) base value zero buf two max lt pos le = absurd (omega arith)
convert_from-read (suc fuel) base value (suc end) buf two max lt pos le =
    let written = update buf end (representation (value % base)) in
    let below : value % base < base = mod-lt value (omega arith) in
    let shown : digit (representation (value % base)) ≡ value % base =
      digit-representation (value % base) (omega arith) in
    let parts = div-add-mod' value base in
    elim (Bool-cases (value / base == 0)) [
      | inl z ↦
          let none_left : value / base ≡ 0 = ground arith in
          let whole : value % base ≡ value = omega (arith, rw none_left at parts) in
          let at : written end ≡ representation (value % base) =
            update_self buf end (representation (value % base)) in
          (
            written,
            end,
            rw z,
            omega arith,
            λ i le. ground arith,
            read-one base value end written (ap digit at ∙ shown ∙ whole),
          )
      | inr more ↦
          let some_left : 0 < value / base = ground arith in
          let small = half_lt value base end two lt in
          let (out, e, done, lt', kept, others) =
            convert_from-read fuel base (value / base) end written two max small
              (room_left (value / base) end some_left small) (omega arith) in
          (
            out,
            e,
            rw more done,
            omega arith,
            λ i le. kept i (omega arith) ∙ ground arith,
            read-last base value end e out lt' others
                (ap digit (kept end (omega arith) ∙ ground arith) ∙ shown),
          )
    ]

-- A word in a base from 2 to 16: with fuel for 63 rounds the digits fit into the buffer, an end mark
-- stands behind them, and read back in that base they are the word.
pub convert_to_base-read :
    (fuel value base : ℕ)
    → 63 ≤ fuel
    → value < 2 ^ 32
    → 2 ≤ base
    → base ≤ 16
    → (buf : ℕ → ℕ) × (end : ℕ) × (convert_to_base fuel value base ≡ some (buf, end))
      × (end < 63)
      × (buf 63 ≡ 0)
      × (read base buf end (63 - end) 0 ≡ value)
unfolding convert_to_base
convert_to_base-read fuel value base le fits two max =
    let (out, e, done, lt, kept, value_read) =
      convert_from-read fuel base value 63 (λ _. 0) two max (omega arith) (omega arith) le in
    (out, e, done, lt, kept 63 (omega arith), value_read)
