-- ===== src/Ps2/Control.antt =====
-- Which scan codes of kernel/drivers/ps2_keyboard.cpp end a line, erase a character or are errors.
use juos.Prelude.{
  ℕ, ap, zero, suc, ◌-◌, ◌<◌, ◌≤◌, ◌≡◌, refl, ◌↔◌, ◌⊎◌, Bool, true, false, ◌==◌, ltb, ◌&&◌,
  if◌then◌else◌, Option, none, some, length, get_or, arith, Bool-cases, inl, inr,
}
use juos.Ps2.{keys, key, normal, f_key, character, keyboard_source}

-- A test that holds at every number below `n`.
unfoldable all_below : ℕ → (ℕ → Bool) → Bool
all_below zero test = true
all_below (suc n) test = test n && all_below n test

all_below_lem : (n i : ℕ) (test : ℕ → Bool) → all_below n test ≡ true → i < n → test i ≡ true
unfolding all_below
all_below_lem zero i test h lt = absurd (omega arith)
all_below_lem (suc n) i test h lt = elim (Bool-cases (test n)) [
  | inr f ↦ absurd (ground (arith, h))
  | inl t ↦ elim (Bool-cases (i == n)) [
    | inl e ↦ let is : i ≡ n = ground arith in rw is t
    | inr f ↦ all_below_lem n i test (rw t at h) (ground arith)
  ]
]

abbrev is_only : ℕ → ℕ → Bool
is_only i c =
    if i == 27
    then c == 10
    else (if i == 13 then c == 8 else (if c == 10 then false else (if c == 8 then false else true)))

abbrev char_at : ℕ → ℕ
char_at i = character (get_or keys i (key 0 normal))

is_only_lem : (i c : ℕ) → is_only i c ≡ true → ((c ≡ 10) ↔ (i ≡ 27)) × ((c ≡ 8) ↔ (i ≡ 13))
is_only_lem i c h = (
  (λ e. ground (arith, h, e), λ e. ground (arith, h, e)),
  (λ e. ground (arith, h, e), λ e. ground (arith, h, e)),
)

all_keys : all_below 69 (λ i. is_only i (char_at i)) ≡ true
unfolding all_below character
all_keys = refl

found_iff :
    (input c : ℕ)
    → 0 < input
    → input < 69
    → ((c ≡ 10) ↔ (input - 1 ≡ 27))
    → ((c ≡ 8) ↔ (input - 1 ≡ 13))
    → ((some c ≡ none) ↔ ((input ≡ 0) ⊎ (69 ≤ input)))
      × ((some c ≡ some 10) ↔ (input ≡ 28))
      × ((some c ≡ some 8) ↔ (input ≡ 14))
found_iff input c pos lt newline back = (
  (λ e. cc, λ bad. absurd (elim bad [ inl z ↦ omega arith | inr le ↦ omega arith ])),
  (λ e. omega (arith, newline.0 cc), λ e. ap some (newline.1 (omega arith))),
  (λ e. omega (arith, back.0 cc), λ e. ap some (back.1 (omega arith))),
)

missing_iff :
    (input : ℕ)
    → (ltb 0 input && ltb input 69) ≡ false
    → let nothing : Option ℕ = none in
      ((nothing ≡ none) ↔ ((input ≡ 0) ⊎ (69 ≤ input)))
      × ((nothing ≡ some 10) ↔ (input ≡ 28))
      × ((nothing ≡ some 8) ↔ (input ≡ 14))
missing_iff input f =
    let out : (input ≡ 0) ⊎ (69 ≤ input) = ground arith in
    (
      (λ _. out, λ _. refl),
      (λ e. cc, λ e. absurd (ground (arith, f))),
      (λ e. cc, λ e. absurd (ground (arith, f))),
    )

-- The scan codes from 1 to 68 give a character and all other bytes are errors, those of the
-- releases among them; the code 28 alone gives a newline, the code 14 alone a backspace.
pub keyboard_source-control :
    (input : ℕ)
    → ((keyboard_source input ≡ none) ↔ ((input ≡ 0) ⊎ (69 ≤ input)))
      × ((keyboard_source input ≡ some 10) ↔ (input ≡ 28))
      × ((keyboard_source input ≡ some 8) ↔ (input ≡ 14))
unfolding keyboard_source
keyboard_source-control input = elim (Bool-cases (ltb 0 input && ltb input 69)) [
  | inl t ↦
      let within : input - 1 < 69 = ground arith in
      let (newline, back) =
        is_only_lem (input - 1) (char_at (input - 1))
          (all_below_lem 69 (input - 1) (λ i. is_only i (char_at i)) all_keys within) in
      rw t (found_iff input (char_at (input - 1)) (ground arith) (ground arith) newline back)
  | inr f ↦ rw f (missing_iff input f)
]

-- The last row of the table has no scan code that finds it: its code is the length of the table,
-- which is an error.
pub keyboard_source-last :
    (input : ℕ)
    → input ≡ length keys
    → (get_or keys (input - 1) (key 0 normal) ≡ key 45 f_key) × (keyboard_source input ≡ none)
unfolding keyboard_source
keyboard_source-last input e = rw e (refl, refl)
