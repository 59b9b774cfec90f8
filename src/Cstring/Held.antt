-- ===== src/Cstring/Held.antt =====
-- What the functions of libc/string do on memory that holds a string.
use juos.Prelude.{
  ℕ, zero, suc, ◌+◌, ◌%◌, ◌^◌, ◌≤◌, ◌<◌, ◌≡◌, ◌≢◌, refl, ap, sym, subst, ◌∙◌, ◌↔◌, ◌⊎◌, inl, inr,
  some, List, [], ◌∷◌, ◌==◌, arith, length, take, min, Bool-cases, pos-ne_zero,
}
use juos.Prelude.Maps.{update}
use juos.Prelude.Words.{sub32}
use juos.Cstring.{strlen, strlen_from, strcmp, strncpy, memset, memset_from, memcpy, memcpy_from}

-- The memory holds the characters from `p` on, none of them 0, and then the end mark.
abbrev pub IsString : (ℕ → ℕ) → ℕ → List ℕ → Type 0
IsString m p [] = m p ≡ 0
IsString m p (c ∷ cs) = (m p ≡ c) × (0 < c) × (c < 256) × IsString m (p + 1) cs

strlen_from-IsString :
    (fuel len p : ℕ) (m : ℕ → ℕ) (cs : List ℕ)
    → length cs < fuel
    → IsString m (p + len) cs
    → strlen_from fuel m p len ≡ some (len + length cs)
unfolding strlen_from
strlen_from-IsString zero len p m cs lt h = absurd (omega arith)
strlen_from-IsString (suc fuel) len p m [] lt h = rw h (ap some (omega arith))
strlen_from-IsString (suc fuel) len p m (c ∷ cs) lt h =
    let z : p + len + 1 ≡ p + (len + 1) = omega arith in
    let ih = strlen_from-IsString fuel (len + 1) p m cs (omega arith) (rw z at h.3) in
    rw (h.0) (rw (pos-ne_zero c h.1) (ih ∙ ap some (omega arith)))

-- With fuel above its length, strlen of a string is its length.
pub strlen-IsString :
    (fuel p : ℕ) (m : ℕ → ℕ) (cs : List ℕ)
    → length cs < fuel
    → IsString m p cs
    → strlen fuel m p ≡ some (length cs)
unfolding strlen
strlen-IsString fuel p m cs lt h =
    let z : p + 0 ≡ p = omega arith in
    strlen_from-IsString fuel 0 p m cs lt (rw z h) ∙ ap some (omega arith)

-- With fuel above the first string's length strcmp ends, and gives 0 exactly for equal strings.
pub strcmp-IsString :
    (fuel p1 p2 : ℕ) (m : ℕ → ℕ) (cs ds : List ℕ)
    → length cs < fuel
    → IsString m p1 cs
    → IsString m p2 ds
    → (n : ℕ) × (strcmp fuel m p1 p2 ≡ some n) × ((n ≡ 0) ↔ (cs ≡ ds))
unfolding strcmp
strcmp-IsString zero p1 p2 m cs ds lt h k = absurd (omega arith)
strcmp-IsString (suc fuel) p1 p2 m [] [] lt h k = (0, rw (h, k), (λ _. refl, λ _. refl))
strcmp-IsString (suc fuel) p1 p2 m [] (d ∷ ds) lt h k =
    let (at, pos, byte, rest) = k in
    (sub32 0 d, rw (h, at), (λ e. absurd (omega (arith, e, pos, byte)), λ e. cc))
strcmp-IsString (suc fuel) p1 p2 m (c ∷ cs) [] lt h k =
    let (at, pos, byte, rest) = h in
    (
      c,
      rw (at, k) (rw (pos-ne_zero c pos) (ap some (omega arith))),
      (λ e. absurd (omega (arith, e, pos)), λ e. cc),
    )
strcmp-IsString (suc fuel) p1 p2 m (c ∷ cs) (d ∷ ds) lt h k =
    let (at, pos, byte, rest) = h in
    let (at', pos', byte', rest') = k in
    elim (Bool-cases (c == d)) [
      | inl same ↦
          let (n, e, iff) =
            strcmp-IsString fuel (p1 + 1) (p2 + 1) m cs ds (omega arith) rest rest' in
          let eq : c ≡ d = ground arith in
          (
            n,
            rw (at, at') (rw (pos-ne_zero c pos) (rw same e)),
            (λ z. cc (eq, iff.0 z), λ z. iff.1 cc),
          )
      | inr apart ↦
          let ne : c ≢ d = ground arith in
          (
            sub32 c d,
            rw (at, at') (rw (pos-ne_zero c pos) (rw apart)),
            (λ z. absurd (ne (omega (arith, z, byte, byte'))), λ z. absurd (ne cc)),
          )
    ]

IsString-update :
    (p q v : ℕ) (m : ℕ → ℕ) (cs : List ℕ)
    → (p < q) ⊎ (q + length cs < p)
    → IsString m q cs
    → IsString (update m p v) q cs
IsString-update p q v m [] apart h = ground arith
IsString-update p q v m (c ∷ cs) apart h =
    (ground arith, h.1, h.2, IsString-update p (q + 1) v m cs (ground arith) h.3)

strncpy_step :
    (num p q c : ℕ) (m : ℕ → ℕ)
    → m q ≡ c
    → 0 < c
    → strncpy (suc num) m p q ≡ strncpy num (update m p c) (p + 1) (q + 1)
unfolding strncpy
strncpy_step num p q c m at pos = rw at (rw (pos-ne_zero c pos))

-- strncpy of a string whose memory the written cells do not meet: the destination holds the first
-- `num` characters as a string, and no cell but those of its characters and of its end mark changes.
-- The end mark is written also where `num` characters were copied, behind them.
pub strncpy-IsString :
    (num p q : ℕ) (m : ℕ → ℕ) (cs : List ℕ)
    → IsString m q cs
    → (p + min num (length cs) < q) ⊎ (q + length cs < p)
    → IsString (strncpy num m p q) p (take num cs)
      × ((a : ℕ) → (a < p) ⊎ (p + min num (length cs) < a) → strncpy num m p q a ≡ m a)
unfolding strncpy
strncpy-IsString zero p q m cs h apart = (ground arith, λ a out. ground arith)
strncpy-IsString (suc num) p q m [] h apart = rw h (ground arith, λ a out. ground arith)
strncpy-IsString (suc num) p q m (c ∷ cs) h apart =
    let (at, pos, byte, rest) = h in
    let spared = IsString-update p (q + 1) c m cs (ground arith) rest in
    let (copied, outside) =
      strncpy-IsString num (p + 1) (q + 1) (update m p c) cs spared (ground arith) in
    subst
      (λ n.
        IsString n p (c ∷ take num cs)
        × ((a : ℕ) → (a < p) ⊎ (p + min (suc num) (length (c ∷ cs)) < a) → n a ≡ m a))
      (sym (strncpy_step num p q c m at pos))
      (
        (outside p (inl (omega arith)) ∙ ground arith, pos, byte, copied),
        λ a out. outside a (ground arith) ∙ ground arith,
      )

memset_from_lem :
    (rounds i p v : ℕ) (m : ℕ → ℕ)
    → ((a : ℕ) → p + i ≤ a → a < p + i + rounds → memset_from rounds i m p v a ≡ v % 2 ^ 8)
      × ((a : ℕ) → (a < p + i) ⊎ (p + i + rounds ≤ a) → memset_from rounds i m p v a ≡ m a)
unfolding memset_from
memset_from_lem zero i p v m = (λ a lo hi. absurd (omega arith), λ a out. refl)
memset_from_lem (suc rounds) i p v m =
    let (inside, outside) = memset_from_lem rounds (i + 1) p v (update m (p + i) (v % 2 ^ 8)) in
    (
      λ a lo hi. elim (Bool-cases (a == p + i)) [
        | inl e ↦ outside a (inl (ground arith)) ∙ ground arith
        | inr f ↦ inside a (ground arith) (ground arith)
      ],
      λ a out. outside a (ground arith) ∙ ground arith,
    )

-- memset writes the low byte of the value to each of the `size` cells, and to no other.
pub memset_lem :
    (m : ℕ → ℕ) (bufptr value size : ℕ)
    → ((a : ℕ) → bufptr ≤ a → a < bufptr + size → memset m bufptr value size a ≡ value % 2 ^ 8)
      × ((a : ℕ) → (a < bufptr) ⊎ (bufptr + size ≤ a) → memset m bufptr value size a ≡ m a)
unfolding memset
memset_lem m bufptr value size =
    let (inside, outside) = memset_from_lem size 0 bufptr value m in
    (λ a lo hi. inside a (omega arith) (omega arith), λ a out. outside a (ground arith))

memcpy_from_lem :
    (rounds i p q : ℕ) (m : ℕ → ℕ)
    → (p + i + rounds ≤ q) ⊎ (q + i + rounds ≤ p)
    → ((j : ℕ) → i ≤ j → j < i + rounds → memcpy_from rounds i m p q (p + j) ≡ m (q + j))
      × ((a : ℕ) → (a < p + i) ⊎ (p + i + rounds ≤ a) → memcpy_from rounds i m p q a ≡ m a)
unfolding memcpy_from
memcpy_from_lem zero i p q m apart = (λ j lo hi. absurd (omega arith), λ a out. refl)
memcpy_from_lem (suc rounds) i p q m apart =
    let (inside, outside) =
      memcpy_from_lem rounds (i + 1) p q (update m (p + i) (m (q + i))) (ground arith) in
    (
      λ j lo hi. elim (Bool-cases (j == i)) [
        | inl e ↦ outside (p + j) (inl (ground arith)) ∙ ground arith
        | inr f ↦ inside j (ground arith) (ground arith) ∙ ground arith
      ],
      λ a out. outside a (ground arith) ∙ ground arith,
    )

-- memcpy between ranges that do not overlap copies each of the `n` cells, and writes no other.
pub memcpy_lem :
    (m : ℕ → ℕ) (str1 str2 n : ℕ)
    → (str1 + n ≤ str2) ⊎ (str2 + n ≤ str1)
    → ((j : ℕ) → j < n → memcpy m str1 str2 n (str1 + j) ≡ m (str2 + j))
      × ((a : ℕ) → (a < str1) ⊎ (str1 + n ≤ a) → memcpy m str1 str2 n a ≡ m a)
unfolding memcpy
memcpy_lem m str1 str2 n apart =
    let (inside, outside) = memcpy_from_lem n 0 str1 str2 m (ground arith) in
    (λ j lt. inside j (omega arith) (omega arith), λ a out. outside a (ground arith))
