-- ===== src/KernelString/Held.antt =====
-- kernel/include/kernel/data_structures/string.hpp: memory that holds the text of a String.
use juos.Prelude.{
  ℕ, suc, ◌+◌, ◌≤◌, ◌<◌, ◌≡◌, ap, sym, subst, ◌∙◌, List, [], ◌∷◌, ◌++◌, arith, length,
}
use juos.Cstring.Held.{IsString}
use juos.KernelString.{String}

-- A String that holds the characters and their number.
pub record Holds (m : ℕ → ℕ) (s : String) (cs : List ℕ) : Type 0 where
  pub held : IsString m s.data_address cs
  pub sized : s.size ≡ length cs

-- A string in other memory that has the same cells.
pub IsString-moved :
    (m m' : ℕ → ℕ) (p q : ℕ) (cs : List ℕ)
    → IsString m p cs
    → ((k : ℕ) → k ≤ length cs → m' (q + k) ≡ m (p + k))
    → IsString m' q cs
IsString-moved m m' p q [] h same =
    let e : q + 0 ≡ q = omega arith in
    let e' : p + 0 ≡ p = omega arith in subst (λ x. m' x ≡ 0) e (same 0 (omega arith) ∙ ap m e' ∙ h)
IsString-moved m m' p q (c ∷ cs) h same =
    let e : q + 0 ≡ q = omega arith in
    let e' : p + 0 ≡ p = omega arith in
    let (at, pos, byte, rest) = h in
    (
      subst (λ x. m' x ≡ c) e (same 0 (omega arith) ∙ ap m e' ∙ at),
      pos,
      byte,
      IsString-moved m m' (p + 1) (q + 1) cs rest (λ k le.
          let a : q + 1 + k ≡ q + (k + 1) = omega arith in
          let b : p + 1 + k ≡ p + (k + 1) = omega arith in
          ap m' a ∙ same (k + 1) (omega (arith, le)) ∙ ap m (sym b)),
    )

pub IsString-end : (m : ℕ → ℕ) (p : ℕ) (cs : List ℕ) → IsString m p cs → m (p + length cs) ≡ 0
IsString-end m p [] h = let e : p + 0 ≡ p = omega arith in rw e h
IsString-end m p (c ∷ cs) h =
    let e : p + suc (length cs) ≡ p + 1 + length cs = omega arith in
    ap m e ∙ IsString-end m (p + 1) cs h.3

-- Two strings copied one behind the other.
pub IsString-append :
    (m m' : ℕ → ℕ) (p q a : ℕ) (cs ds : List ℕ)
    → IsString m p cs
    → IsString m q ds
    → ((k : ℕ) → k < length cs → m' (a + k) ≡ m (p + k))
    → ((k : ℕ) → k ≤ length ds → m' (a + length cs + k) ≡ m (q + k))
    → IsString m' a (cs ++ ds)
IsString-append m m' p q a [] ds h g first second =
    IsString-moved m m' q a ds g
      (λ k le. let e : a + k ≡ a + 0 + k = omega arith in ap m' e ∙ second k le)
IsString-append m m' p q a (c ∷ cs) ds h g first second =
    let e : a + 0 ≡ a = omega arith in
    let e' : p + 0 ≡ p = omega arith in
    let (at, pos, byte, rest) = h in
    (
      subst (λ x. m' x ≡ c) e (first 0 (omega arith) ∙ ap m e' ∙ at),
      pos,
      byte,
      IsString-append m m' (p + 1) q (a + 1) cs ds rest g
          (λ k lt.
            let f : a + 1 + k ≡ a + (k + 1) = omega arith in
            let f' : p + 1 + k ≡ p + (k + 1) = omega arith in
            ap m' f ∙ first (k + 1) (omega (arith, lt)) ∙ ap m (sym f'))
          (λ k le.
            let f : a + 1 + length cs + k ≡ a + suc (length cs) + k = omega arith in
            ap m' f ∙ second k le),
    )
