-- ===== src/KernelString/Loops.antt =====
-- kernel/include/kernel/data_structures/string.hpp: the loops of String.
use juos.Prelude.{
  ℕ, zero, suc, ◌+◌, ◌-◌, ◌≤◌, ◌<◌, ◌≡◌, ◌⊎◌, inl, inr, refl, ◌∙◌, ◌==◌, ltb, if◌then◌else◌, arith,
  length, Bool-cases,
}
use juos.Prelude.Maps.{update, update_self, update_ne}
use juos.KernelString.{resize_from, append_from}

-- The cell that `setLength` copies.
abbrev pub resized : ℕ → ℕ → (ℕ → ℕ) → ℕ → ℕ
resized old n m k = if ltb k n then m (old + k) else 0

resized_same :
    (old n p k v : ℕ) (m : ℕ → ℕ)
    → (old + n ≤ p) ⊎ (p < old)
    → resized old n (update m p v) k ≡ resized old n m k
resized_same old n p k v m apart = elim (Bool-cases (ltb k n)) [
  | inl lt ↦ rw lt (ground arith)
  | inr ge ↦ rw ge refl
]

pub resize_from_lem :
    (rounds i n old p : ℕ) (m : ℕ → ℕ)
    → (old + n ≤ p + i) ⊎ (p + i + rounds ≤ old)
    → ((k : ℕ)
        → i ≤ k
        → k < i + rounds
        → resize_from rounds i n old p m (p + k) ≡ resized old n m k)
      × ((a : ℕ) → (a < p + i) ⊎ (p + i + rounds ≤ a) → resize_from rounds i n old p m a ≡ m a)
unfolding resize_from
resize_from_lem zero i n old p m apart = (λ k lo hi. absurd (omega (arith, lo, hi)), λ a out. refl)
resize_from_lem (suc rounds) i n old p m apart =
    let (copied, kept) =
      resize_from_lem rounds (i + 1) n old p (update m (p + i) (resized old n m i))
        (ground arith) in
    (
      λ k lo hi. elim (Bool-cases (k == i)) [
        | inl now ↦
            let is : k ≡ i = ground arith in
            kept (p + k) (ground arith) ∙ rw is (update_self m (p + i) (resized old n m i))
        | inr later ↦
            copied k (ground arith) (ground arith)
            ∙ resized_same old n (p + i) k (resized old n m i) m (ground arith)
      ],
      λ a out. kept a (ground arith) ∙ update_ne m (p + i) (resized old n m i) a (ground arith),
    )

pub append_from_lem :
    (rounds i length text p : ℕ) (m : ℕ → ℕ)
    → length ≤ i
    → (text + (i + rounds - length) ≤ p + i) ⊎ (p + i + rounds ≤ text)
    → ((k : ℕ)
        → i ≤ k
        → k < i + rounds
        → append_from rounds i length text p m (p + k) ≡ m (text + (k - length)))
      × ((a : ℕ)
          → (a < p + i) ⊎ (p + i + rounds ≤ a)
          → append_from rounds i length text p m a ≡ m a)
unfolding append_from
append_from_lem zero i length text p m le apart =
    (λ k lo hi. absurd (omega (arith, lo, hi)), λ a out. refl)
append_from_lem (suc rounds) i length text p m le apart =
    let v = m (text + (i - length)) in
    let (copied, kept) =
      append_from_lem rounds (i + 1) length text p (update m (p + i) v) (omega (arith, le))
        (ground arith) in
    (
      λ k lo hi. elim (Bool-cases (k == i)) [
        | inl now ↦
            let is : k ≡ i = ground arith in
            kept (p + k) (ground arith) ∙ rw is (update_self m (p + i) v)
        | inr later ↦
            copied k (ground arith) (ground arith)
            ∙ update_ne m (p + i) v (text + (k - length)) (ground arith)
      ],
      λ a out. kept a (ground arith) ∙ update_ne m (p + i) v a (ground arith),
    )
