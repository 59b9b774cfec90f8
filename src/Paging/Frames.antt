-- ===== src/Paging/Frames.antt =====
-- The search for a free frame (kernel/kernel/frame_table.cpp).
use juos.Prelude.{
  ℕ, zero, suc, ◌+◌, ◌<◌, ◌≡◌, refl, ap, ◌⊎◌, inl, inr, Bool, true, false, none, some, List, [],
  ◌∷◌, length, set, get_or, arith,
}
use juos.Paging.{find_first, untaken}

-- How many frames are free.
abbrev pub free_count : List Bool → ℕ
free_count [] = 0
free_count (true ∷ fs) = free_count fs
free_count (false ∷ fs) = suc (free_count fs)

-- Every frame before `i` is taken.
abbrev pub TakenBelow : ℕ → List Bool → Type 0
TakenBelow zero fs = Unit
TakenBelow (suc i) [] = Unit
TakenBelow (suc i) (f ∷ fs) = (f ≡ true) × TakenBelow i fs

-- The search fails exactly when no frame is free. What it finds is the first free frame, and taking
-- it leaves one free frame less.
pub find_first_lem :
    (fs : List Bool)
    → ((find_first fs ≡ none) × (free_count fs ≡ 0))
      ⊎ ((i : ℕ) × (find_first fs ≡ some i)
          × (i < length fs)
          × (get_or fs i true ≡ false)
          × TakenBelow i fs
          × (free_count (set fs i true) + 1 ≡ free_count fs))
unfolding find_first
find_first_lem [] = inl (refl, refl)
find_first_lem (false ∷ fs) = inr (0, refl, omega arith, refl, tt, omega arith)
find_first_lem (true ∷ fs) = elim (find_first_lem fs) [
  | inl (e, z) ↦ inl (rw e, z)
  | inr (i, e, lt, free, below, less) ↦ inr (suc i, rw e, omega arith, free, (refl, below), less)
]

pub find_first-free :
    (fs : List Bool)
    → 0 < free_count fs
    → (i : ℕ) × (find_first fs ≡ some i) × (free_count (set fs i true) + 1 ≡ free_count fs)
find_first-free fs pos = elim (find_first_lem fs) [
  | inl (e, z) ↦ absurd (omega arith)
  | inr (i, e, lt, free, below, less) ↦ (i, e, less)
]

pub free_count-untaken : (n : ℕ) → free_count (untaken n) ≡ n
free_count-untaken zero = refl
free_count-untaken (suc n) = ap suc (free_count-untaken n)
