-- ===== src/Sched/Rotate.antt =====
-- The specification of the scheduler's search on lists, and that the search of
-- kernel/kernel/schedualer.cpp implements it.
use juos.Prelude.{
  ℕ, zero, suc, ◌<◌, ◌≤◌, ◌≡◌, refl, ◌∙◌, ap, ◌⊎◌, inl, inr, Bool, true, false, some, List, [], ◌∷◌,
  ◌++◌, ◌==◌, if◌then◌else◌, arith, length, length-append, ◌↔◌, Bool-cases, pos-ne_zero,
}
use juos.Queue.Fifo.{Fifo}
use juos.Sched.{Process, Found, is_canceled, find_process, ran_again}

-- The first process of the list that is not canceled, or 0, and the list that is left: all before
-- it are dropped, and it goes to the end.
unfoldable pub rotate : (ℕ → Bool) → List ℕ → ℕ × List ℕ
rotate dead [] = (0, [])
rotate dead (p ∷ ps) = if dead p then rotate dead ps else (p, ps ++ p ∷ [])

abbrev pub dead_in : List ℕ → (ℕ → Process) → ℕ → Bool
dead_in canceled ps p = is_canceled canceled (ps p).pid

abbrev pub AllPos : List ℕ → Type 0
AllPos [] = Unit
AllPos (p ∷ ps) = (0 < p) × AllPos ps

pub AllPos-snoc : (x : ℕ) (xs : List ℕ) → AllPos (x ∷ xs) → AllPos (xs ++ x ∷ [])
AllPos-snoc x [] pos = pos
AllPos-snoc x (y ∷ xs) pos = (pos.1.0, AllPos-snoc x xs (pos.0, pos.1.1))

module _ (F : Fifo ℕ) where
  isempty-cons : (q : F.State) (x : ℕ) (xs : List ℕ) → F.to_list q ≡ x ∷ xs → F.isempty q ≡ false
  isempty-cons q x xs e = elim (Bool-cases (F.isempty q)) [
    | inl t ↦ cc (e, (F.isempty_iff q).0 t)
    | inr f ↦ f
  ]

  -- One round of the loop at a queue that is not empty.
  find_process_step :
      (fuel : ℕ) (canceled : List ℕ) (ps : ℕ → Process) (q : F.State) (x : ℕ) (xs : List ℕ)
      → F.to_list q ≡ x ∷ xs
      → find_process F (suc fuel) canceled ps q ≡ (
          if dead_in canceled ps x
          then find_process F fuel canceled ps (F.dequeue q)
          else some
              (record { next = x; queue = F.enqueue (F.dequeue q) x; memory = ran_again ps x }))
  unfolding find_process
  find_process_step fuel canceled ps q x xs e =
      ground (arith, isempty-cons q x xs e, F.top-to_list q x xs e)

  -- With fuel for each entry of the queue and one round more, on entries that are not null, the
  -- search ends: what it chooses and the queue it leaves are those of `rotate` on the list, and the
  -- count of the chosen process alone rises.
  pub find_process-rotate :
      (fuel : ℕ) (canceled : List ℕ) (ps : ℕ → Process) (q : F.State) (xs : List ℕ)
      → length xs < fuel
      → AllPos xs
      → F.to_list q ≡ xs
      → (r : Found F) × (find_process F fuel canceled ps q ≡ some r)
        × (r.next ≡ (rotate (dead_in canceled ps) xs).0)
        × (F.to_list r.queue ≡ (rotate (dead_in canceled ps) xs).1)
        × (r.memory ≡ (if r.next == 0 then ps else ran_again ps r.next))
  unfolding find_process rotate
  find_process-rotate zero canceled ps q xs lt pos e = absurd (omega arith)
  find_process-rotate (suc fuel) canceled ps q [] lt pos e = (
    record { next = 0; queue = q; memory = ps },
    ground (arith, (F.isempty_iff q).1 e),
    refl,
    e,
    refl,
  )
  find_process-rotate (suc fuel) canceled ps q (x ∷ xs) lt pos e =
      elim (Bool-cases (dead_in canceled ps x)) [
        | inl dead ↦
            let (r, found, n, l, m) =
              find_process-rotate fuel canceled ps (F.dequeue q) xs (omega arith) pos.1
                (F.to_list-dequeue q x xs e) in
            (
              r,
              find_process_step fuel canceled ps q x xs e ∙ rw dead found,
              rw dead n,
              rw dead l,
              m,
            )
        | inr live ↦ (
          record { next = x; queue = F.enqueue (F.dequeue q) x; memory = ran_again ps x },
          find_process_step fuel canceled ps q x xs e ∙ rw live,
          rw live,
          rw live (
              F.to_list-enqueue (F.dequeue q) x
              ∙ ap (λ l. l ++ x ∷ []) (F.to_list-dequeue q x xs e)),
          rw (pos-ne_zero x pos.0),
        )
      ]

-- What the search finds is an entry of the list that is not dead.
pub rotate-live :
    (dead : ℕ → Bool) (xs : List ℕ)
    → AllPos xs
    → ((rotate dead xs).0 ≡ 0) ⊎ ((dead (rotate dead xs).0 ≡ false) × (0 < (rotate dead xs).0))
unfolding rotate
rotate-live dead [] pos = inl refl
rotate-live dead (x ∷ xs) pos = elim (Bool-cases (dead x)) [
  | inl d ↦ rw d (rotate-live dead xs pos.1)
  | inr l ↦ rw l (inr (l, pos.0))
]

-- It finds nothing exactly when every entry is dead.
abbrev pub AllDead : (ℕ → Bool) → List ℕ → Type 0
AllDead dead [] = Unit
AllDead dead (p ∷ ps) = (dead p ≡ true) × AllDead dead ps

pub rotate-AllDead :
    (dead : ℕ → Bool) (xs : List ℕ) → AllPos xs → ((rotate dead xs).0 ≡ 0) ↔ AllDead dead xs
unfolding rotate
rotate-AllDead dead [] pos = (λ _. tt, λ _. refl)
rotate-AllDead dead (x ∷ xs) pos = elim (Bool-cases (dead x)) [
  | inl d ↦
      let ih = rotate-AllDead dead xs pos.1 in (λ e. (d, ih.0 (rw d at e)), λ a. rw d (ih.1 a.1))
  | inr l ↦ (λ e. absurd (ground (arith, e)), λ a. cc (a.0, l))
]

pub rotate-AllPos : (dead : ℕ → Bool) (xs : List ℕ) → AllPos xs → AllPos (rotate dead xs).1
unfolding rotate
rotate-AllPos dead [] pos = tt
rotate-AllPos dead (x ∷ xs) pos = elim (Bool-cases (dead x)) [
  | inl d ↦ rw d (rotate-AllPos dead xs pos.1)
  | inr l ↦ rw l (AllPos-snoc x xs pos)
]

-- The list never grows.
pub length-rotate : (dead : ℕ → Bool) (xs : List ℕ) → length (rotate dead xs).1 ≤ length xs
unfolding rotate
length-rotate dead [] = omega arith
length-rotate dead (x ∷ xs) = elim (Bool-cases (dead x)) [
  | inl d ↦ rw d (omega (arith, length-rotate dead xs))
  | inr l ↦ rw l (omega (arith, length-append xs (x ∷ [])))
]
