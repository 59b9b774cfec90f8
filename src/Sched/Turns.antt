-- ===== src/Sched/Turns.antt =====
-- Many calls of CalculateNext (kernel/kernel/schedualer.cpp) in a row, one for each timer tick.
use juos.Prelude.{
  subst, ℕ, zero, suc, ◌<◌, ◌≡◌, refl, ◌∙◌, ◌≢◌, sym, ap, ◌⊎◌, inl, inr, Bool, true, false, Option,
  none, some, List, [], ◌∷◌, ◌++◌, ◌==◌, if◌then◌else◌, arith, length, Bool-cases, pos-ne_zero,
  append_assoc, append-nil, ==_refl,
}
use mathlib.Core.Path.{fun_ext}
use juos.Queue.Fifo.{Fifo}
use juos.Sched.{Process, Scheduler, is_canceled, ran_again, calculate_next, signal_end}
use juos.Sched.Rotate.{rotate, dead_in, AllPos, rotate-live, rotate-AllPos, length-rotate}
use juos.Sched.Next.{IsReady, Chooses, calculate_next-Chooses, system_list, regular_list, dead}

pub dead_in-ran_again :
    (canceled : List ℕ) (ps : ℕ → Process) (p : ℕ)
    → dead_in canceled (ran_again ps p) ≡ dead_in canceled ps
dead_in-ran_again canceled ps p = fun_ext λ q. ap (is_canceled canceled) (ground arith)

pub is_canceled-append :
    (canceled : List ℕ) (pid : ℕ) → is_canceled (canceled ++ pid ∷ []) pid ≡ true
unfolding is_canceled
is_canceled-append [] pid = rw (==_refl pid)
is_canceled-append (c ∷ cs) pid = ground (arith, is_canceled-append cs pid)

abbrev pub AllLive : (ℕ → Bool) → List ℕ → Type 0
AllLive dead [] = Unit
AllLive dead (p ∷ ps) = (dead p ≡ false) × AllLive dead ps

abbrev pub pids : (ℕ → Process) → ℕ → ℕ
pids ps p = (ps p).pid

-- No entry is a process with that id.
abbrev pub NoneOf : (ℕ → ℕ) → ℕ → List ℕ → Type 0
NoneOf ids pid [] = Unit
NoneOf ids pid (p ∷ ran) = ((p ≡ 0) ⊎ (ids p ≢ pid)) × NoneOf ids pid ran

module _ (F : Fifo ℕ) where
  -- The processes that `n` calls choose, in order.
  unfoldable pub turns : ℕ → ℕ → Scheduler F → Option (Scheduler F × List ℕ)
  turns fuel zero s = some (s, [])
  turns fuel (suc n) s = elim (calculate_next F fuel s) [
    | none ↦ none
    | some t ↦ elim (turns fuel n t) [ none ↦ none | some (u, ran) ↦ some (u, t.current ∷ ran) ]
  ]

  turns_step :
      (fuel n : ℕ) (s t u : Scheduler F) (ran : List ℕ)
      → calculate_next F fuel s ≡ some t
      → turns fuel n t ≡ some (u, ran)
      → turns fuel (suc n) s ≡ some (u, t.current ∷ ran)
  unfolding turns
  turns_step fuel n s t u ran e e' = rw (e, turns) (rw e')

  regular_IsReady :
      (fuel : ℕ) (s : Scheduler F) (b : Bool)
      → IsReady F fuel s
      → AllPos (if b then (rotate (dead F s) (regular_list F s)).1 else regular_list F s)
        × (length (if b then (rotate (dead F s) (regular_list F s)).1 else regular_list F s) < fuel)
  regular_IsReady fuel s true r =
      let shorter = length-rotate (dead F s) (regular_list F s) in
      let short = r.regular_short in
      (rotate-AllPos (dead F s) _ r.regular_pos, omega (arith, shorter, short))
  regular_IsReady fuel s false r = (r.regular_pos, r.regular_short)

  pub Chooses-IsReady :
      (fuel : ℕ) (s t : Scheduler F) → IsReady F fuel s → Chooses F s t → IsReady F fuel t
  Chooses-IsReady fuel s t r c = record {
    system_pos = rw (c.1) (rotate-AllPos (dead F s) _ r.system_pos);
    regular_pos = rw (c.2) (regular_IsReady fuel s _ r).0;
    system_short = rw (c.1) (
        let shorter = length-rotate (dead F s) (system_list F s) in
        let short = r.system_short in omega (arith, shorter, short));
    regular_short = rw (c.2) (regular_IsReady fuel s _ r).1;
  }

  dead-Chooses : (s t : Scheduler F) → Chooses F s t → dead F t ≡ dead F s
  dead-Chooses s t c = elim (Bool-cases (t.current == 0)) [
    | inl z ↦ rw (c.3, c.4) (rw z)
    | inr z ↦ rw (c.3, c.4) (rw z (dead_in-ran_again s.canceled s.processes t.current))
  ]

  pids-Chooses : (s t : Scheduler F) → Chooses F s t → pids t.processes ≡ pids s.processes
  pids-Chooses s t c = elim (Bool-cases (t.current == 0)) [
    | inl z ↦ rw (c.4) (rw z)
    | inr z ↦ rw (c.4) (rw z (fun_ext λ q. ground arith))
  ]

  -- With one live system process in front, the call chooses it.
  pub choose_first :
      (s t : Scheduler F) (x : ℕ) (xs : List ℕ)
      → 0 < x
      → system_list F s ≡ x ∷ xs
      → dead F s x ≡ false
      → Chooses F s t
      → (t.current ≡ x) × (system_list F t ≡ xs ++ x ∷ [])
  unfolding rotate
  choose_first s t x xs pos e live c =
      let first : rotate (dead F s) (system_list F s) ≡ (x, xs ++ x ∷ []) = rw e (rw live) in
      (c.0 ∙ rw first (rw (pos-ne_zero x pos)), c.1 ∙ rw first)

  -- Round robin, with fuel for both queues: where the first processes `xs` of the system queue are
  -- not canceled, as many calls choose them one after another, and then they stand behind the others
  -- in the same order.
  pub turns-round_robin :
      (fuel : ℕ) (xs ys : List ℕ) (s : Scheduler F)
      → IsReady F fuel s
      → system_list F s ≡ xs ++ ys
      → AllLive (dead F s) xs
      → (t : Scheduler F) × (turns fuel (length xs) s ≡ some (t, xs)) × (system_list F t ≡ ys ++ xs)
  unfolding turns
  turns-round_robin fuel [] ys s r e live = (s, refl, e ∙ sym (append-nil ys))
  turns-round_robin fuel (x ∷ xs) ys s r e live =
      let (t, called, c) = calculate_next-Chooses F fuel s r in
      let pos : 0 < x = (subst AllPos e r.system_pos).0 in
      let (chosen, rest) = choose_first s t x (xs ++ ys) pos e live.0 c in
      let (u, ran, last) =
        turns-round_robin fuel xs (ys ++ x ∷ []) t (Chooses-IsReady fuel s t r c)
          (rest ∙ append_assoc xs ys (x ∷ [])) (rw (dead-Chooses s t c) live.1) in
      (
        u,
        turns_step fuel (length xs) s t u xs called ran ∙ rw chosen,
        last ∙ append_assoc ys (x ∷ []) xs,
      )

  -- With no system process, the call chooses the live process in front of the regular ones.
  pub choose_regular :
      (s t : Scheduler F) (x : ℕ) (xs : List ℕ)
      → 0 < x
      → system_list F s ≡ []
      → regular_list F s ≡ x ∷ xs
      → dead F s x ≡ false
      → Chooses F s t
      → (t.current ≡ x) × (system_list F t ≡ []) × (regular_list F t ≡ xs ++ x ∷ [])
  unfolding rotate
  choose_regular s t x xs pos none_of e live c =
      let nothing : rotate (dead F s) (system_list F s) ≡ (0, []) = rw none_of in
      let first : rotate (dead F s) (regular_list F s) ≡ (x, xs ++ x ∷ []) = rw e (rw live) in
      (c.0 ∙ rw nothing (rw first refl), c.1 ∙ rw nothing, c.2 ∙ rw nothing (rw first refl))

  -- With a canceled process in the system queue and a live one in the other, the call chooses that.
  pub choose_behind :
      (s t : Scheduler F) (k p : ℕ)
      → 0 < p
      → system_list F s ≡ k ∷ []
      → dead F s k ≡ true
      → regular_list F s ≡ p ∷ []
      → dead F s p ≡ false
      → Chooses F s t
      → (t.current ≡ p) × (system_list F t ≡ []) × (regular_list F t ≡ p ∷ [])
  unfolding rotate
  choose_behind s t k p pos one ended e live c =
      let nothing : rotate (dead F s) (system_list F s) ≡ (0, []) = rw one (rw ended refl) in
      let first : rotate (dead F s) (regular_list F s) ≡ (p, p ∷ []) = rw e (rw live) in
      (c.0 ∙ rw nothing (rw first refl), c.1 ∙ rw nothing, c.2 ∙ rw nothing (rw first refl))

  pub chosen-live :
      (fuel : ℕ) (s t : Scheduler F)
      → IsReady F fuel s
      → Chooses F s t
      → (t.current ≡ 0) ⊎ (dead F s t.current ≡ false)
  chosen-live fuel s t r c = elim (Bool-cases ((rotate (dead F s) (system_list F s)).0 == 0)) [
    | inl z ↦
        let e : t.current ≡ (rotate (dead F s) (regular_list F s)).0 = c.0 ∙ rw z in
        rw e (elim (rotate-live (dead F s) (regular_list F s) r.regular_pos) [
          | inl nothing ↦ inl nothing
          | inr live ↦ inr live.0
        ])
    | inr z ↦
        let e : t.current ≡ (rotate (dead F s) (system_list F s)).0 = c.0 ∙ rw z in
        rw e (elim (rotate-live (dead F s) (system_list F s) r.system_pos) [
          | inl nothing ↦ inl nothing
          | inr live ↦ inr live.0
        ])
  ]

  pub unended :
      (canceled : List ℕ) (ps : ℕ → Process) (pid p : ℕ)
      → is_canceled canceled pid ≡ true
      → (p ≡ 0) ⊎ (dead_in canceled ps p ≡ false)
      → (p ≡ 0) ⊎ ((ps p).pid ≢ pid)
  unended canceled ps pid p c (inl z) = inl z
  unended canceled ps pid p c (inr l) = inr (λ e. cc (c, l, ap (is_canceled canceled) e))

  never_chosen :
      (fuel n : ℕ) (s : Scheduler F) (pid : ℕ)
      → IsReady F fuel s
      → is_canceled s.canceled pid ≡ true
      → (t : Scheduler F) × (ran : List ℕ) × (turns fuel n s ≡ some (t, ran))
        × NoneOf (pids s.processes) pid ran
  unfolding turns
  never_chosen fuel zero s pid r c = (s, [], refl, tt)
  never_chosen fuel (suc n) s pid r c =
      let (t, called, ch) = calculate_next-Chooses F fuel s r in
      let (u, ran, e, out) =
        never_chosen fuel n t pid (Chooses-IsReady fuel s t r ch) (rw (ch.3) c) in
      (
        u,
        t.current ∷ ran,
        turns_step fuel n s t u ran called e,
        (
          unended s.canceled s.processes pid t.current c (chosen-live fuel s t r ch),
          subst (λ f. NoneOf f pid ran) (pids-Chooses s t ch) out,
        ),
      )

  -- With fuel for both queues: after a process was ended, however many calls follow, each returns,
  -- and none chooses a process with that id.
  pub turns-signal_end :
      (fuel n pid : ℕ) (s : Scheduler F)
      → IsReady F fuel s
      → (t : Scheduler F) × (ran : List ℕ) × (turns fuel n (signal_end F pid s) ≡ some (t, ran))
        × NoneOf (pids s.processes) pid ran
  unfolding signal_end
  turns-signal_end fuel n pid s r =
      never_chosen fuel n (signal_end F pid s) pid
        (record {
          system_pos = r.system_pos;
          regular_pos = r.regular_pos;
          system_short = r.system_short;
          regular_short = r.regular_short;
        })
        (is_canceled-append s.canceled pid)
