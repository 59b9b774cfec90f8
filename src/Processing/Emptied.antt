-- ===== src/Processing/Emptied.antt =====
-- kernel/kernel/timer.cpp: the ticks when no process is left.
use juos.Prelude.{ℕ, ◌<◌, ◌≡◌, refl, sym, ◌∙◌, subst, Bool, List, [], ◌∷◌, arith}
use juos.Queue.Fifo.{Fifo}
use juos.Sched.{Scheduler}
use juos.Sched.Rotate.{rotate, rotate-AllDead, AllDead}
use juos.Sched.Next.{IsReady, Chooses, system_list, regular_list, dead}
use juos.Processing.{Registers, System}
use juos.Processing.Timer.{Ticked, returned, jumped, fault, out_of_fuel, tick_handler}
use juos.Processing.Tick.{IsRunnable, Outcome, tick_handler-Outcome}
use juos.Processing.Started.{loaded_with}
use juos.Processing.Resume.{IsPlain, now_at}
use juos.Processing.Ended.{at-IsRunnable, returned-IsRunnable}

rotate_emptied : (dead : ℕ → Bool) (xs : List ℕ) → AllDead dead xs → (rotate dead xs).1 ≡ []
unfolding rotate
rotate_emptied dead [] all = refl
rotate_emptied dead (x ∷ xs) all = rw (all.0) (rotate_emptied dead xs all.1)

module _ (F : Fifo ℕ) where
  nothing_left :
      (fuel : ℕ) (s t : Scheduler F)
      → IsReady F fuel s
      → AllDead (dead F s) (system_list F s)
      → AllDead (dead F s) (regular_list F s)
      → Chooses F s t
      → (t.current ≡ 0) × (system_list F t ≡ []) × (regular_list F t ≡ [])
  nothing_left fuel s t r all all' c =
      let none_of = (rotate-AllDead (dead F s) (system_list F s) r.system_pos).1 all in
      let none_of' = (rotate-AllDead (dead F s) (regular_list F s) r.regular_pos).1 all' in
      (
        c.0 ∙ rw none_of none_of',
        c.1 ∙ rotate_emptied (dead F s) (system_list F s) all,
        c.2 ∙ rw none_of (rotate_emptied (dead F s) (regular_list F s) all'),
      )

  Outcome-returned :
      (ip : ℕ) (s : System F) (t : Scheduler F) (r : Ticked F)
      → t.current ≡ 0
      → 0 < s.scheduler.current
      → Outcome F ip s t r
      → (u : System F) × (r ≡ returned u) × Outcome F ip s t (returned u)
  Outcome-returned ip s t (jumped u) z pos w = absurd (let p = w.pos in omega (arith, p, z))
  Outcome-returned ip s t (returned u) z pos out = (u, refl, out)
  Outcome-returned ip s t fault z pos out = absurd (omega (arith, pos, out.1))
  Outcome-returned ip s t out_of_fuel z pos out = absurd out

  Outcome-fault :
      (ip : ℕ) (s : System F) (t : Scheduler F) (r : Ticked F)
      → t.current ≡ 0
      → s.scheduler.current ≡ 0
      → Outcome F ip s t r
      → r ≡ fault
  Outcome-fault ip s t (jumped u) z z' w = absurd (let p = w.pos in omega (arith, p, z))
  Outcome-fault ip s t (returned u) z z' out = absurd (omega (arith, z', out.1))
  Outcome-fault ip s t fault z z' out = refl
  Outcome-fault ip s t out_of_fuel z z' out = absurd out

  fault_after :
      (fuel : ℕ) (e : Registers) (u : System F)
      → IsRunnable F fuel u
      → IsPlain e
      → u.scheduler.current ≡ 0
      → system_list F u.scheduler ≡ []
      → regular_list F u.scheduler ≡ []
      → tick_handler F e.eip (now_at F e u) ≡ fault
  fault_after fuel e u r plain z none_of none_of' =
      let r' = at-IsRunnable F fuel e u r in
      let (t, c, out) = tick_handler-Outcome F fuel e.eip (now_at F e u) r' plain in
      let left =
        nothing_left fuel u.scheduler t r.ready
          (subst (AllDead (dead F u.scheduler)) (sym none_of) tt)
          (subst (AllDead (dead F u.scheduler)) (sym none_of') tt) c in
      Outcome-fault e.eip (now_at F e u) t _ left.0 z out

  -- Where the scheduler is the only callback, with fuel for its queues, processes were counted an even
  -- number of times, and every process that is queued was ended: the next tick, where `get_ip` does not
  -- give 0x12345, the mark of a resumed process, lets the running process go on as before, also if it
  -- was ended, and the tick after that, with the same condition, reads a null pointer.
  pub tick_handler-fault :
      (fuel : ℕ) (e e' : Registers) (s : System F)
      → IsRunnable F fuel s
      → IsPlain e
      → IsPlain e'
      → 0 < s.scheduler.current
      → AllDead (dead F s.scheduler) (system_list F s.scheduler)
      → AllDead (dead F s.scheduler) (regular_list F s.scheduler)
      → (u : System F) × (tick_handler F e.eip (now_at F e s) ≡ returned u)
        × (u.cpu ≡ record { registers = e; cr3 = (s.tasks s.scheduler.current).directory })
        × (tick_handler F e'.eip (now_at F e' u) ≡ fault)
  tick_handler-fault fuel e e' s r plain plain' pos all all' =
      let r' = at-IsRunnable F fuel e s r in
      let (t, c, out) = tick_handler-Outcome F fuel e.eip (now_at F e s) r' plain in
      let (z, none_of, none_of') = nothing_left fuel s.scheduler t r.ready all all' c in
      let (u, is, kept) = Outcome-returned e.eip (now_at F e s) t _ z pos out in
      (
        u,
        is,
        loaded_with u.cpu e _ (kept.2) (kept.3),
        fault_after fuel e' u (returned-IsRunnable F fuel e.eip (now_at F e s) u t r' c kept) plain'
            (rw (kept.5) z) (rw (kept.5) none_of) (rw (kept.5) none_of'),
      )
