-- ===== src/Processing/Ended.antt =====
-- kernel/kernel/process.cpp and kernel/kernel/timer.cpp: a process that was ended, with ticks, starts
-- and ends in any order.
use juos.Prelude.{
  ℕ, ◌+◌, ◌<◌, ◌≡◌, ◌≢◌, refl, sym, ◌∙◌, ap, subst, true, some, List, [], ◌∷◌, ◌++◌, ◌==◌, length,
  arith, Bool-cases, inl, inr,
}
use juos.Queue.Fifo.{Fifo}
use juos.Sched.{Priority, Scheduler, is_canceled, signal_end}
use juos.Sched.Next.{Chooses, system_list, regular_list}
use juos.Sched.Turns.{Chooses-IsReady, chosen-live, unended, is_canceled-append}
use juos.Processing.{Registers, System, end_process, start_process}
use juos.Processing.Timer.{Ticked, returned, jumped, fault, out_of_fuel, tick_handler}
use juos.Processing.Tick.{IsRunnable, Switched, Outcome, tick_handler-Outcome}
use juos.Processing.Started.{start_process_returned, started-IsRunnable}
use juos.Processing.Resume.{IsPlain, now_at, jump-IsRunnable}

is_canceled_more :
    (canceled : List ℕ) (pid other : ℕ)
    → is_canceled canceled pid ≡ true
    → is_canceled (canceled ++ other ∷ []) pid ≡ true
unfolding is_canceled
is_canceled_more [] pid other e = cc e
is_canceled_more (c ∷ cs) pid other e = elim (Bool-cases (pid == c)) [
  | inl here ↦ rw here refl
  | inr there ↦ rw there (is_canceled_more cs pid other (rw there at e))
]

module _ (F : Fifo ℕ) where
  -- The kernel goes on by a tick, which comes at any registers, by the end of a process, or by a start
  -- that returns, at an address and with fuel for one process more in each queue.
  pub data Step (fuel : ℕ) (s : System F) : System F → Type 0 where
    switch :
        (e : Registers) {u : System F}
        → IsPlain e
        → tick_handler F e.eip (now_at F e s) ≡ jumped u
        → Step fuel s u
    stay :
        (e : Registers) {u : System F}
        → IsPlain e
        → tick_handler F e.eip (now_at F e s) ≡ returned u
        → Step fuel s u
    finish : (pid : ℕ) → Step fuel s (end_process F pid s)
    launch :
        (paging_fuel p : ℕ) (name : List ℕ) (priority : Priority) {n : ℕ} {u : System F}
        → 0 < p
        → length (system_list F s.scheduler) + 1 < fuel
        → length (regular_list F s.scheduler) + 1 < fuel
        → start_process F paging_fuel p name priority s ≡ some (n, u)
        → Step fuel s u

  pub data Reach (fuel : ℕ) (s : System F) : System F → Type 0 where
    here : Reach fuel s s
    later : {t u : System F} → Reach fuel s t → Step fuel t u → Reach fuel s u

  -- What a tick does at the registers `e` in `s`: it switches to a process with another id; or, with no
  -- process chosen, it goes back to where it came from, in the directory of the process that was
  -- current, ended or not; or it reads through the null pointer, where no process was current.
  abbrev pub SwitchesElsewhere : ℕ → Registers → System F → Ticked F → Type 0
  SwitchesElsewhere pid e s (jumped u) = u.cached.pid ≢ pid
  SwitchesElsewhere pid e s (returned u) =
      (0 < s.scheduler.current)
      × (u.scheduler.current ≡ 0)
      × (u.cpu.registers ≡ e)
      × (u.cpu.cr3 ≡ (s.tasks s.scheduler.current).directory)
  SwitchesElsewhere pid e s fault = s.scheduler.current ≡ 0
  SwitchesElsewhere pid e s out_of_fuel = ⊥

  record Ended (fuel pid : ℕ) (s : System F) : Type 0 where
    runnable : IsRunnable F fuel s
    ended : is_canceled s.scheduler.canceled pid ≡ true

  pub at-IsRunnable :
      (fuel : ℕ) (e : Registers) (s : System F)
      → IsRunnable F fuel s
      → IsRunnable F fuel (now_at F e s)
  at-IsRunnable fuel e s r = record { ready = r.ready; called = r.called; counted = r.counted }

  -- The scheduler does not choose it.
  chosen_other :
      (fuel ip pid : ℕ) (s u : System F) (t : Scheduler F)
      → Ended fuel pid s
      → Chooses F s.scheduler t
      → Switched F ip s t u
      → u.cached.pid ≢ pid
  chosen_other fuel ip pid s u t d c w e =
      elim (unended F s.scheduler.canceled s.scheduler.processes pid t.current d.ended
        (chosen-live F fuel s.scheduler t d.runnable.ready c)) [
          | inl z ↦ absurd (let pos = w.pos in omega (arith, pos, z))
          | inr ne ↦ ne (ap (λ i. i.pid) (sym w.cached) ∙ e)
        ]

  Outcome-Elsewhere :
      (fuel ip pid : ℕ) (e : Registers) (s : System F) (t : Scheduler F) (r : Ticked F)
      → Ended fuel pid (now_at F e s)
      → Chooses F s.scheduler t
      → Outcome F ip (now_at F e s) t r
      → SwitchesElsewhere pid e s r
  Outcome-Elsewhere fuel ip pid e s t (jumped u) d c w =
      chosen_other fuel ip pid (now_at F e s) u t d c w
  Outcome-Elsewhere fuel ip pid e s t (returned u) d c (none_chosen, pos, regs, dir, _, same, _) =
      (pos, ap (λ x. x.current) same ∙ none_chosen, regs, dir)
  Outcome-Elsewhere fuel ip pid e s t fault d c (_, none_current) = none_current
  Outcome-Elsewhere fuel ip pid e s t out_of_fuel d c out = out

  -- After a tick that did not switch.
  pub returned-IsRunnable :
      (fuel ip : ℕ) (s u : System F) (t : Scheduler F)
      → IsRunnable F fuel s
      → Chooses F s.scheduler t
      → Outcome F ip s t (returned u)
      → IsRunnable F fuel u
  returned-IsRunnable fuel ip s u t r c out = record {
    ready = rw (out.5) (Chooses-IsReady F fuel s.scheduler t r.ready c);
    called = out.6 ∙ r.called;
    counted = rw (out.5, c.4) (rw (out.0) r.counted);
  }

  finish-Ended :
      (fuel pid other : ℕ) (s : System F)
      → IsRunnable F fuel s
      → is_canceled (s.scheduler.canceled ++ other ∷ []) pid ≡ true
      → Ended fuel pid (end_process F other s)
  unfolding end_process signal_end
  finish-Ended fuel pid other s r e = record {
    runnable = record {
      ready = record {
        system_pos = r.ready.system_pos;
        regular_pos = r.ready.regular_pos;
        system_short = r.ready.system_short;
        regular_short = r.ready.regular_short;
      };
      called = r.called;
      counted = r.counted;
    };
    ended = e;
  }

  Step-Ended : (fuel pid : ℕ) (s u : System F) → Ended fuel pid s → Step fuel s u → Ended fuel pid u
  Step-Ended fuel pid s u d (switch e plain j) =
      let (t, c, out) =
        tick_handler-Outcome F fuel e.eip (now_at F e s) (at-IsRunnable fuel e s d.runnable)
          plain in
      let w : Switched F e.eip (now_at F e s) t u =
        subst (Outcome F e.eip (now_at F e s) t) j out in
      record {
        runnable =
            jump-IsRunnable F fuel e.eip (now_at F e s) u t (at-IsRunnable fuel e s d.runnable) c w;
        ended = rw (w.canceled, c.3) d.ended;
      }
  Step-Ended fuel pid s u d (stay e plain j) =
      let (t, c, out) =
        tick_handler-Outcome F fuel e.eip (now_at F e s) (at-IsRunnable fuel e s d.runnable)
          plain in
      let w : Outcome F e.eip (now_at F e s) t (returned u) =
        subst (Outcome F e.eip (now_at F e s) t) j out in
      record {
        runnable =
            returned-IsRunnable fuel e.eip (now_at F e s) u t (at-IsRunnable fuel e s d.runnable) c
              w;
        ended = rw (w.5, c.3) d.ended;
      }
  Step-Ended fuel pid s _ d (finish other) =
      finish-Ended fuel pid other s d.runnable
        (is_canceled_more s.scheduler.canceled pid other d.ended)
  Step-Ended fuel pid s u d (launch m p name priority pos sys reg e) =
      let (func, dir, space, is) = start_process_returned F m p _ name priority s u e in
      let (r, same) =
        started-IsRunnable F fuel p func dir priority space s pos sys reg d.runnable in
      rw is (record { runnable = r; ended = rw same d.ended })

  Reach-Ended :
      (fuel pid : ℕ) (s u : System F) → Ended fuel pid s → Reach fuel s u → Ended fuel pid u
  Reach-Ended fuel pid s _ d here = d
  Reach-Ended fuel pid s u d (later {t} r k) =
      Step-Ended fuel pid t u (Reach-Ended fuel pid s t d r) k

  -- Where the scheduler is the only callback, with fuel for its queues, and processes were counted an
  -- even number of times, a process is ended, and then the kernel goes on by any number of ticks at
  -- registers where `get_ip` does not give 0x12345, the mark of a resumed process, starts of processes
  -- and ends of processes, in any order. Each such tick that comes then, with enough fuel, does not
  -- switch to a process with that id: it switches to one with another id; or, where no process is
  -- chosen, it goes back to where it came from, in the directory of the process that was current, which
  -- may be the ended one; or, where no process was current either, it reads through the null pointer.
  pub end_process-Elsewhere :
      (fuel pid : ℕ) (e : Registers) (s u : System F)
      → IsRunnable F fuel s
      → Reach fuel (end_process F pid s) u
      → IsPlain e
      → SwitchesElsewhere pid e u (tick_handler F e.eip (now_at F e u))
  end_process-Elsewhere fuel pid e s u r reach plain =
      let d =
        Reach-Ended fuel pid (end_process F pid s) u
          (finish-Ended fuel pid pid s r (is_canceled-append s.scheduler.canceled pid)) reach in
      let (t, c, out) =
        tick_handler-Outcome F fuel e.eip (now_at F e u) (at-IsRunnable fuel e u d.runnable)
          plain in
      Outcome-Elsewhere fuel e.eip pid e u t _
        (record { runnable = at-IsRunnable fuel e u d.runnable; ended = d.ended }) c out
