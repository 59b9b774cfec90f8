-- ===== src/Processing/Resume.antt =====
-- kernel/kernel/timer.cpp: many ticks in a row, each with what the interrupted program has in the
-- registers by then. While no system process is queued the regular ones take turns.
use juos.Prelude.{
  ℕ, ◌<◌, ◌≡◌, ◌≢◌, refl, ◌∙◌, subst, Bool, false, Option, none, some, List, [], ◌∷◌, ◌++◌, ◌==◌,
  if◌then◌else◌, length, arith, append_assoc,
}
use juos.Queue.Fifo.{Fifo}
use juos.Sched.{Scheduler}
use juos.Sched.Rotate.{AllPos}
use juos.Sched.Next.{Chooses, system_list, regular_list, dead}
use juos.Sched.Turns.{AllLive, Chooses-IsReady, choose_regular}
use juos.Processing.{Registers, System}
use juos.Processing.Timer.{Ticked, returned, jumped, fault, out_of_fuel, tick_handler}
use juos.Processing.Tick.{IsRunnable, Switched, Outcome, tick_handler-Outcome}

-- The process is not among those.
abbrev pub IsNotIn : ℕ → List ℕ → Type 0
IsNotIn p [] = Unit
IsNotIn p (x ∷ xs) = (x ≢ p) × IsNotIn p xs

-- The value that `get_ip` gives after a switch is not an address of the handler.
abbrev pub IsPlain : Registers → Type 0
IsPlain e = (e.eip == 0x12345) ≡ false

abbrev pub AllPlain : List Registers → Type 0
AllPlain [] = Unit
AllPlain (e ∷ es) = IsPlain e × AllPlain es

module _ (F : Fifo ℕ) where
  -- The running program has come to these registers.
  abbrev pub now_at : Registers → System F → System F
  now_at e s = record s { cpu = record s.cpu { registers = e } }

  -- Ticks that each switch.
  unfoldable pub ticks : List Registers → System F → Option (System F)
  ticks [] s = some s
  ticks (e ∷ es) s = elim (tick_handler F e.eip (now_at e s)) [
    | jumped u ↦ ticks es u
    | returned u ↦ none
    | fault ↦ none
    | out_of_fuel ↦ none
  ]

  -- Where a process continues if the running one is interrupted at `e`.
  abbrev pub continues : Registers → System F → ℕ → Registers
  continues e s q = if s.scheduler.current == q then e else (s.tasks q).registers

  -- The regular processes `q` take turns.
  pub record TakesTurns (fuel : ℕ) (q : List ℕ) (s : System F) : Type 0 where
    pub runnable : IsRunnable F fuel s
    pub no_system : system_list F s.scheduler ≡ []
    pub queue : regular_list F s.scheduler ≡ q
    pub live : AllLive (dead F s.scheduler) q

  -- What one of these ticks does.
  record Turned (e : Registers) (x : ℕ) (s u : System F) : Type 0 where
    current : u.scheduler.current ≡ x
    running : u.cpu.registers ≡ continues e s x
    directory : u.cpu.cr3 ≡ (s.tasks x).directory
    others : (p : ℕ) → 0 < p → (u.tasks p).registers ≡ continues e s p
    directories : (p : ℕ) → (u.tasks p).directory ≡ (s.tasks p).directory

  live-snoc :
      (dead : ℕ → Bool) (x : ℕ) (xs : List ℕ) → AllLive dead (x ∷ xs) → AllLive dead (xs ++ x ∷ [])
  live-snoc dead x [] live = live
  live-snoc dead x (y ∷ xs) live = (live.1.0, live-snoc dead x xs (live.0, live.1.1))

  live_same :
      (d d' : ℕ → Bool) (xs : List ℕ) → ((p : ℕ) → d' p ≡ d p) → AllLive d xs → AllLive d' xs
  live_same d d' [] same live = tt
  live_same d d' (x ∷ xs) same live = (same x ∙ live.0, live_same d d' xs same live.1)

  -- A tick that chooses a process jumps.
  pub Outcome-jumped :
      (ip : ℕ) (s : System F) (t : Scheduler F) (r : Ticked F)
      → 0 < t.current
      → Outcome F ip s t r
      → (u : System F) × (r ≡ jumped u) × Switched F ip s t u
  Outcome-jumped ip s t (jumped u) pos out = (u, refl, out)
  Outcome-jumped ip s t (returned u) pos out = absurd (omega (arith, pos, out.0))
  Outcome-jumped ip s t fault pos out = absurd (omega (arith, pos, out.0))
  Outcome-jumped ip s t out_of_fuel pos out = absurd out

  pub jump-IsRunnable :
      (fuel ip : ℕ) (s u : System F) (t : Scheduler F)
      → IsRunnable F fuel s
      → Chooses F s.scheduler t
      → Switched F ip s t u
      → IsRunnable F fuel u
  jump-IsRunnable fuel ip s u t r c w =
      let ready = Chooses-IsReady F fuel s.scheduler t r.ready c in
      record {
        ready = record {
          system_pos = rw (w.system_queue) ready.system_pos;
          regular_pos = rw (w.regular_queue) ready.regular_pos;
          system_short = rw (w.system_queue) ready.system_short;
          regular_short = rw (w.regular_queue) ready.regular_short;
        };
        called = w.callbacks ∙ r.called;
        counted = w.counted;
      }

  dead_same :
      (ip p : ℕ) (s u : System F) (t : Scheduler F)
      → Chooses F s.scheduler t
      → Switched F ip s t u
      → dead F u.scheduler p ≡ dead F s.scheduler p
  dead_same ip p s u t c w = rw (w.canceled, c.3, w.pids p) refl

  jump :
      (fuel x : ℕ) (xs : List ℕ) (e : Registers) (s u : System F) (t : Scheduler F)
      → TakesTurns fuel (x ∷ xs) s
      → Chooses F s.scheduler t
      → Switched F e.eip (now_at e s) t u
      → TakesTurns fuel (xs ++ x ∷ []) u × Turned e x s u
  jump fuel x xs e s u t k c w =
      let pos : 0 < x = (subst AllPos k.queue k.runnable.ready.regular_pos).0 in
      let (is, none_of, next) =
        choose_regular F s.scheduler t x xs pos k.no_system k.queue k.live.0 c in
      (
        record {
          runnable =
              jump-IsRunnable fuel e.eip (now_at e s) u t
                (record {
                  ready = k.runnable.ready;
                  called = k.runnable.called;
                  counted = k.runnable.counted;
                })
                c w;
          no_system = rw (w.system_queue) none_of;
          queue = rw (w.regular_queue) next;
          live =
              live_same (dead F s.scheduler) (dead F u.scheduler) (xs ++ x ∷ [])
                (λ p. dead_same e.eip p (now_at e s) u t c w)
                (live-snoc (dead F s.scheduler) x xs k.live);
        },
        record {
          current = w.current ∙ is;
          running = w.running ∙ rw is;
          directory = w.directory ∙ rw is;
          others = w.others;
          directories = w.directories;
        },
      )

  turn :
      (fuel x : ℕ) (xs : List ℕ) (e : Registers) (s : System F)
      → TakesTurns fuel (x ∷ xs) s
      → IsPlain e
      → (u : System F) × (tick_handler F e.eip (now_at e s) ≡ jumped u)
        × TakesTurns fuel (xs ++ x ∷ []) u
        × Turned e x s u
  turn fuel x xs e s k plain =
      let r : IsRunnable F fuel (now_at e s) = record {
        ready = k.runnable.ready;
        called = k.runnable.called;
        counted = k.runnable.counted;
      } in
      let (t, c, out) = tick_handler-Outcome F fuel e.eip (now_at e s) r plain in
      let pos : 0 < x = (subst AllPos k.queue k.runnable.ready.regular_pos).0 in
      let is = (choose_regular F s.scheduler t x xs pos k.no_system k.queue k.live.0 c).0 in
      let (u, e', w) = Outcome-jumped e.eip (now_at e s) t _ (rw is pos) out in
      let (k', w') = jump fuel x xs e s u t k c w in (u, e', k', w')

  turn_first :
      (e : Registers) (es : List Registers) (s u v : System F)
      → tick_handler F e.eip (now_at e s) ≡ jumped u
      → ticks es u ≡ some v
      → ticks (e ∷ es) s ≡ some v
  unfolding ticks
  turn_first e es s u v first rest = rw (first, ticks) rest

  passed_on :
      (e e' : Registers) (x p : ℕ) (s u : System F)
      → Turned e x s u
      → x ≢ p
      → 0 < p
      → continues e' u p ≡ continues e s p
  passed_on e e' x p s u w apart pos =
      let other : (x == p) ≡ false = ground arith in rw (w.current) (rw other (w.others p pos))

  queued_pos : (xs ys : List ℕ) (p : ℕ) → AllPos (xs ++ p ∷ ys) → 0 < p
  queued_pos [] ys p pos = pos.0
  queued_pos (x ∷ xs) ys p pos = queued_pos xs ys p pos.1

  -- Where the regular processes take turns, none of them canceled, a process `p` stands behind the
  -- others `xs`, and there is a tick for each of them and for `p`, at registers where `get_ip` does not
  -- give 0x12345, the mark of a resumed process: all ticks switch, the last one to
  -- `p`, in its directory, and the processes are then queued in the order of their next turns. If
  -- `p` was running when the first tick came it goes on with the very registers that it had then,
  -- whatever the other programs had in theirs; else with those that it was set up with.
  pub ticks-continues :
      (fuel p : ℕ) (xs ys : List ℕ) (e : Registers) (es : List Registers) (s : System F)
      → TakesTurns fuel (xs ++ p ∷ ys) s
      → IsNotIn p xs
      → length es ≡ length xs
      → AllPlain (e ∷ es)
      → (u : System F) × (ticks (e ∷ es) s ≡ some u)
        × (u.scheduler.current ≡ p)
        × (u.cpu.registers ≡ continues e s p)
        × (u.cpu.cr3 ≡ (s.tasks p).directory)
        × TakesTurns fuel (ys ++ (xs ++ p ∷ [])) u
  unfolding ticks
  ticks-continues fuel p [] ys e [] s k apart size plain =
      let (u, step, k', w) = turn fuel p ys e s k plain.0 in
      (u, turn_first e [] s u u step refl, w.current, w.running, w.directory, k')
  ticks-continues fuel p [] ys e (e' ∷ es) s k apart size plain = absurd (omega (arith, size))
  ticks-continues fuel p (x ∷ xs) ys e [] s k apart size plain = absurd (omega (arith, size))
  ticks-continues fuel p (x ∷ xs) ys e (e' ∷ es) s k apart size plain =
      let (u, step, k', w) = turn fuel x (xs ++ p ∷ ys) e s k plain.0 in
      let (v, rest, is, regs, dir, last) =
        ticks-continues fuel p xs (ys ++ x ∷ []) e' es u
          (subst (λ q. TakesTurns fuel q u) (append_assoc xs (p ∷ ys) (x ∷ [])) k') apart.1
          (omega (arith, size)) plain.1 in
      (
        v,
        turn_first e (e' ∷ es) s u v step rest,
        is,
        regs
            ∙ passed_on e e' x p s u w apart.0
                (queued_pos (x ∷ xs) ys p (subst AllPos k.queue k.runnable.ready.regular_pos)),
        dir ∙ w.directories p,
        subst (λ q. TakesTurns fuel q v) (append_assoc ys (x ∷ []) (xs ++ p ∷ [])) last,
      )
