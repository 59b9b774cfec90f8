-- ===== src/Processing/Tick.antt =====
-- kernel/kernel/timer.cpp, __tick_handler: what one tick does, with the scheduler's choice.
use juos.Prelude.{
  ℕ, ◌+◌, ◌%◌, ◌^◌, ◌<◌, ◌≡◌, refl, ◌∙◌, inl, inr, Bool, true, false, some, [], ◌∷◌, ◌==◌,
  if◌then◌else◌, lt→ltb, arith, Bool-cases,
}
use juos.Prelude.Maps.{update}
use juos.Queue.Fifo.{Fifo}
use juos.Sched.{Process, Scheduler, ran_again, calculate_next}
use juos.Sched.Next.{IsReady, Chooses, calculate_next-Chooses}
use juos.Processing.{Registers, System}
use juos.Processing.Timer.{
  Ticked, returned, jumped, fault, out_of_fuel, run_process_scheduler, call_all, save, resumed,
  switch_to, after_callbacks, tick_handler,
}

module _ (F : Fifo ℕ) where
  -- The only callback is the scheduler's, with fuel for its queues, and each process was counted an
  -- even number of times.
  pub record IsRunnable (fuel : ℕ) (s : System F) : Type 0 where
    pub ready : IsReady F fuel s.scheduler
    pub called : s.callbacks ≡ run_process_scheduler F fuel ∷ []
    pub counted : (p : ℕ) → (s.scheduler.processes p).times_ran % 2 ≡ 0

  -- Where a process continues: the one that the tick interrupts, behind `get_ip` on its stack.
  abbrev pub pending : ℕ → System F → ℕ → Registers
  pending ip s q =
      if s.scheduler.current == q
      then record { eip = ip; esp = s.cpu.registers.esp; ebp = s.cpu.registers.ebp }
      else (s.tasks q).registers

  -- The next process runs where it continues, in its directory, all others continue where they did,
  -- and the scheduler has chosen.
  pub record Switched (ip : ℕ) (s : System F) (t : Scheduler F) (u : System F) : Type 0 where
    pub pos : 0 < t.current
    pub running : u.cpu.registers ≡ pending ip s t.current
    pub directory : u.cpu.cr3 ≡ (s.tasks t.current).directory
    pub current : u.scheduler.current ≡ t.current
    pub cached :
        u.cached ≡ record { pid = (s.scheduler.processes t.current).pid; process = t.current }
    pub others : (q : ℕ) → 0 < q → (u.tasks q).registers ≡ pending ip s q
    pub directories : (q : ℕ) → (u.tasks q).directory ≡ (s.tasks q).directory
    pub system_queue : u.scheduler.system_processes ≡ t.system_processes
    pub regular_queue : u.scheduler.regular_processes ≡ t.regular_processes
    pub canceled : u.scheduler.canceled ≡ t.canceled
    pub pids : (q : ℕ) → (u.scheduler.processes q).pid ≡ (s.scheduler.processes q).pid
    pub counted : (q : ℕ) → (u.scheduler.processes q).times_ran % 2 ≡ 0
    pub callbacks : u.callbacks ≡ s.callbacks

  abbrev pub Outcome : ℕ → System F → Scheduler F → Ticked F → Type 0
  Outcome ip s t fault = (t.current ≡ 0) × (s.scheduler.current ≡ 0)
  Outcome ip s t (returned u) =
      (t.current ≡ 0)
      × (0 < s.scheduler.current)
      × (u.cpu.registers ≡ s.cpu.registers)
      × (u.cpu.cr3 ≡ (s.tasks s.scheduler.current).directory)
      × (u.tasks ≡ s.tasks)
      × (u.scheduler ≡ t)
      × (u.callbacks ≡ s.callbacks)
  Outcome ip s t (jumped u) = Switched ip s t u
  Outcome ip s t out_of_fuel = ⊥

  -- The state after the callbacks.
  abbrev chosen : System F → Scheduler F → System F
  chosen s t = record s { scheduler = t; cpu = record s.cpu { cr3 = s.space.kernel_directory } }

  call_all_one :
      (fuel : ℕ) (s : System F) (t : Scheduler F)
      → s.callbacks ≡ run_process_scheduler F fuel ∷ []
      → calculate_next F fuel s.scheduler ≡ some t
      → call_all F s.callbacks s.scheduler ≡ some t
  unfolding call_all
  call_all_one fuel s t called e = rw called (rw e)

  tick_handler_step :
      (ip : ℕ) (s : System F) (t : Scheduler F)
      → call_all F s.callbacks s.scheduler ≡ some t
      → tick_handler F ip s ≡ after_callbacks F ip s.scheduler.current (chosen s t)
  unfolding tick_handler
  tick_handler_step ip s t e = rw (e, tick_handler)

  switch_to-jumped :
      (q : ℕ) (s : System F)
      → (s.scheduler.processes q).times_ran % 2 ≡ 1
      → switch_to F q s ≡ jumped (resumed F q s)
  unfolding switch_to
  switch_to-jumped q s odd =
      let lt : 0 < (s.scheduler.processes q).times_ran % 2 ^ 32 = omega (arith, odd) in
      rw (lt→ltb 0 ((s.scheduler.processes q).times_ran % 2 ^ 32) lt)

  -- What the process before is saved with.
  abbrev interrupted : ℕ → System F → Registers
  interrupted ip s = record { eip = ip; esp = s.cpu.registers.esp; ebp = s.cpu.registers.ebp }

  -- The state that the next process is loaded from.
  abbrev saved_if : Bool → ℕ → System F → Scheduler F → System F
  saved_if true ip s t = chosen s t
  saved_if false ip s t = save F s.scheduler.current (interrupted ip s) (chosen s t)

  abbrev saved : ℕ → System F → Scheduler F → System F
  saved ip s t = saved_if (s.scheduler.current == 0) ip s t

  after_callbacks-none :
      (ip : ℕ) (s : System F) (t : Scheduler F)
      → t.current ≡ 0
      → Outcome ip s t (after_callbacks F ip s.scheduler.current (chosen s t))
  unfolding after_callbacks
  after_callbacks-none ip s t z = elim (Bool-cases (s.scheduler.current == 0)) [
    | inl e ↦ rw (z, e) (refl, ground arith)
    | inr e ↦ rw (z, e) (refl, ground arith, refl, refl, refl, refl, refl)
  ]

  after_callbacks-some :
      (ip : ℕ) (s : System F) (t : Scheduler F)
      → (t.current == 0) ≡ false
      → (ip == 0x12345) ≡ false
      → after_callbacks F ip s.scheduler.current (chosen s t) ≡ switch_to F t.current (saved ip s t)
  unfolding after_callbacks
  after_callbacks-some ip s t pos plain = elim (Bool-cases (s.scheduler.current == 0)) [
    | inl e ↦ rw (pos, e) refl
    | inr e ↦ rw (pos, e) (rw plain refl)
  ]

  -- The chosen process is counted once by the scheduler and once by the handler.
  counted_again :
      (ps : ℕ → Process) (q p : ℕ)
      → (ps q).times_ran % 2 ≡ 0
      → (ps p).times_ran % 2 ≡ 0
      → (update
            (ran_again ps q)
            q
            (record (ran_again ps q q) { times_ran = ((ran_again ps q q).times_ran + 1) % 2 ^ 64 })
            p).times_ran
          % 2
        ≡ 0
  counted_again ps q p even even' = ground arith

  same_pids :
      (ps : ℕ → Process) (q p n : ℕ)
      → (update (ran_again ps q) q (record (ran_again ps q q) { times_ran = n }) p).pid ≡ (ps p).pid
  same_pids ps q p n = ground arith

  ran_again_odd :
      (ps : ℕ → Process) (q : ℕ) → (ps q).times_ran % 2 ≡ 0 → (ran_again ps q q).times_ran % 2 ≡ 1
  ran_again_odd ps q even = ground arith

  resumed-Switched :
      (ip : ℕ) (s : System F) (t : Scheduler F) (b : Bool)
      → (s.scheduler.current == 0) ≡ b
      → 0 < t.current
      → t.processes ≡ ran_again s.scheduler.processes t.current
      → ((p : ℕ) → (s.scheduler.processes p).times_ran % 2 ≡ 0)
      → Switched ip s t (resumed F t.current (saved_if b ip s t))
  resumed-Switched ip s t true e pos memory even = record {
    pos = pos;
    running = ground arith;
    directory = refl;
    current = refl;
    cached = rw memory (ground arith);
    others = λ q h. ground arith;
    directories = λ q. refl;
    system_queue = refl;
    regular_queue = refl;
    canceled = refl;
    pids = λ q. rw memory (same_pids s.scheduler.processes t.current q _);
    counted =
        λ q. rw memory (counted_again s.scheduler.processes t.current q (even t.current) (even q));
    callbacks = refl;
  }
  resumed-Switched ip s t false e pos memory even = record {
    pos = pos;
    running = ground arith;
    directory = ground arith;
    current = refl;
    cached = rw memory (ground arith);
    others = λ q h. ground arith;
    directories = λ q. ground arith;
    system_queue = refl;
    regular_queue = refl;
    canceled = refl;
    pids = λ q. rw memory (same_pids s.scheduler.processes t.current q _);
    counted =
        λ q. rw memory (counted_again s.scheduler.processes t.current q (even t.current) (even q));
    callbacks = refl;
  }

  switch_to-saved :
      (ip : ℕ) (s : System F) (t : Scheduler F) (b : Bool)
      → t.processes ≡ ran_again s.scheduler.processes t.current
      → (s.scheduler.processes t.current).times_ran % 2 ≡ 0
      → switch_to F t.current (saved_if b ip s t) ≡ jumped (resumed F t.current (saved_if b ip s t))
  switch_to-saved ip s t true memory even =
      switch_to-jumped t.current (saved_if true ip s t)
        (rw memory (ran_again_odd s.scheduler.processes t.current even))
  switch_to-saved ip s t false memory even =
      switch_to-jumped t.current (saved_if false ip s t)
        (rw memory (ran_again_odd s.scheduler.processes t.current even))

  -- With the scheduler as the only callback, fuel for its queues and processes counted an even number
  -- of times, a tick where `get_ip` does not give 0x12345, the mark of a resumed process, has a result.
  -- The scheduler chooses. If it chooses no process, then the process that
  -- was interrupted goes on as before, in its directory; without one a null pointer is read. Else the
  -- handler jumps to where the chosen process continues, in its directory: where it was last
  -- interrupted, or at its start. The interrupted process is to continue behind the call of
  -- `get_ip`, each other process where it was to before, and each is again counted an even number of
  -- times.
  pub tick_handler-Outcome :
      (fuel ip : ℕ) (s : System F)
      → IsRunnable fuel s
      → (ip == 0x12345) ≡ false
      → (t : Scheduler F) × Chooses F s.scheduler t × Outcome ip s t (tick_handler F ip s)
  tick_handler-Outcome fuel ip s r plain =
      let (t, e, c) = calculate_next-Chooses F fuel s.scheduler r.ready in
      let step = tick_handler_step ip s t (call_all_one fuel s t r.called e) in
      (
        t,
        c,
        elim (Bool-cases (t.current == 0)) [
          | inl z ↦ rw step (after_callbacks-none ip s t (ground arith))
          | inr pos ↦
              let memory : t.processes ≡ ran_again s.scheduler.processes t.current =
                c.4 ∙ rw pos refl in
              rw
                (
                  step,
                  after_callbacks-some ip s t pos plain,
                  switch_to-saved ip s t (s.scheduler.current == 0) memory (r.counted t.current),
                )
                (resumed-Switched ip s t (s.scheduler.current == 0) refl (ground arith) memory
                  r.counted)
        ],
      )
