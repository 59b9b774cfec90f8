-- ===== src/Processing/Booted.antt =====
-- kernel/kernel/process.cpp, Processing::Initialize, and the first tick after it.
use juos.Prelude.{
  ℕ, ◌+◌, ◌%◌, ◌<◌, ◌≡◌, refl, sym, ◌∙◌, ap, subst, false, none, some, [], ◌∷◌, ◌==◌, arith,
}
use juos.Prelude.Maps.{update, update_self}
use juos.Prelude.Options.{◌>>=◌}
use juos.Queue.Fifo.{Fifo}
use juos.Sched.{system, is_canceled, add_item}
use juos.Sched.Next.{system_list, regular_list, dead}
use juos.Sched.Turns.{choose_first}
use juos.Paging.Space.{Space, map_region_in}
use juos.Processing.{
  Registers, Cpu, System, construct, new_directory, new_process, set_up, entered,
  initialize_processing, add_callable_function, kernel_stack_begin, kernel_stack_size,
}
use juos.Processing.Timer.{jumped, run_process_scheduler, tick_handler}
use juos.Processing.Tick.{IsRunnable, tick_handler-Outcome}
use juos.Processing.Started.{loaded_with, new_counted}
use juos.Processing.Resume.{Outcome-jumped}

module _ (F : Fifo ℕ) where
  -- The kernel before processes are initialised: nothing is queued, runs or is called by the timer.
  pub record IsIdle (s : System F) : Type 0 where
    pub no_system : system_list F s.scheduler ≡ []
    pub no_regular : regular_list F s.scheduler ≡ []
    pub none_runs : s.scheduler.current ≡ 0
    pub none_called : s.callbacks ≡ []
    pub unended : is_canceled s.scheduler.canceled s.pid_seq ≡ false
    pub counted : (q : ℕ) → (s.scheduler.processes q).times_ran % 2 ≡ 0

  -- The state before the process is added, and after.
  abbrev kernel_process : ℕ → ℕ → Space → System F → System F
  kernel_process p start space s = record (set_up F p start 0 none (construct F p system s)) {
    space = space;
  }

  abbrev queued : ℕ → ℕ → ℕ → Space → System F → System F
  queued fuel p start space s =
      let t = kernel_process p start space s in
      record t {
        scheduler = record t.scheduler {
          system_processes = F.enqueue t.scheduler.system_processes p;
        };
        tasks = update t.tasks p (record (t.tasks p) { directory = space.kernel_directory });
        callbacks = run_process_scheduler F fuel ∷ [];
      }

  -- The state that Initialize leaves; the registers are those of the old program on the new stack.
  abbrev booted : ℕ → ℕ → ℕ → ℕ → Space → System F → System F
  booted fuel p start stack_top space s =
      add_callable_function F (run_process_scheduler F fuel)
        (entered F p stack_top (kernel_process p start space s))

  initialize_processing_step :
      (paging_fuel fuel p start stack_top n : ℕ) (space : Space) (s : System F)
      → map_region_in paging_fuel kernel_stack_begin
          (kernel_stack_begin + kernel_stack_size)
          s.space.kernel_directory
          s.space
        ≡ some (n, space)
      → initialize_processing F paging_fuel p start (run_process_scheduler F fuel) stack_top s
        ≡ some (booted fuel p start stack_top space s)
  unfolding initialize_processing new_process new_directory construct
  initialize_processing_step paging_fuel fuel p start stack_top n space s e =
      ap (λ r. r >>= λ r. some (booted fuel p start stack_top r.1 s)) e

  booted-queued :
      (fuel p start stack_top : ℕ) (space : Space) (s : System F)
      → s.callbacks ≡ []
      → booted fuel p start stack_top space s
        ≡ record (queued fuel p start space s) { cpu = (booted fuel p start stack_top space s).cpu }
  unfolding add_item construct add_callable_function
  booted-queued fuel p start stack_top space s e =
      rw (update_self s.scheduler.processes p _) (rw e refl)

  -- What the first tick needs of a system with one process.
  record IsReadyFor (fuel p : ℕ) (r : Registers) (dir pid : ℕ) (t : System F) : Type 0 where
    runnable : IsRunnable F fuel t
    queue : system_list F t.scheduler ≡ p ∷ []
    live : dead F t.scheduler p ≡ false
    none_runs : t.scheduler.current ≡ 0
    registers : (t.tasks p).registers ≡ r
    directory : (t.tasks p).directory ≡ dir
    id : (t.scheduler.processes p).pid ≡ pid

  first_tick :
      (fuel p dir pid ip : ℕ) (r : Registers) (t : System F)
      → 0 < p
      → (ip == 0x12345) ≡ false
      → IsReadyFor fuel p r dir pid t
      → (u : System F) × (tick_handler F ip t ≡ jumped u)
        × (u.cpu ≡ record { registers = r; cr3 = dir })
        × (u.cached.pid ≡ pid)
  first_tick fuel p dir pid ip r t pos plain k =
      let (c, ch, out) = tick_handler-Outcome F fuel ip t k.runnable plain in
      let is = (choose_first F t.scheduler c p [] pos k.queue k.live ch).0 in
      let (u, e, w) = Outcome-jumped F ip t c _ (rw is pos) out in
      let other : (t.scheduler.current == p) ≡ false =
        let z = k.none_runs in ground (arith, pos, z) in
      (
        u,
        e,
        loaded_with u.cpu r dir (w.running ∙ rw is (rw other k.registers))
            (w.directory ∙ rw is k.directory),
        ap (λ i. i.pid) w.cached ∙ rw is k.id,
      )

  queued-IsReadyFor :
      (fuel p start : ℕ) (space : Space) (cpu : Cpu) (s : System F)
      → 0 < p
      → 1 < fuel
      → IsIdle s
      → IsReadyFor fuel p
          (record { eip = start; esp = 0xA0001000; ebp = 0xA0001000 })
          space.kernel_directory
          s.pid_seq
          (record (queued fuel p start space s) { cpu = cpu })
  unfolding construct
  queued-IsReadyFor fuel p start space cpu s pos lt idle =
      let one : F.to_list (F.enqueue s.scheduler.system_processes p) ≡ p ∷ [] =
        F.to_list-enqueue s.scheduler.system_processes p ∙ rw (idle.no_system) refl in
      record {
        runnable = record {
          ready = record {
            system_pos = rw one (pos, tt);
            regular_pos = rw (idle.no_regular) tt;
            system_short = rw one (omega (arith, lt));
            regular_short = rw (idle.no_regular) (omega (arith, lt));
          };
          called = refl;
          counted = λ q. new_counted s.scheduler.processes p q s.pid_seq system (idle.counted q);
        };
        queue = one;
        live =
            ap (is_canceled s.scheduler.canceled)
              (ap (λ x. x.pid) (update_self s.scheduler.processes p _))
            ∙ idle.unended;
        none_runs = idle.none_runs;
        registers = ground arith;
        directory = ground arith;
        id = ap (λ x. x.pid) (update_self s.scheduler.processes p _);
      }

  -- Where nothing is queued, runs or is called by the timer, the first id was not ended, processes were
  -- counted an even number of times, the stack's region can be mapped, the process has an address and
  -- the scheduler fuel for one entry: Initialize returns. The first tick, where `get_ip` does not give
  -- 0x12345, the mark of a resumed process, then jumps to the start of
  -- the kernel's process, with the empty stack, in the kernel's directory, and the process has the
  -- first id.
  pub initialize_processing-tick :
      (paging_fuel fuel p start stack_top n ip : ℕ) (space : Space) (s : System F)
      → 0 < p
      → 1 < fuel
      → IsIdle s
      → map_region_in paging_fuel kernel_stack_begin
          (kernel_stack_begin + kernel_stack_size)
          s.space.kernel_directory
          s.space
        ≡ some (n, space)
      → (ip == 0x12345) ≡ false
      → (t : System F) × (u : System F) × (initialize_processing F paging_fuel p start
            (run_process_scheduler F fuel)
            stack_top
            s
          ≡ some t)
        × (tick_handler F ip t ≡ jumped u)
        × (u.cpu ≡ record {
          registers = record { eip = start; esp = 0xA0001000; ebp = 0xA0001000 };
          cr3 = space.kernel_directory;
        })
        × (u.cached.pid ≡ s.pid_seq)
  initialize_processing-tick paging_fuel fuel p start stack_top n ip space s pos lt idle e plain =
      let t = booted fuel p start stack_top space s in
      let k =
        subst
          (IsReadyFor fuel p (record { eip = start; esp = 0xA0001000; ebp = 0xA0001000 })
            space.kernel_directory s.pid_seq)
          (sym (booted-queued fuel p start stack_top space s idle.none_called))
          (queued-IsReadyFor fuel p start space t.cpu s pos lt idle) in
      let (u, run, cpu, pid) =
        first_tick fuel p space.kernel_directory s.pid_seq ip _ t pos plain k in
      (
        t,
        u,
        initialize_processing_step paging_fuel fuel p start stack_top n space s e,
        run,
        cpu,
        pid,
      )
