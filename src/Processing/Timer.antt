-- ===== src/Processing/Timer.antt =====
-- kernel/kernel/timer.cpp: the timer's tick, which switches between processes. The registers that it
-- saves and loads are those of the state. `get_ip` gives its own return address, which is an argument;
-- a switch comes back to that address with another value, for which the handler returns.
use juos.Prelude.{ℕ, ◌+◌, ◌%◌, ◌^◌, Option, none, some, List, [], ◌∷◌, ◌==◌, if◌then◌else◌, ltb}
use juos.Prelude.Maps.{update}
use juos.Prelude.Options.{◌>>=◌}
use juos.Queue.Fifo.{Fifo}
use juos.Sched.{Scheduler, calculate_next, get_next}
use juos.Processing.{Registers, System}

module _ (F : Fifo ℕ) where
  -- `run_process_scheduler`
  abbrev pub run_process_scheduler : ℕ → Scheduler F → Option (Scheduler F)
  run_process_scheduler fuel s = calculate_next F fuel s

  unfoldable pub call_all :
      List (Scheduler F → Option (Scheduler F)) → Scheduler F → Option (Scheduler F)
  call_all [] s = some s
  call_all (func ∷ fs) s = do t ← func s; call_all fs t

  -- How a tick ends: in the handler, which returns, or with a jump into a process. A null pointer
  -- that is read is a fault.
  pub data Ticked : Type 0 where
    returned : System F → Ticked
    jumped : System F → Ticked
    fault : Ticked
    out_of_fuel : Ticked

  abbrev pub save : ℕ → Registers → System F → System F
  save p now s = record s { tasks = update s.tasks p (record (s.tasks p) { registers = now }) }

  -- The state once the next process's stack and directory are loaded and its run is counted.
  abbrev pub loaded : ℕ → System F → System F
  loaded next s =
      let process = s.scheduler.processes next in
      let task = s.tasks next in
      let counted = record process { times_ran = (process.times_ran + 1) % 2 ^ 64 } in
      record s {
        cached = record { pid = process.pid; process = next };
        scheduler = record s.scheduler { processes = update s.scheduler.processes next counted };
        cpu = record {
          registers = record s.cpu.registers { esp = task.registers.esp; ebp = task.registers.ebp };
          cr3 = task.directory;
        };
      }

  -- And after the jump.
  abbrev pub resumed : ℕ → System F → System F
  resumed next s =
      let task = s.tasks next in
      record (loaded next s) { cpu = record { registers = task.registers; cr3 = task.directory } }

  -- The end of the handler. The jump leads behind the call of `get_ip` in the handler that the next
  -- process was in, or to the start of a process.
  unfoldable pub switch_to : ℕ → System F → Ticked
  switch_to next s =
      let next_times_ran = (s.scheduler.processes next).times_ran % 2 ^ 32 in
      if ltb 0 next_times_ran then jumped (resumed next s) else returned (loaded next s)

  -- What follows the callbacks, for the process that ran before; `ip` is what `get_ip` gives.
  unfoldable pub after_callbacks : ℕ → ℕ → System F → Ticked
  unfolding switch_to
  after_callbacks ip current s =
      let next = get_next F s.scheduler in
      let regs = s.cpu.registers in
      if next == 0
      then (if current == 0
          then fault
          else returned (record s { cpu = record (s.cpu) { cr3 = (s.tasks current).directory } }))
      else if current == 0
      then switch_to next s
      else if ip == 0x12345
      then returned
          (save current (record (s.tasks current).registers { esp = regs.esp; ebp = regs.ebp }) s)
      else switch_to next (save current (record { eip = ip; esp = regs.esp; ebp = regs.ebp }) s)

  -- `__tick_handler`
  unfoldable pub tick_handler : ℕ → System F → Ticked
  unfolding after_callbacks call_all
  tick_handler ip s =
      let current = s.scheduler.current in
      elim (call_all s.callbacks s.scheduler) [
        | none ↦ out_of_fuel
        | some sched ↦ after_callbacks ip current (record s {
          scheduler = sched;
          cpu = record (s.cpu) { cr3 = s.space.kernel_directory };
        })
      ]
