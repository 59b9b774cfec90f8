-- ===== src/Tests/Processes.antt =====
-- The theorems on processes at three regular ones that take turns.
use juos.Prelude.{ℕ, ◌+◌, ◌*◌, ◌≤◌, ◌≡◌, refl, inr, false, none, some, [], ◌∷◌, ◌++◌, arith}
use juos.Sched.{Scheduler, high, is_canceled}
use juos.Sched.Next.{Chooses}
use juos.Paging.Space.{Space, machine_of, with_machine, create_directory}
use juos.Paging.Space.Created.{IsProcessDirectory, create_directory_lem}
use juos.Paging.Frames.{free_count-untaken}
use juos.Processing.{
  Registers, Task, RegisteredProcess, System, find_if, same_name, start_process, end_process,
  initialize_processing, process_mappings,
}
use juos.Processing.Timer.{jumped, returned, fault, run_process_scheduler, tick_handler}
use juos.Processing.Tick.{IsRunnable, Outcome, tick_handler-Outcome}
use juos.Processing.Resume.{TakesTurns, ticks, continues, ticks-continues, now_at}
use juos.Processing.Names.{AreBytes, find_if-same_name}
use juos.Processing.Launched.{IsNew, start_process-ticks}
use juos.Processing.Ended.{here, later, finish, SwitchesElsewhere, end_process-Elsewhere}
use juos.Processing.Emptied.{tick_handler-fault}
use juos.Tests.Scheduling.{list_fifo, memory}
use juos.Processing.Stage.{IsAlone, kernel_stage_2}
use juos.Processing.Shell.{kernel_stage_2-shell}
use juos.Processing.Booted.{IsIdle, initialize_processing-tick}
use juos.Paging.{Machine, map_region, mapped}
use juos.Paging.Space.Grown.{InPages, Grows}
use juos.Paging.Space.Aligned.{map_region-Grows}
use juos.Paging.Space.Mappings.{map_region_in_lem}
use juos.Tests.Spaces.{space, space-IsLinked}

abbrev at : ℕ → Registers
at n = record { eip = n; esp = n + 1; ebp = n + 2 }

abbrev task : ℕ → Task
task p = record {
  slice_size = 30;
  directory = p * 1000;
  stack_begin = 0xA0000000;
  heap_begin = 0xC0000000;
  registers = at (p * 100);
  self_mappings = none;
  input_buffer = 0;
}

abbrev shell : RegisteredProcess
shell = record { name = 115 ∷ 104 ∷ []; func_ptr = 5000 }

abbrev loop2 : RegisteredProcess
loop2 = record { name = 108 ∷ 50 ∷ []; func_ptr = 6000 }

abbrev kernel : System list_fifo
kernel = record {
  scheduler = record {
    system_processes = [];
    regular_processes = 3 ∷ 5 ∷ 7 ∷ [];
    canceled = [];
    processes = memory;
    current = 7;
  };
  tasks = task;
  space = space;
  registered = shell ∷ loop2 ∷ [];
  pid_seq = 9;
  cached = record { pid = 107; process = 7 };
  callbacks = run_process_scheduler list_fifo 9 ∷ [];
  cpu = record { registers = at 4000; cr3 = 7000 };
}

kernel-IsRunnable : IsRunnable list_fifo 9 kernel
kernel-IsRunnable = record {
  ready = record {
    system_pos = tt;
    regular_pos = (omega arith, (omega arith, (omega arith, tt)));
    system_short = omega arith;
    regular_short = omega arith;
  };
  called = refl;
  counted = λ p. refl;
}

kernel-TakesTurns : TakesTurns list_fifo 9 (3 ∷ 5 ∷ 7 ∷ []) kernel
unfolding is_canceled
kernel-TakesTurns = record {
  runnable = kernel-IsRunnable;
  no_system = refl;
  queue = refl;
  live = (refl, (refl, (refl, tt)));
}

tick_handler-Outcome_example :
    (t : Scheduler list_fifo) × Chooses list_fifo kernel.scheduler t
    × Outcome list_fifo 4444 kernel t (tick_handler list_fifo 4444 kernel)
tick_handler-Outcome_example = tick_handler-Outcome list_fifo 9 4444 kernel kernel-IsRunnable refl

-- The process 7 runs, and goes on after the turns of the others.
ticks-continues_example :
    (u : System list_fifo) × (ticks list_fifo (at 70 ∷ at 30 ∷ at 50 ∷ []) kernel ≡ some u)
    × (u.scheduler.current ≡ 7)
    × (u.cpu.registers ≡ continues list_fifo (at 70) kernel 7)
    × (u.cpu.cr3 ≡ 7000)
    × TakesTurns list_fifo 9 ([] ++ ((3 ∷ 5 ∷ []) ++ 7 ∷ [])) u
ticks-continues_example =
    ticks-continues list_fifo 9 7 (3 ∷ 5 ∷ []) [] (at 70) (at 30 ∷ at 50 ∷ []) kernel
      kernel-TakesTurns (omega arith, (omega arith, tt)) refl (refl, (refl, (refl, tt)))

shell-AreBytes : AreBytes shell.name
shell-AreBytes = (omega arith, omega arith, (omega arith, omega arith, tt))

loop2-AreBytes : AreBytes loop2.name
loop2-AreBytes = (omega arith, omega arith, (omega arith, omega arith, tt))

find_if-same_name_example :
    (find_if (λ r. same_name r.name (108 ∷ 50 ∷ [])) ((shell ∷ []) ++ loop2 ∷ []) ≡ some loop2)
    × (find_if (λ r. same_name r.name (108 ∷ 50 ∷ [])) (shell ∷ []) ≡ none)
find_if-same_name_example =
    find_if-same_name (108 ∷ 50 ∷ []) (shell ∷ []) [] loop2 loop2-AreBytes
      ((λ e. cc e), shell-AreBytes, tt) refl

end_process-Elsewhere_example :
    let ended = end_process list_fifo 105 (end_process list_fifo 103 kernel) in
    SwitchesElsewhere list_fifo 103
      (at 70)
      ended
      (tick_handler list_fifo (at 70).eip (now_at list_fifo (at 70) ended))
end_process-Elsewhere_example =
    end_process-Elsewhere list_fifo 9 103 (at 70) kernel
      (end_process list_fifo 105 (end_process list_fifo 103 kernel)) kernel-IsRunnable
      (later here (finish 105)) refl

-- Every process was ended.
abbrev all_ended : System list_fifo
all_ended = record kernel {
  scheduler = record kernel.scheduler { canceled = 103 ∷ 105 ∷ 107 ∷ [] };
}

all_ended-IsRunnable : IsRunnable list_fifo 9 all_ended
all_ended-IsRunnable = record {
  ready = record {
    system_pos = tt;
    regular_pos = (omega arith, (omega arith, (omega arith, tt)));
    system_short = omega arith;
    regular_short = omega arith;
  };
  called = refl;
  counted = λ p. refl;
}

tick_handler-fault_example :
    (u : System list_fifo) × (tick_handler list_fifo 70 (now_at list_fifo (at 70) all_ended)
      ≡ returned u)
    × (u.cpu ≡ record { registers = at 70; cr3 = 7000 })
    × (tick_handler list_fifo 71 (now_at list_fifo (at 71) u) ≡ fault)
unfolding is_canceled
tick_handler-fault_example =
    tick_handler-fault list_fifo 9 (at 70) (at 71) all_ended all_ended-IsRunnable refl refl
      (omega arith) tt (refl, (refl, (refl, tt)))

-- The directory of a new process.
abbrev made :
    (at : ℕ) × (s : Space) × (create_directory 2000000 process_mappings space ≡ some (at, s))
    × (20480 ≤ at)
    × IsProcessDirectory at process_mappings space s
made =
    create_directory_lem 2000000 process_mappings space (omega arith)
      (
        (omega arith, refl, omega arith, refl, omega arith),
        ((omega arith, refl, omega arith, refl, omega arith), tt),
      )
      space-IsLinked (omega arith) (omega arith) (omega (arith, free_count-untaken 5000))

kernel-IsNew : IsNew list_fifo 9 11 (3 ∷ 5 ∷ 7 ∷ []) kernel
unfolding is_canceled
kernel-IsNew = record {
  pos = omega arith;
  apart = ((λ e. omega (arith, e)), ((λ e. omega (arith, e)), ((λ e. omega (arith, e)), tt)));
  idle = λ e. omega (arith, e);
  unended = refl;
  short = omega arith;
}

start_process-ticks_example :
    (t : System list_fifo) × (u : System list_fifo) × (start_process list_fifo 2000000 11
        (108 ∷ 50 ∷ [])
        high
        kernel
      ≡ some (9, t))
    × (t.pid_seq ≡ 10)
    × TakesTurns list_fifo 9 (3 ∷ 5 ∷ 7 ∷ 11 ∷ []) t
    × (ticks list_fifo (at 70 ∷ at 30 ∷ at 50 ∷ at 71 ∷ []) t ≡ some u)
    × (u.scheduler.current ≡ 11)
    × (u.cpu ≡ record {
      registers = record { eip = 6000; esp = 0xA0001000; ebp = 0xA0001000 };
      cr3 = made.0;
    })
    × TakesTurns list_fifo 9 (3 ∷ 5 ∷ 7 ∷ 11 ∷ []) u
start_process-ticks_example =
    start_process-ticks list_fifo 9 2000000 11 made.0 (108 ∷ 50 ∷ []) high (shell ∷ []) [] loop2
      made.1 (3 ∷ 5 ∷ 7 ∷ []) (at 70) (at 30 ∷ at 50 ∷ at 71 ∷ []) kernel kernel-TakesTurns
      kernel-IsNew (omega arith, loop2-AreBytes) refl ((λ e. cc e), shell-AreBytes, tt) refl refl
      made.2 refl (refl, (refl, (refl, (refl, tt))))

-- Before processes are initialised.
abbrev idle : System list_fifo
idle = record kernel {
  scheduler = record kernel.scheduler { regular_processes = []; current = 0 };
  callbacks = [];
  pid_seq = 1;
}

idle-IsIdle : IsIdle list_fifo idle
unfolding is_canceled
idle-IsIdle = record {
  no_system = refl;
  no_regular = refl;
  none_runs = refl;
  none_called = refl;
  unended = refl;
  counted = λ q. refl;
}

abbrev stack_mapped :
    (k : Machine) × (map_region 5000 0 0xA0000000 0xA1000000 (machine_of 4096 space)
      ≡ mapped (0 + 4096) k)
    × Grows (InPages 4096 0xA0000000) 4096 (machine_of 4096 space) k
stack_mapped =
    map_region-Grows 4096 5000 0 0xA0000000 0xA1000000 (machine_of 4096 space) (omega arith) refl
      (omega arith) (omega arith) refl
      (record {
        settled = inr refl;
        linked = space-IsLinked;
        heap = omega arith;
        room = omega arith;
        frames = omega (arith, free_count-untaken 5000);
      })

initialize_processing-tick_example :
    (t : System list_fifo) × (u : System list_fifo) × (initialize_processing list_fifo 5000 11
        0x101000
        (run_process_scheduler list_fifo 9)
        0x9000
        idle
      ≡ some t)
    × (tick_handler list_fifo 4444 t ≡ jumped u)
    × (u.cpu ≡ record {
      registers = record { eip = 0x101000; esp = 0xA0001000; ebp = 0xA0001000 };
      cr3 = 4096;
    })
    × (u.cached.pid ≡ 1)
initialize_processing-tick_example =
    initialize_processing-tick list_fifo 5000 9 11 0x101000 0x9000 4096 4444
      (with_machine 4096 stack_mapped.0 space) idle (omega arith) (omega arith) idle-IsIdle
      (map_region_in_lem 5000 4096 0xA0000000 0xA1000000 4096 stack_mapped.0 space (omega arith)
        stack_mapped.1)
      refl

-- The kernel's process 3 runs alone.
abbrev alone : System list_fifo
alone = record kernel {
  scheduler = record kernel.scheduler {
    system_processes = 3 ∷ [];
    regular_processes = [];
    current = 3;
  };
  registered = [];
  cached = record { pid = 103; process = 3 };
}

alone-IsAlone : IsAlone list_fifo 9 3 alone
unfolding is_canceled
alone-IsAlone = record {
  runnable = record {
    ready = record {
      system_pos = (omega arith, tt);
      regular_pos = tt;
      system_short = omega arith;
      regular_short = omega arith;
    };
    called = refl;
    counted = λ p. refl;
  };
  pos = omega arith;
  system_queue = refl;
  regular_queue = refl;
  runs = refl;
  cached = refl;
  registered = refl;
  unended = refl;
  other_id = λ e. omega (arith, e);
}

kernel_stage_2-shell_example :
    (t : System list_fifo) × (u : System list_fifo) × (kernel_stage_2 list_fifo 2000000 0xC0000010
        11 5000 6000 false alone
      ≡ some t)
    × (tick_handler list_fifo 70 (now_at list_fifo (at 70) t) ≡ jumped u)
    × (u.cpu ≡ record {
      registers = record { eip = 5000; esp = 0xA0001000; ebp = 0xA0001000 };
      cr3 = made.0;
    })
    × (u.cached.pid ≡ 9)
    × (u.scheduler.system_processes ≡ [])
    × (u.scheduler.regular_processes ≡ 11 ∷ [])
kernel_stage_2-shell_example =
    kernel_stage_2-shell list_fifo 9 2000000 0xC0000010 3 11 made.0 5000 6000 (at 70) made.1 alone
      alone-IsAlone (omega arith) (λ e. omega (arith, e)) (omega arith) refl made.2
