-- ===== src/Processing.antt =====
-- kernel/kernel/process.cpp and kernel/include/kernel/processing.h: the processes over the scheduler
-- and the page directories. A process is its address, 0 is nullptr; the scheduler's memory has the fields of
-- KernelProcess that the scheduler uses and `tasks` the others. Names are the texts that
-- String::compare looks at. Where `new` puts an object is an argument. The registers of the processor
-- are in the state; the assembly of Initialize, which moves the stack, is not modelled.
pub mod Timer
pub mod Names
pub mod Tick
pub mod Resume
pub mod Started
pub mod Launched
pub mod Ended
pub mod Emptied
pub mod Booted
pub mod Stage
pub mod Shell
use juos.Prelude.{
  ℕ, zero, suc, ◌+◌, ◌*◌, ◌%◌, ◌^◌, Bool, true, false, ◌&&◌, Option, none, some, List, [], ◌∷◌,
  ◌++◌, ◌==◌, if◌then◌else◌, ltb, length, take, get_or,
}
use juos.Prelude.Maps.{update}
use juos.Prelude.Options.{◌>>=◌}
use juos.Prelude.Words.{add32, sub32}
use juos.Cstring.{strcmp}
use juos.Queue.Fifo.{Fifo}
use juos.Sched.{
  Priority, low, regular, high, critical, system, Process, Scheduler, add_item, signal_end,
  calculate_next, get_next,
}
use juos.Paging.Space.{
  Space, Mapping, create_directory, map_region_in, heap_start, heap_initial_size,
}

pub record Registers : Type 0 where
  pub eip : ℕ
  pub esp : ℕ
  pub ebp : ℕ

-- The fields of KernelProcess that the scheduler does not use; the input buffer is its address.
pub record Task : Type 0 where
  pub slice_size : ℕ
  pub directory : ℕ
  pub stack_begin : ℕ
  pub heap_begin : ℕ
  pub registers : Registers
  pub self_mappings : Option (List Mapping)
  pub input_buffer : ℕ

pub record RegisteredProcess : Type 0 where
  pub name : List ℕ
  pub func_ptr : ℕ

-- `_current_process_cached_info`: its two pointers lead into one process, 0 before there is one.
pub record CachedProcessInfo : Type 0 where
  pub pid : ℕ
  pub process : ℕ

-- The processor: the registers, and the address of the directory in `cr3`.
pub record Cpu : Type 0 where
  pub registers : Registers
  pub cr3 : ℕ

abbrev pub kernel_stack_begin : ℕ
kernel_stack_begin = 0xA0000000

abbrev pub kernel_stack_size : ℕ
kernel_stack_size = 0x01000000

-- The stack and the heap of a process.
abbrev pub process_mappings : List Mapping
process_mappings =
    record { start = 0xA0000000; stop = 0xA0010000 }
    ∷ record { start = heap_start; stop = heap_start + heap_initial_size }
    ∷ []

abbrev pub level : Priority → ℕ
level low = 0
level regular = 1
level high = 2
level critical = 3
level system = 4

-- The time a process gets.
abbrev pub slice_size_of : Priority → ℕ
slice_size_of priority = (level priority + 1) * 10

abbrev pub ap_cons : ℕ → Option (List ℕ) → Option (List ℕ)
ap_cons c none = none
ap_cons c (some cs) = some (c ∷ cs)

-- The bytes of `_proc_name_buffer` after the copy of 128 bytes from the name, as far as its end mark.
abbrev pub proc_name_buffer : List ℕ → List ℕ
proc_name_buffer name = take 128 (name ++ 0 ∷ [])

-- The text that starts there, up to its end mark; `none` is a read behind the buffer.
unfoldable pub text_of : List ℕ → Option (List ℕ)
text_of [] = none
text_of (c ∷ cs) = let rest = text_of cs in if c == 0 then some [] else ap_cons c rest

-- A memory with two texts, the first one at 0, each with its end mark.
abbrev pub text_memory : List ℕ → List ℕ → ℕ → ℕ
text_memory text other k = get_or (text ++ (0 ∷ (other ++ (0 ∷ [])))) k 0

abbrev pub is_zero : Option ℕ → Bool
is_zero none = false
is_zero (some n) = n == 0

-- `String::compare` of two texts, by `strcmp`.
unfoldable pub same_name : List ℕ → List ℕ → Bool
unfolding strcmp
same_name text other =
    is_zero (strcmp (length text + 1) (text_memory text other) 0 (length text + 1))

-- `find_if`, with the end as `none`.
unfoldable pub find_if {ℓ} : {A : Type ℓ} → (A → Bool) → List A → Option A
find_if q [] = none
find_if q (x ∷ xs) = if q x then some x else find_if q xs

module _ (F : Fifo ℕ) where
  pub record System : Type 0 where
    pub scheduler : Scheduler F
    pub tasks : ℕ → Task
    pub space : Space
    pub registered : List RegisteredProcess
    pub pid_seq : ℕ
    pub cached : CachedProcessInfo
    pub callbacks : List (Scheduler F → Option (Scheduler F))
    pub cpu : Cpu

  -- The constructor of KernelProcess for the object at `p`; a field that it leaves unset is 0.
  unfoldable pub construct : ℕ → Priority → System → System
  construct p priority s = record s {
    scheduler = record s.scheduler {
      processes =
          update s.scheduler.processes p
            (record { pid = s.pid_seq; priority = priority; times_ran = 0 });
    };
    tasks = update s.tasks p (record {
      slice_size = slice_size_of priority;
      directory = 0;
      stack_begin = 0;
      heap_begin = 0;
      registers = record { eip = 0; esp = 0; ebp = 0 };
      self_mappings = none;
      input_buffer = 0;
    });
    pid_seq = add32 s.pid_seq 1;
  }

  -- The directory of a new process: none without mappings.
  unfoldable pub new_directory : ℕ → Option (List Mapping) → System → Option (ℕ × System)
  unfolding create_directory
  new_directory fuel none s = some (0, s)
  new_directory fuel (some ms) s = do
    r ← create_directory fuel ms s.space
    some (r.0, record s { space = r.1 })

  -- The fields that `_NewProcess` sets, with the directory.
  abbrev pub set_up : ℕ → ℕ → ℕ → Option (List Mapping) → System → System
  set_up p start dir mappings s =
      let stack = kernel_stack_begin in
      record s {
        tasks = update s.tasks p (record (s.tasks p) {
          directory = dir;
          stack_begin = stack;
          heap_begin = heap_start;
          registers = record { eip = start; esp = stack + 0x1000; ebp = stack + 0x1000 };
          self_mappings = mappings;
        });
      }

  -- `_NewProcess` for the object at `p`.
  unfoldable pub new_process : ℕ → ℕ → ℕ → Priority → Option (List Mapping) → System → Option System
  unfolding construct new_directory
  new_process fuel p start priority mappings s = do
    r ← new_directory fuel mappings (construct p priority s)
    some (set_up p start r.0 mappings r.1)

  unfoldable pub register_process : List ℕ → ℕ → System → System
  register_process name func s = record s {
    registered = s.registered ++ record { name = name; func_ptr = func } ∷ [];
  }

  abbrev pub get_pid : System → ℕ
  get_pid s = s.cached.pid

  -- `GetInputBuffer`: before the first switch the pointer is null.
  abbrev pub get_input_buffer : System → Option ℕ
  get_input_buffer s =
      if s.cached.process == 0 then none else some (s.tasks s.cached.process).input_buffer

  -- `SelfProcessInit`, with the new buffer at `at`.
  unfoldable pub self_process_init : ℕ → System → Option System
  self_process_init at s =
      if s.cached.process == 0
      then none
      else some (record s {
        tasks =
            update s.tasks s.cached.process
              (record (s.tasks s.cached.process) { input_buffer = at });
      })

  -- `Start::Process` for a process at `p`, with the id that it returns. The kernel's directory is
  -- loaded meanwhile and the old one again at the end. A name that does not fit in the buffer with its
  -- end mark is read past it, and one that is not registered reads behind the registered ones: `none`.
  unfoldable pub start_process : ℕ → ℕ → List ℕ → Priority → System → Option (ℕ × System)
  unfolding new_process find_if add_item text_of same_name
  start_process fuel p name priority s = do
    text ← text_of (proc_name_buffer name)
    proc ← find_if (λ rp. same_name rp.name text) s.registered
    t ← new_process fuel p proc.func_ptr priority (some process_mappings) s
    some ((t.scheduler.processes p).pid, record t { scheduler = add_item F p t.scheduler })

  -- `End::Process`; the directory is changed meanwhile as in `Start::Process`.
  unfoldable pub end_process : ℕ → System → System
  unfolding signal_end
  end_process pid s = record s { scheduler = signal_end F pid s.scheduler }

  unfoldable pub add_callable_function : (Scheduler F → Option (Scheduler F)) → System → System
  add_callable_function func s = record s { callbacks = s.callbacks ++ func ∷ [] }

  -- The kernel's process gets the kernel's directory, the registers move to its stack, and it is
  -- added.
  abbrev pub entered : ℕ → ℕ → System → System
  entered p stack_top s =
      let offset = add32 (sub32 kernel_stack_begin stack_top) 0x1000 in
      let regs = s.cpu.registers in
      let dir = s.space.kernel_directory in
      record s {
        tasks = update s.tasks p (record (s.tasks p) { directory = dir });
        cpu = record {
          registers = record regs { esp = add32 regs.esp offset; ebp = add32 regs.ebp offset };
          cr3 = dir;
        };
        scheduler = add_item F p s.scheduler;
      }

  -- `Initialize` with the kernel's process at `p`, but for the copy of the old stack: the registers
  -- are moved to the new one.
  unfoldable pub initialize_processing :
      ℕ → ℕ → ℕ → (Scheduler F → Option (Scheduler F)) → ℕ → System → Option System
  unfolding new_process map_region_in add_item add_callable_function
  initialize_processing fuel p start callback stack_top s = do
    t ← new_process fuel p start system none s
    r ←
        map_region_in fuel kernel_stack_begin (kernel_stack_begin + kernel_stack_size)
          s.space.kernel_directory t.space
    some (add_callable_function callback (entered p stack_top (record t { space = r.1 })))
