-- ===== src/Sched.antt =====
-- kernel/kernel/schedualer.cpp and kernel/include/kernel/schedualer.h: the process scheduler, over
-- any first-in first-out queue. A process is its address, 0 is nullptr, and `processes` is the
-- memory that the addresses lead to, with the fields of KernelProcess that the scheduler uses.
-- `_canceled_processes` is a list in the order of its `push_back`s. What a queue's `top` gives on an
-- empty queue is never read, and the register argument of the callbacks is not used by the code.
pub mod Rotate
pub mod Next
pub mod Turns
use juos.Prelude.{
  ℕ, zero, suc, ◌+◌, ◌%◌, ◌^◌, Bool, true, false, ◌||◌, Option, none, some, List, [], ◌∷◌, ◌++◌,
  ◌==◌, if◌then◌else◌,
}
use juos.Prelude.Maps.{update}
use juos.Queue.Fifo.{Fifo}

pub data Priority : Type 0 where
  low regular high critical system : Priority

pub record Process : Type 0 where
  pub pid : ℕ
  pub priority : Priority
  pub times_ran : ℕ

abbrev pub is_system : Priority → Bool
is_system system = true
is_system _ = false

-- `_IsCanceled`
unfoldable pub is_canceled : List ℕ → ℕ → Bool
is_canceled [] pid = false
is_canceled (c ∷ cs) pid = pid == c || is_canceled cs pid

abbrev pub ran_again : (ℕ → Process) → ℕ → ℕ → Process
ran_again ps p = update ps p (record (ps p) { times_ran = ((ps p).times_ran + 1) % 2 ^ 64 })

module _ (F : Fifo ℕ) where
  pub record Scheduler : Type 0 where
    pub system_processes : F.State
    pub regular_processes : F.State
    pub canceled : List ℕ
    pub processes : ℕ → Process
    pub current : ℕ

  pub record Found : Type 0 where
    pub next : ℕ
    pub queue : F.State
    pub memory : ℕ → Process

  -- What `top` returns; 0 stands for what an empty queue would give.
  abbrev top_or_null : F.State → ℕ
  top_or_null q = elim (F.top q) [ none ↦ 0 | some p ↦ p ]

  -- The rounds of the `while` of `_FindProcess`; `none` is out of fuel.
  unfoldable pub find_process : ℕ → List ℕ → (ℕ → Process) → F.State → Option Found
  unfolding is_canceled
  find_process zero canceled ps q = none
  find_process (suc fuel) canceled ps q = elim (F.isempty q) [
    | true ↦ some (record { next = 0; queue = q; memory = ps })
    | false ↦ elim (is_canceled canceled (ps (top_or_null q)).pid) [
      | true ↦ find_process fuel canceled ps (F.dequeue q)
      | false ↦ some (record {
        next = top_or_null q;
        queue = F.enqueue (F.dequeue q) (top_or_null q);
        memory = ran_again ps (top_or_null q);
      })
    ]
  ]

  unfoldable pub add_item : ℕ → Scheduler → Scheduler
  add_item p s =
      if is_system (s.processes p).priority
      then record s { system_processes = F.enqueue s.system_processes p }
      else record s { regular_processes = F.enqueue s.regular_processes p }

  abbrev pub get_next : Scheduler → ℕ
  get_next s = s.current

  unfoldable pub signal_end : ℕ → Scheduler → Scheduler
  signal_end pid s = record s { canceled = s.canceled ++ pid ∷ [] }

  -- The second search, made when the first found nothing.
  regular_next : ℕ → Scheduler → Found → Option Scheduler
  regular_next fuel s f = elim (f.next == 0) [
    | false ↦ some (record s { system_processes = f.queue; processes = f.memory; current = f.next })
    | true ↦ elim (find_process fuel s.canceled f.memory s.regular_processes) [
      | none ↦ none
      | some g ↦ some (record s {
        system_processes = f.queue;
        regular_processes = g.queue;
        processes = g.memory;
        current = g.next;
      })
    ]
  ]

  unfoldable pub calculate_next : ℕ → Scheduler → Option Scheduler
  unfolding regular_next
  calculate_next fuel s = elim (find_process fuel s.canceled s.processes s.system_processes) [
    | none ↦ none
    | some f ↦ regular_next fuel s f
  ]
