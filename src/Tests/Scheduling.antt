-- ===== src/Tests/Scheduling.antt =====
-- The scheduler's theorems at three processes, one of them canceled, over queues that are lists.
use juos.Prelude.{
  ℕ, ◌+◌, ◌≡◌, refl, ◌↔◌, Bool, true, false, Option, none, some, List, [], ◌∷◌, ◌++◌, arith,
}
use juos.Queue.Fifo.{Fifo}
use juos.Sched.{regular, Process, Scheduler, calculate_next}
use juos.Sched.Next.{IsReady, Chooses, calculate_next-Chooses}

abbrev pub list_isempty : List ℕ → Bool
list_isempty [] = true
list_isempty (x ∷ xs) = false

abbrev pub list_top : List ℕ → Option ℕ
list_top [] = none
list_top (x ∷ xs) = some x

abbrev pub list_dequeue : List ℕ → List ℕ
list_dequeue [] = []
list_dequeue (x ∷ xs) = xs

pub list_isempty_iff : (s : List ℕ) → (list_isempty s ≡ true) ↔ (s ≡ [])
list_isempty_iff [] = (λ _. refl, λ _. refl)
list_isempty_iff (x ∷ xs) = (λ e. cc, λ e. cc)

pub list_top_lem : (s : List ℕ) (x : ℕ) (xs : List ℕ) → s ≡ x ∷ xs → list_top s ≡ some x
list_top_lem [] x xs e = cc
list_top_lem (y ∷ ys) x xs e = cc

pub list_dequeue_lem : (s : List ℕ) (x : ℕ) (xs : List ℕ) → s ≡ x ∷ xs → list_dequeue s ≡ xs
list_dequeue_lem [] x xs e = cc
list_dequeue_lem (y ∷ ys) x xs e = cc

abbrev pub list_fifo : Fifo ℕ
list_fifo = record {
  State = List ℕ;
  to_list = λ s. s;
  isempty = list_isempty;
  top = list_top;
  enqueue = λ s x. s ++ x ∷ [];
  dequeue = list_dequeue;
  isempty_iff = list_isempty_iff;
  top-to_list = list_top_lem;
  to_list-enqueue = λ s x. refl;
  to_list-dequeue = list_dequeue_lem;
}

-- The process at the address `a` has the id `a + 100`.
abbrev pub memory : ℕ → Process
memory a = record { pid = a + 100; priority = regular; times_ran = 0 }

abbrev demo : Scheduler list_fifo
demo = record {
  system_processes = 2 ∷ 1 ∷ 4 ∷ [];
  regular_processes = 3 ∷ [];
  canceled = 102 ∷ [];
  processes = memory;
  current = 0;
}

demo-IsReady : IsReady list_fifo 9 demo
demo-IsReady = record {
  system_pos = (omega arith, (omega arith, (omega arith, tt)));
  regular_pos = (omega arith, tt);
  system_short = omega arith;
  regular_short = omega arith;
}

calculate_next-Chooses_example :
    (t : Scheduler list_fifo) × (calculate_next list_fifo 9 demo ≡ some t)
    × Chooses list_fifo demo t
calculate_next-Chooses_example = calculate_next-Chooses list_fifo 9 demo demo-IsReady
