-- ===== src/Sched/Next.antt =====
-- What a call of CalculateNext (kernel/kernel/schedualer.cpp) chooses, and what many calls do.
use juos.Prelude.{
  ℕ, ◌<◌, ◌≡◌, refl, ◌∙◌, inl, inr, Bool, true, false, some, List, ◌==◌, if◌then◌else◌, length,
  Bool-cases,
}
use juos.Queue.Fifo.{Fifo}
use juos.Sched.{Scheduler, Found, find_process, regular_next, ran_again, calculate_next}
use juos.Sched.Rotate.{rotate, dead_in, AllPos, find_process-rotate}

module _ (F : Fifo ℕ) where
  abbrev pub system_list : Scheduler F → List ℕ
  system_list s = F.to_list s.system_processes

  abbrev pub regular_list : Scheduler F → List ℕ
  regular_list s = F.to_list s.regular_processes

  abbrev pub dead : Scheduler F → ℕ → Bool
  dead s = dead_in s.canceled s.processes

  -- Every queued process has an address, and the fuel covers both queues.
  pub record IsReady (fuel : ℕ) (s : Scheduler F) : Type 0 where
    pub system_pos : AllPos (system_list s)
    pub regular_pos : AllPos (regular_list s)
    pub system_short : length (system_list s) < fuel
    pub regular_short : length (regular_list s) < fuel

  -- The choice, and the queues after it.
  abbrev pub Chooses : Scheduler F → Scheduler F → Type 0
  Chooses s t =
      let sys = rotate (dead s) (system_list s) in
      let reg = rotate (dead s) (regular_list s) in
      (t.current ≡ (if sys.0 == 0 then reg.0 else sys.0))
      × (system_list t ≡ sys.1)
      × (regular_list t ≡ (if sys.0 == 0 then reg.1 else regular_list s))
      × (t.canceled ≡ s.canceled)
      × (t.processes ≡ (if t.current == 0 then s.processes else ran_again s.processes t.current))

  -- A live system process was found.
  first_found :
      (fuel : ℕ) (s : Scheduler F) (f : Found F)
      → find_process F fuel s.canceled s.processes s.system_processes ≡ some f
      → (f.next == 0) ≡ false
      → calculate_next F fuel s
        ≡ some (record s { system_processes = f.queue; processes = f.memory; current = f.next })
  unfolding calculate_next
  first_found fuel s f e z = rw (e, calculate_next) (rw (z, regular_next))

  -- None was, and the regular queue decides.
  second_found :
      (fuel : ℕ) (s : Scheduler F) (f g : Found F)
      → find_process F fuel s.canceled s.processes s.system_processes ≡ some f
      → (f.next == 0) ≡ true
      → find_process F fuel s.canceled f.memory s.regular_processes ≡ some g
      → calculate_next F fuel s
        ≡ some (record s {
          system_processes = f.queue;
          regular_processes = g.queue;
          processes = g.memory;
          current = g.next;
        })
  unfolding calculate_next
  second_found fuel s f g e z e' = rw (e, calculate_next) (rw (z, regular_next) (rw e'))

  -- With fuel for both queues, whose entries are not null, the call returns. A system process is
  -- chosen if one is not canceled, else a regular one: the first of its queue that is not canceled.
  -- It goes to the end of its queue, those before it are dropped, and its count rises; a queue that
  -- is not searched and the canceled ids stay as they are.
  pub calculate_next-Chooses :
      (fuel : ℕ) (s : Scheduler F)
      → IsReady fuel s
      → (t : Scheduler F) × (calculate_next F fuel s ≡ some t) × Chooses s t
  calculate_next-Chooses fuel s r =
      let (f, e, n, l, m) =
        find_process-rotate F fuel s.canceled s.processes s.system_processes _ r.system_short
          r.system_pos refl in
      let (g, e', n', l', m') =
        find_process-rotate F fuel s.canceled s.processes s.regular_processes _ r.regular_short
          r.regular_pos refl in
      elim (Bool-cases (f.next == 0)) [
        | inl z ↦
            let kept : f.memory ≡ s.processes = m ∙ rw z in
            (
              record s {
                system_processes = f.queue;
                regular_processes = g.queue;
                processes = g.memory;
                current = g.next;
              },
              second_found fuel s f g e z (rw kept e'),
              (rw (← n) (rw z n'), l, rw (← n) (rw z l'), refl, m'),
            )
        | inr z ↦ (
          record s { system_processes = f.queue; processes = f.memory; current = f.next },
          first_found fuel s f e z,
          (rw (← n) (rw z), l, rw (← n) (rw z), refl, m),
        )
      ]
