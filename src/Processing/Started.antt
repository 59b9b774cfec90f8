-- ===== src/Processing/Started.antt =====
-- kernel/kernel/process.cpp: a process that is started by name, from the search for the name to its
-- first turn.
use juos.Prelude.{
  ℕ, ◌+◌, ◌%◌, ◌<◌, ◌≡◌, ◌⊎◌, refl, sym, ap, subst, true, false, none, some, List, [], ◌∷◌, ◌++◌,
  length, length-append, arith, Bool-cases, Option-cases, inl, inr,
}
use juos.Prelude.Maps.{update, update_self}
use juos.Queue.Fifo.{Fifo}
use juos.Sched.{Priority, is_system, Process, add_item}
use juos.Sched.Rotate.{AllPos}
use juos.Sched.Next.{system_list, regular_list}
use juos.Paging.Space.{Space, create_directory}
use juos.Processing.{
  Registers, Cpu, RegisteredProcess, System, same_name, text_of, proc_name_buffer, find_if,
  construct, new_directory, new_process, set_up, start_process, process_mappings,
}
use juos.Processing.Tick.{IsRunnable}

pub loaded_with :
    (c : Cpu) (r : Registers) (d : ℕ)
    → c.registers ≡ r
    → c.cr3 ≡ d
    → c ≡ record { registers = r; cr3 = d }
loaded_with c r d e e' = rw (← e, ← e') refl

pub new_counted :
    (ps : ℕ → Process) (p q n : ℕ) (priority : Priority)
    → (ps q).times_ran % 2 ≡ 0
    → (update ps p (record { pid = n; priority = priority; times_ran = 0 }) q).times_ran % 2 ≡ 0
new_counted ps p q n priority even = ground arith

module _ (F : Fifo ℕ) where
  -- The state after a start.
  abbrev pub started : ℕ → ℕ → Priority → ℕ → Space → System F → System F
  started p func priority dir space s =
      let t =
        set_up F p func dir (some process_mappings)
          (record (construct F p priority s) { space = space }) in
      record t { scheduler = add_item F p t.scheduler }

  pub start_process_found :
      (fuel p dir : ℕ) (name text : List ℕ) (priority : Priority) (rp : RegisteredProcess)
      (space : Space) (s : System F)
      → text_of (proc_name_buffer name) ≡ some text
      → find_if (λ r. same_name r.name text) s.registered ≡ some rp
      → create_directory fuel process_mappings s.space ≡ some (dir, space)
      → start_process F fuel p name priority s
        ≡ some (s.pid_seq, started p rp.func_ptr priority dir space s)
  unfolding start_process new_process new_directory construct
  start_process_found fuel p dir name text priority rp space s copied found made = rw copied (
      rw found
        (rw made (ap (λ n. some (n, started p rp.func_ptr priority dir space s)) (ground arith))))

  -- A name that does not fit, one that is not registered, and a directory that cannot be made.
  start_process_cut :
      (fuel p : ℕ) (name : List ℕ) (priority : Priority) (s : System F)
      → text_of (proc_name_buffer name) ≡ none
      → start_process F fuel p name priority s ≡ none
  unfolding start_process
  start_process_cut fuel p name priority s e = rw e refl

  start_process_missing :
      (fuel p : ℕ) (name text : List ℕ) (priority : Priority) (s : System F)
      → text_of (proc_name_buffer name) ≡ some text
      → find_if (λ r. same_name r.name text) s.registered ≡ none
      → start_process F fuel p name priority s ≡ none
  unfolding start_process
  start_process_missing fuel p name text priority s copied e = rw copied (rw e refl)

  start_process_stops :
      (fuel p : ℕ) (name text : List ℕ) (priority : Priority) (rp : RegisteredProcess)
      (s : System F)
      → text_of (proc_name_buffer name) ≡ some text
      → find_if (λ r. same_name r.name text) s.registered ≡ some rp
      → create_directory fuel process_mappings s.space ≡ none
      → start_process F fuel p name priority s ≡ none
  unfolding start_process new_process new_directory construct
  start_process_stops fuel p name text priority rp s copied found stops =
      rw copied (rw found (rw stops refl))

  abbrev pub before_queued : ℕ → ℕ → Priority → ℕ → Space → System F → System F
  before_queued p func priority dir space s =
      set_up F p func dir (some process_mappings)
        (record (construct F p priority s) { space = space })

  abbrev pub behind_regular : ℕ → System F → System F
  behind_regular p s = record s {
    scheduler = record s.scheduler {
      regular_processes = F.enqueue s.scheduler.regular_processes p;
    };
  }

  pub started_regular :
      (p func dir : ℕ) (priority : Priority) (space : Space) (s : System F)
      → is_system priority ≡ false
      → started p func priority dir space s
        ≡ behind_regular p (before_queued p func priority dir space s)
  unfolding add_item construct
  started_regular p func dir priority space s e =
      rw (update_self s.scheduler.processes p _) (rw e refl)

  abbrev pub behind_system : ℕ → System F → System F
  behind_system p s = record s {
    scheduler = record s.scheduler { system_processes = F.enqueue s.scheduler.system_processes p };
  }

  started_system :
      (p func dir : ℕ) (priority : Priority) (space : Space) (s : System F)
      → is_system priority ≡ true
      → started p func priority dir space s
        ≡ behind_system p (before_queued p func priority dir space s)
  unfolding add_item construct
  started_system p func dir priority space s e =
      rw (update_self s.scheduler.processes p _) (rw e refl)

  pub AllPos-append : (p : ℕ) (xs : List ℕ) → 0 < p → AllPos xs → AllPos (xs ++ p ∷ [])
  AllPos-append p [] pos all = (pos, tt)
  AllPos-append p (x ∷ xs) pos all = (all.0, AllPos-append p xs pos all.1)

  start_process_found_or :
      (fuel p n : ℕ) (name text : List ℕ) (priority : Priority) (s u : System F)
      → text_of (proc_name_buffer name) ≡ some text
      → start_process F fuel p name priority s ≡ some (n, u)
      → (find_if (λ r. same_name r.name text) s.registered ≡ none)
        ⊎ ((rp : RegisteredProcess) × (find_if (λ r. same_name r.name text) s.registered ≡ some rp))
      → (func : ℕ) × (dir : ℕ) × (space : Space) × (u ≡ started p func priority dir space s)
  start_process_found_or fuel p n name text priority s u copied e (inl missing) =
      cc (start_process_missing fuel p name text priority s copied missing, e)
  start_process_found_or fuel p n name text priority s u copied e (inr (rp, found)) =
      elim (Option-cases (create_directory fuel process_mappings s.space)) [
        | inl stops ↦ cc (start_process_stops fuel p name text priority rp s copied found stops, e)
        | inr ((dir, space), made) ↦ (
          rp.func_ptr,
          dir,
          space,
          cc (start_process_found fuel p dir name text priority rp space s copied found made, e),
        )
      ]

  -- A start that returns leaves the state of `started`.
  pub start_process_returned :
      (fuel p n : ℕ) (name : List ℕ) (priority : Priority) (s u : System F)
      → start_process F fuel p name priority s ≡ some (n, u)
      → (func : ℕ) × (dir : ℕ) × (space : Space) × (u ≡ started p func priority dir space s)
  start_process_returned fuel p n name priority s u e =
      elim (Option-cases (text_of (proc_name_buffer name))) [
        | inl cut ↦ cc (start_process_cut fuel p name priority s cut, e)
        | inr (text, copied) ↦
            start_process_found_or fuel p n name text priority s u copied e
              (Option-cases (find_if (λ r. same_name r.name text) s.registered))
      ]

  enqueued_ready :
      (fuel p : ℕ) (q : F.State)
      → 0 < p
      → length (F.to_list q) + 1 < fuel
      → AllPos (F.to_list q)
      → AllPos (F.to_list (F.enqueue q p)) × (length (F.to_list (F.enqueue q p)) < fuel)
  enqueued_ready fuel p q pos short all = rw (F.to_list-enqueue q p) (
    AllPos-append p (F.to_list q) pos all,
    omega (arith, length-append (F.to_list q) (p ∷ []), short),
  )

  pub started-IsRunnable :
      (fuel p func dir : ℕ) (priority : Priority) (space : Space) (s : System F)
      → 0 < p
      → length (system_list F s.scheduler) + 1 < fuel
      → length (regular_list F s.scheduler) + 1 < fuel
      → IsRunnable F fuel s
      → IsRunnable F fuel (started p func priority dir space s)
        × ((started p func priority dir space s).scheduler.canceled ≡ s.scheduler.canceled)
  unfolding construct
  started-IsRunnable fuel p func dir priority space s pos sys reg r =
      let in_system =
        enqueued_ready fuel p s.scheduler.system_processes pos sys r.ready.system_pos in
      let in_regular =
        enqueued_ready fuel p s.scheduler.regular_processes pos reg r.ready.regular_pos in
      elim (Bool-cases (is_system priority)) [
        | inl e ↦
            subst (λ u. IsRunnable F fuel u × (u.scheduler.canceled ≡ s.scheduler.canceled))
              (sym (started_system p func dir priority space s e))
              (
                record {
                  ready = record {
                    system_pos = in_system.0;
                    regular_pos = r.ready.regular_pos;
                    system_short = in_system.1;
                    regular_short = r.ready.regular_short;
                  };
                  called = r.called;
                  counted =
                      λ q. new_counted s.scheduler.processes p q s.pid_seq priority (r.counted q);
                },
                refl,
              )
        | inr e ↦
            subst (λ u. IsRunnable F fuel u × (u.scheduler.canceled ≡ s.scheduler.canceled))
              (sym (started_regular p func dir priority space s e))
              (
                record {
                  ready = record {
                    system_pos = r.ready.system_pos;
                    regular_pos = in_regular.0;
                    system_short = r.ready.system_short;
                    regular_short = in_regular.1;
                  };
                  called = r.called;
                  counted =
                      λ q. new_counted s.scheduler.processes p q s.pid_seq priority (r.counted q);
                },
                refl,
              )
      ]
