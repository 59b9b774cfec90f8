-- ===== src/Processing/Stage.antt =====
-- kernel/kernel/kernel.cpp, kernel_stage_2: the kernel's process registers the programs, starts the
-- shell and ends itself.
use juos.Prelude.{
  ℕ, ◌<◌, ◌≡◌, ◌≢◌, refl, ◌∙◌, ap, Bool, false, Option, some, List, [], ◌∷◌, if◌then◌else◌, arith,
  pos-ne_zero,
}
use juos.Prelude.Maps.{update}
use juos.Prelude.Options.{◌>>=◌}
use juos.Queue.Fifo.{Fifo}
use juos.Sched.{high, is_canceled}
use juos.Sched.Next.{system_list, regular_list}
use juos.Paging.Space.{Space, create_directory}
use juos.Processing.{
  RegisteredProcess, System, register_process, self_process_init, start_process, end_process,
  get_pid, process_mappings,
}
use juos.Processing.Tick.{IsRunnable}
use juos.Processing.Started.{behind_regular, before_queued, start_process_found, started_regular}
use juos.Processing.Names.{IsName, find_if-same_name, text_of-proc_name_buffer}

-- "shell" and "loop2"
abbrev pub shell_name : List ℕ
shell_name = 115 ∷ 104 ∷ 101 ∷ 108 ∷ 108 ∷ []

abbrev pub loop2_name : List ℕ
loop2_name = 108 ∷ 111 ∷ 111 ∷ 112 ∷ 50 ∷ []

shell_name-IsName : IsName shell_name
shell_name-IsName = (
  omega arith,
  ((
    omega arith,
    omega arith,
    (
      omega arith,
      omega arith,
      (omega arith, omega arith, (omega arith, omega arith, (omega arith, omega arith, tt))),
    ),
  )),
)

module _ (F : Fifo ℕ) where
  -- The part behind the test of `loop_finished`, for a process at `p`.
  unfoldable pub start_shell : ℕ → ℕ → ℕ → ℕ → System F → Option (System F)
  unfolding register_process start_process end_process
  start_shell fuel p shell loop2 s = do
    r ←
        start_process F fuel p shell_name high
          (register_process F loop2_name loop2 (register_process F shell_name shell s))
    some (end_process F (get_pid F r.1) r.1)

  -- `kernel_stage_2`, with the new input buffer at `at`; once the loop is finished it halts for ever.
  unfoldable pub kernel_stage_2 : ℕ → ℕ → ℕ → ℕ → ℕ → Bool → System F → Option (System F)
  unfolding self_process_init start_shell
  kernel_stage_2 fuel at p shell loop2 loop_finished s = do
    t ← self_process_init F at s
    if loop_finished then some t else start_shell fuel p shell loop2 t

  -- The kernel's process `k` runs, alone.
  pub record IsAlone (fuel k : ℕ) (s : System F) : Type 0 where
    pub runnable : IsRunnable F fuel s
    pub pos : 0 < k
    pub system_queue : system_list F s.scheduler ≡ k ∷ []
    pub regular_queue : regular_list F s.scheduler ≡ []
    pub runs : s.scheduler.current ≡ k
    pub cached : s.cached ≡ record { pid = (s.scheduler.processes k).pid; process = k }
    pub registered : s.registered ≡ []
    pub unended : is_canceled s.scheduler.canceled s.pid_seq ≡ false
    pub other_id : s.pid_seq ≢ (s.scheduler.processes k).pid

  -- The system when the shell is started.
  abbrev pub prepared : ℕ → ℕ → ℕ → ℕ → System F → System F
  prepared at k shell loop2 s = record s {
    tasks = update s.tasks k (record (s.tasks k) { input_buffer = at });
    registered =
        record { name = shell_name; func_ptr = shell }
        ∷ record { name = loop2_name; func_ptr = loop2 }
        ∷ [];
  }

  abbrev pub staged : ℕ → ℕ → ℕ → ℕ → ℕ → ℕ → Space → System F → System F
  staged at k p dir shell loop2 space s =
      let t =
        behind_regular F p (before_queued F p shell high dir space (prepared at k shell loop2 s)) in
      end_process F t.cached.pid t

  abbrev pub initialized : ℕ → ℕ → System F → System F
  initialized at k s = record s {
    tasks = update s.tasks k (record (s.tasks k) { input_buffer = at });
  }

  self_process_init_lem :
      (fuel at k : ℕ) (s : System F)
      → IsAlone fuel k s
      → self_process_init F at s ≡ some (initialized at k s)
  unfolding self_process_init
  self_process_init_lem fuel at k s a = rw (a.cached) (rw (pos-ne_zero k a.pos) refl)

  registered_lem :
      (at k shell loop2 : ℕ) (s : System F)
      → s.registered ≡ []
      → register_process F loop2_name loop2
          (register_process F shell_name shell (initialized at k s))
        ≡ prepared at k shell loop2 s
  unfolding register_process
  registered_lem at k shell loop2 s e =
      ap
        (λ l.
          register_process F loop2_name loop2
            (register_process F shell_name shell (record (initialized at k s) { registered = l })))
        e

  shell_started :
      (fuel at k p dir shell loop2 : ℕ) (space : Space) (s : System F)
      → create_directory fuel process_mappings s.space ≡ some (dir, space)
      → start_process F fuel p shell_name high (prepared at k shell loop2 s)
        ≡ some (
          s.pid_seq,
          behind_regular F p (before_queued F p shell high dir space (prepared at k shell loop2 s)),
        )
  shell_started fuel at k p dir shell loop2 space s made =
      let t = prepared at k shell loop2 s in
      let rp : RegisteredProcess = record { name = shell_name; func_ptr = shell } in
      let rest : RegisteredProcess = record { name = loop2_name; func_ptr = loop2 } in
      start_process_found F fuel p dir shell_name shell_name high rp space t
        (text_of-proc_name_buffer shell_name shell_name-IsName)
        (find_if-same_name shell_name [] (rest ∷ []) rp shell_name-IsName.1 tt refl).0 made
      ∙ ap (λ x. some (s.pid_seq, x)) (started_regular F p shell dir high space t refl)

  start_shell_step :
      (fuel at k p dir shell loop2 : ℕ) (space : Space) (s : System F)
      → s.registered ≡ []
      → create_directory fuel process_mappings s.space ≡ some (dir, space)
      → start_shell fuel p shell loop2 (initialized at k s)
        ≡ some (staged at k p dir shell loop2 space s)
  unfolding start_shell
  start_shell_step fuel at k p dir shell loop2 space s none_of made =
      ap
        (λ x. start_process F fuel p shell_name high x >>= λ r.
          some (end_process F (get_pid F r.1) r.1))
        (registered_lem at k shell loop2 s none_of)
      ∙ ap (λ r. r >>= λ r. some (end_process F (get_pid F r.1) r.1))
          (shell_started fuel at k p dir shell loop2 space s made)

  pub kernel_stage_2_step :
      (fuel paging_fuel at k p dir shell loop2 : ℕ) (space : Space) (s : System F)
      → IsAlone fuel k s
      → create_directory paging_fuel process_mappings s.space ≡ some (dir, space)
      → kernel_stage_2 paging_fuel at p shell loop2 false s
        ≡ some (staged at k p dir shell loop2 space s)
  unfolding kernel_stage_2
  kernel_stage_2_step fuel paging_fuel at k p dir shell loop2 space s a made =
      ap (λ r. r >>= λ t. start_shell paging_fuel p shell loop2 t)
        (self_process_init_lem fuel at k s a)
      ∙ start_shell_step paging_fuel at k p dir shell loop2 space s a.registered made
