-- ===== src/Processing/Shell.antt =====
-- kernel/kernel/kernel.cpp and kernel/kernel/timer.cpp: from the second stage to the shell.
use juos.Prelude.{
  ℕ, ◌<◌, ◌≡◌, ◌≢◌, refl, sym, ◌∙◌, ap, true, false, some, List, [], ◌∷◌, ◌++◌, ◌==◌, arith,
  Bool-cases, inl, inr,
}
use juos.Prelude.Maps.{update_self, update_ne}
use juos.Queue.Fifo.{Fifo}
use juos.Sched.{high, is_canceled, signal_end}
use juos.Sched.Next.{system_list, regular_list, dead}
use juos.Sched.Turns.{choose_behind, is_canceled-append}
use juos.Paging.Space.{Space, create_directory}
use juos.Processing.{Registers, System, construct, end_process, process_mappings}
use juos.Processing.Timer.{jumped, tick_handler}
use juos.Processing.Tick.{IsRunnable, tick_handler-Outcome}
use juos.Processing.Started.{loaded_with, new_counted}
use juos.Processing.Resume.{IsPlain, now_at, Outcome-jumped}
use juos.Processing.Stage.{IsAlone, staged, kernel_stage_2, kernel_stage_2_step}

is_canceled-apart :
    (canceled : List ℕ) (pid other : ℕ)
    → is_canceled canceled pid ≡ false
    → pid ≢ other
    → is_canceled (canceled ++ other ∷ []) pid ≡ false
unfolding is_canceled
is_canceled-apart [] pid other e ne = ground arith
is_canceled-apart (c ∷ cs) pid other e ne = elim (Bool-cases (pid == c)) [
  | inl here ↦ cc (rw here at e)
  | inr there ↦ rw there (is_canceled-apart cs pid other (rw there at e) ne)
]

module _ (F : Fifo ℕ) where
  -- What the tick after it needs.
  record IsHandedOver (fuel k p : ℕ) (r : Registers) (dir pid : ℕ) (t : System F) : Type 0 where
    runnable : IsRunnable F fuel t
    system_queue : system_list F t.scheduler ≡ k ∷ []
    regular_queue : regular_list F t.scheduler ≡ p ∷ []
    ended : dead F t.scheduler k ≡ true
    live : dead F t.scheduler p ≡ false
    runs : t.scheduler.current ≢ p
    registers : (t.tasks p).registers ≡ r
    directory : (t.tasks p).directory ≡ dir
    id : (t.scheduler.processes p).pid ≡ pid

  staged-IsHandedOver :
      (fuel at k p dir shell loop2 : ℕ) (space : Space) (s : System F)
      → IsAlone F fuel k s
      → 0 < p
      → k ≢ p
      → 1 < fuel
      → IsHandedOver fuel k p
          (record { eip = shell; esp = 0xA0001000; ebp = 0xA0001000 })
          dir
          s.pid_seq
          (staged F at k p dir shell loop2 space s)
  unfolding construct end_process signal_end
  staged-IsHandedOver fuel at k p dir shell loop2 space s a pos apart lt =
      let one : F.to_list (F.enqueue s.scheduler.regular_processes p) ≡ p ∷ [] =
        F.to_list-enqueue s.scheduler.regular_processes p ∙ rw (a.regular_queue) refl in
      let same : s.cached.pid ≡ (s.scheduler.processes k).pid = ap (λ x. x.pid) a.cached in
      record {
        runnable = record {
          ready = record {
            system_pos = a.runnable.ready.system_pos;
            regular_pos = rw one (pos, tt);
            system_short = a.runnable.ready.system_short;
            regular_short = rw one (omega (arith, lt));
          };
          called = a.runnable.called;
          counted =
              λ q. new_counted s.scheduler.processes p q s.pid_seq high (a.runnable.counted q);
        };
        system_queue = a.system_queue;
        regular_queue = one;
        ended =
            ap (is_canceled (s.scheduler.canceled ++ s.cached.pid ∷ [])) (
              ap (λ x. x.pid) (update_ne s.scheduler.processes p _ k (λ e. apart (sym e)))
              ∙ sym same)
            ∙ is_canceled-append s.scheduler.canceled s.cached.pid;
        live =
            ap (is_canceled (s.scheduler.canceled ++ s.cached.pid ∷ []))
              (ap (λ x. x.pid) (update_self s.scheduler.processes p _))
            ∙ is_canceled-apart s.scheduler.canceled s.pid_seq s.cached.pid a.unended
                (λ e. a.other_id (e ∙ same));
        runs = λ e. apart (sym a.runs ∙ e);
        registers = ground arith;
        directory = ground arith;
        id = ap (λ x. x.pid) (update_self s.scheduler.processes p _);
      }

  hand_over :
      (fuel k p dir pid : ℕ) (r e : Registers) (t : System F)
      → 0 < p
      → IsPlain e
      → IsHandedOver fuel k p r dir pid t
      → (u : System F) × (tick_handler F e.eip (now_at F e t) ≡ jumped u)
        × (u.cpu ≡ record { registers = r; cr3 = dir })
        × (u.cached.pid ≡ pid)
        × (system_list F u.scheduler ≡ [])
        × (regular_list F u.scheduler ≡ p ∷ [])
  hand_over fuel k p dir pid r e t pos plain h =
      let (c, ch, out) =
        tick_handler-Outcome F fuel e.eip (now_at F e t)
          (record {
            ready = h.runnable.ready;
            called = h.runnable.called;
            counted = h.runnable.counted;
          })
          plain in
      let (is, none_of, one) =
        choose_behind F t.scheduler c k p pos h.system_queue h.ended h.regular_queue h.live ch in
      let (u, run, w) = Outcome-jumped F e.eip (now_at F e t) c _ (rw is pos) out in
      let other : (t.scheduler.current == p) ≡ false = let ne = h.runs in ground (arith, ne) in
      (
        u,
        run,
        loaded_with u.cpu r dir (w.running ∙ rw is (rw other h.registers))
            (w.directory ∙ rw is h.directory),
        ap (λ i. i.pid) w.cached ∙ rw is h.id,
        ap F.to_list w.system_queue ∙ none_of,
        ap F.to_list w.regular_queue ∙ one,
      )

  -- Where the kernel's process runs alone, nothing is registered, the directory of the shell can be
  -- made, its place is another than the kernel's process's, its id is new, and with fuel for one entry
  -- of each queue: the second stage returns, and the tick that comes next, at any registers where
  -- `get_ip` does not give 0x12345, the mark of a resumed process, jumps to
  -- the shell's start, with the empty stack, in its directory. The shell is then the only process that
  -- is queued.
  pub kernel_stage_2-shell :
      (fuel paging_fuel at k p dir shell loop2 : ℕ) (e : Registers) (space : Space) (s : System F)
      → IsAlone F fuel k s
      → 0 < p
      → k ≢ p
      → 1 < fuel
      → IsPlain e
      → create_directory paging_fuel process_mappings s.space ≡ some (dir, space)
      → (t : System F) × (u : System F) × (kernel_stage_2 F paging_fuel at p shell loop2 false s
          ≡ some t)
        × (tick_handler F e.eip (now_at F e t) ≡ jumped u)
        × (u.cpu ≡ record {
          registers = record { eip = shell; esp = 0xA0001000; ebp = 0xA0001000 };
          cr3 = dir;
        })
        × (u.cached.pid ≡ s.pid_seq)
        × (system_list F u.scheduler ≡ [])
        × (regular_list F u.scheduler ≡ p ∷ [])
  kernel_stage_2-shell fuel paging_fuel at k p dir shell loop2 e space s a pos apart lt plain made =
      let t = staged F at k p dir shell loop2 space s in
      let h = staged-IsHandedOver fuel at k p dir shell loop2 space s a pos apart lt in
      let (u, run, cpu, pid, none_of, one) = hand_over fuel k p dir s.pid_seq _ e t pos plain h in
      (
        t,
        u,
        kernel_stage_2_step F fuel paging_fuel at k p dir shell loop2 space s a made,
        run,
        cpu,
        pid,
        none_of,
        one,
      )
