-- ===== src/Processing/Launched.antt =====
-- kernel/kernel/process.cpp and kernel/kernel/timer.cpp: a started process from its start to its first
-- turn.
use juos.Prelude.{
  ℕ, ◌+◌, ◌<◌, ◌≡◌, ◌≢◌, refl, sym, ◌∙◌, ap, subst, Bool, false, some, List, [], ◌∷◌, ◌++◌, ◌==◌,
  length, length-append, arith,
}
use juos.Prelude.Maps.{update_self, update_ne}
use juos.Prelude.Words.{add32}
use juos.Queue.Fifo.{Fifo}
use juos.Sched.{Priority, is_system, is_canceled}
use juos.Sched.Rotate.{AllPos}
use juos.Sched.Next.{dead}
use juos.Sched.Turns.{AllLive}
use juos.Paging.Space.{Space, create_directory}
use juos.Processing.{
  Registers, RegisteredProcess, System, same_name, find_if, construct, start_process,
  process_mappings,
}
use juos.Processing.Names.{IsName, IsUnnamed, find_if-same_name, text_of-proc_name_buffer}
use juos.Processing.Resume.{IsNotIn, AllPlain, TakesTurns, ticks, ticks-continues, continues}
use juos.Processing.Started.{
  loaded_with, new_counted, started, start_process_found, started_regular, AllPos-append,
}

module _ (F : Fifo ℕ) where
  live_apart :
      (d d' : ℕ → Bool) (p : ℕ) (xs : List ℕ)
      → ((q : ℕ) → q ≢ p → d' q ≡ d q)
      → d' p ≡ false
      → IsNotIn p xs
      → AllLive d xs
      → AllLive d' (xs ++ p ∷ [])
  live_apart d d' p [] same live apart all = (live, tt)
  live_apart d d' p (x ∷ xs) same live apart all =
      (same x apart.0 ∙ all.0, live_apart d d' p xs same live apart.1 all.1)

  -- A place for a process that is not in use, and an id that was not ended.
  pub record IsNew (fuel p : ℕ) (q : List ℕ) (s : System F) : Type 0 where
    pub pos : 0 < p
    pub apart : IsNotIn p q
    pub idle : s.scheduler.current ≢ p
    pub unended : is_canceled s.scheduler.canceled s.pid_seq ≡ false
    pub short : length q + 1 < fuel

  started-TakesTurns :
      (fuel p func dir : ℕ) (priority : Priority) (space : Space) (q : List ℕ) (s : System F)
      → is_system priority ≡ false
      → TakesTurns F fuel q s
      → IsNew fuel p q s
      → TakesTurns F fuel (q ++ p ∷ []) (started F p func priority dir space s)
  unfolding construct
  started-TakesTurns fuel p func dir priority space q s e k n =
      let added = F.to_list-enqueue s.scheduler.regular_processes p in
      let short = n.short in
      rw (started_regular F p func dir priority space s e) (record {
        runnable = record {
          ready = record {
            system_pos = k.runnable.ready.system_pos;
            regular_pos =
                rw (added, k.queue)
                  (AllPos-append F p q n.pos (subst AllPos k.queue k.runnable.ready.regular_pos));
            system_short = k.runnable.ready.system_short;
            regular_short = rw (added, k.queue) (omega (arith, length-append q (p ∷ []), short));
          };
          called = k.runnable.called;
          counted =
              λ r. new_counted s.scheduler.processes p r s.pid_seq priority (k.runnable.counted r);
        };
        no_system = k.no_system;
        queue = added ∙ ap (λ l. l ++ p ∷ []) k.queue;
        live =
            live_apart (dead F s.scheduler) _ p q
              (λ r ne.
                ap (is_canceled s.scheduler.canceled)
                  (ap (λ x. x.pid) (update_ne s.scheduler.processes p _ r (λ z. ne (sym z)))))
              (ap (is_canceled s.scheduler.canceled)
                  (ap (λ x. x.pid) (update_self s.scheduler.processes p _))
                ∙ n.unended)
              n.apart k.live;
      })

  -- Its first turn, with what it is set up with.
  started-registers :
      (p func dir : ℕ) (priority : Priority) (space : Space) (e : Registers) (s : System F)
      → s.scheduler.current ≢ p
      → is_system priority ≡ false
      → let t = started F p func priority dir space s in
        (continues F e t p ≡ record { eip = func; esp = 0xA0001000; ebp = 0xA0001000 })
        × ((t.tasks p).directory ≡ dir)
  unfolding construct
  started-registers p func dir priority space e s idle regular =
      let ne : (s.scheduler.current == p) ≡ false = ground arith in
      subst
        (λ t.
          (continues F e t p ≡ record { eip = func; esp = 0xA0001000; ebp = 0xA0001000 })
          × ((t.tasks p).directory ≡ dir))
        (sym (started_regular F p func dir priority space s regular))
        (rw ne (ground arith), ground arith)

  -- Where the regular processes `q` take turns, a name of at most 127 characters from 1 to 255 is
  -- registered, first as `rp`, the priority is not System, the directory of the process can be made, and the place and the id of the process are
  -- new: the start returns the id, which the next start does not give again, and with a tick for each
  -- of `q` and one more, where `get_ip` does not give 0x12345, the mark of a resumed process, all ticks
  -- switch. The last one runs the process: at its function, with the
  -- empty stack, in its directory.
  pub start_process-ticks :
      (fuel paging_fuel p dir : ℕ) (name : List ℕ) (priority : Priority)
      (before after : List RegisteredProcess) (rp : RegisteredProcess) (space : Space) (q : List ℕ)
      (e : Registers) (es : List Registers) (s : System F)
      → TakesTurns F fuel q s
      → IsNew fuel p q s
      → IsName name
      → s.registered ≡ before ++ rp ∷ after
      → IsUnnamed name before
      → rp.name ≡ name
      → is_system priority ≡ false
      → create_directory paging_fuel process_mappings s.space ≡ some (dir, space)
      → length es ≡ length q
      → AllPlain (e ∷ es)
      → (t : System F) × (u : System F) × (start_process F paging_fuel p name priority s
          ≡ some (s.pid_seq, t))
        × (t.pid_seq ≡ add32 s.pid_seq 1)
        × TakesTurns F fuel (q ++ p ∷ []) t
        × (ticks F (e ∷ es) t ≡ some u)
        × (u.scheduler.current ≡ p)
        × (u.cpu ≡ record {
          registers = record { eip = rp.func_ptr; esp = 0xA0001000; ebp = 0xA0001000 };
          cr3 = dir;
        })
        × TakesTurns F fuel (q ++ p ∷ []) u
  unfolding construct
  start_process-ticks fuel paging_fuel p dir name priority before after rp space q e es s k n named
        reg un is regular made size plain =
      let t = started F p rp.func_ptr priority dir space s in
      let found =
        subst (λ l. find_if (λ r. same_name r.name name) l ≡ some rp) (sym reg)
          (find_if-same_name name before after rp named.1 un is).0 in
      let k' = started-TakesTurns fuel p rp.func_ptr dir priority space q s regular k n in
      let (u, run, current, regs, cr3, last) =
        ticks-continues F fuel p q [] e es t k' n.apart size plain in
      let (set, in_dir) = started-registers p rp.func_ptr dir priority space e s n.idle regular in
      (
        t,
        u,
        start_process_found F paging_fuel p dir name name priority rp space s
            (text_of-proc_name_buffer name named) found made,
        refl,
        k',
        run,
        current,
        loaded_with u.cpu _ dir (regs ∙ set) (cr3 ∙ in_dir),
        last,
      )
