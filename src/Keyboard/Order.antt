-- ===== src/Keyboard/Order.antt =====
-- kernel/kernel/keyboard.cpp and kernel/kernel/kio.cpp: what a process reads is what was typed, in
-- order, however interrupts, switches and the steps of the reader follow one another.
use juos.Prelude.{
  ℕ, ◌<◌, ◌≡◌, ◌≢◌, ◌⊎◌, refl, sym, ◌∙◌, ap, subst, Bool, true, false, Option, none, some, List, [],
  ◌∷◌, ◌++◌, ◌==◌, if◌then◌else◌, map, append_assoc, append-nil, arith, Bool-cases, inl, inr,
  pos-ne_zero,
}
use mathlib.Core.List.{map-append}
use juos.Prelude.Maps.{update, update_self, update_ne}
use juos.Queue.Fifo.{Fifo}
use juos.Keyboard.{
  Key, Reader, outside, locked, waiting, unlinking, taken, next_of, char_of, Console,
  keyboard_handler, handle, enqueue_key, current_buffer, take_key, lock_input_buffer,
  unlock_input_buffer, get_char_step, get_char_from, at_reader,
}

module _ (G : Fifo Key) where
  -- The characters of the keys that reach the process `p`.
  abbrev pub reaches : ℕ → Key → Console G → List ℕ
  reaches p key s = if key.error then [] else (if s.current == p then char_of key ∷ [] else [])

  -- The reader is not inside of `dequeue` with the only node of its queue.
  abbrev pub Spares : Reader G.State → Type 0
  Spares (unlinking b key (some rest)) = ⊥
  Spares (unlinking b key none) = Unit
  Spares outside = Unit
  Spares locked = Unit
  Spares (waiting b) = Unit
  Spares (taken key) = Unit

  -- An interrupt, a switch to any process, or a step of the reader of `p`, with the characters that
  -- reach `p` and those that it gets. No interrupt brings a key for `p` while it takes its only one.
  pub data Step (p : ℕ) (s : Console G) : List ℕ → List ℕ → Console G → Type 0 where
    typed :
        (key : Key) {t : Console G}
        → Spares (s.readers p) ⊎ (s.current ≢ p)
        → keyboard_handler G key s ≡ some t
        → Step p s (reaches p key s) [] t
    switched : (q : ℕ) → Step p s [] [] (record s { current = q })
    read :
        {t : Console G} {out : List ℕ}
        → s.current ≡ p
        → get_char_step G p s ≡ some (t, out)
        → Step p s [] out t

  pub data Run (p : ℕ) (s : Console G) : List ℕ → List ℕ → Console G → Type 0 where
    here : Run p s [] [] s
    later :
        {ins outs more got : List ℕ} {t u : Console G}
        → Run p s ins outs t
        → Step p t more got u
        → Run p s (ins ++ more) (outs ++ got) u

  -- The characters that `p` has yet to get: the key in hand, and the keys in its buffer.
  abbrev pub held : Reader G.State → List ℕ
  held (taken key) = char_of key ∷ []
  held outside = []
  held locked = []
  held (waiting b) = []
  held (unlinking b key rest) = []

  abbrev pub pending : ℕ → Console G → List ℕ
  pending p s = held (s.readers p) ++ map char_of (G.to_list (s.buffers (s.input_buffer p)))

  -- The process has a buffer of its own, which its reader takes from.
  abbrev pub WaitsAt : ℕ → Reader G.State → Type 0
  WaitsAt b (waiting c) = c ≡ b
  WaitsAt b outside = Unit
  WaitsAt b locked = Unit
  WaitsAt b (unlinking c key rest) = c ≡ b
  WaitsAt b (taken key) = Unit

  -- What `dequeue` has read is the front of the buffer's list, and where the pointer was null it is the
  -- only key.
  abbrev pub IsFront : List Key → Reader G.State → Type 0
  IsFront l (unlinking b key none) = (xs : List Key) × (l ≡ key ∷ xs)
  IsFront l (unlinking b key (some rest)) = (l ≡ key ∷ []) × (G.to_list rest ≡ [])
  IsFront l outside = Unit
  IsFront l locked = Unit
  IsFront l (waiting b) = Unit
  IsFront l (taken key) = Unit

  pub record HasBuffer (p : ℕ) (s : Console G) : Type 0 where
    pub pos : 0 < p
    pub buffer : 0 < s.input_buffer p
    pub own : (q : ℕ) → q ≢ p → s.input_buffer q ≢ s.input_buffer p
    pub waits : WaitsAt (s.input_buffer p) (s.readers p)
    pub front : IsFront (G.to_list (s.buffers (s.input_buffer p))) (s.readers p)

  -- One step keeps the order.
  record Keeps (p : ℕ) (s : Console G) (ins outs : List ℕ) (t : Console G) : Type 0 where
    owner : HasBuffer p t
    order : pending p s ++ ins ≡ outs ++ pending p t

  kept : (p : ℕ) (s : Console G) → HasBuffer p s → Keeps p s [] [] s
  kept p s h = record { owner = h; order = append-nil (pending p s) }

  -- The results of the interrupt and of a step of the reader.
  abbrev Handled : ℕ → Console G → List ℕ → Option (Console G) → Type 0
  Handled p s ins none = Unit
  Handled p s ins (some t) = Keeps p s ins [] t

  abbrev Served : ℕ → Console G → Option (Console G × List ℕ) → Type 0
  Served p s none = Unit
  Served p s (some (t, out)) = Keeps p s [] out t

  -- A key reaches the buffer at `b`.
  abbrev enqueued : ℕ → Key → Console G → Console G
  enqueued b key s = record s { buffers = update s.buffers b (G.enqueue (s.buffers b) key) }

  append-IsFront :
      (r : Reader G.State) (l : List Key) (key : Key)
      → Spares r
      → IsFront l r
      → IsFront (l ++ key ∷ []) r
  append-IsFront (unlinking b x none) l key spares (xs, e) =
      (xs ++ key ∷ [], ap (λ k. k ++ key ∷ []) e)
  append-IsFront (unlinking b x (some rest)) l key spares f = absurd spares
  append-IsFront outside l key spares f = tt
  append-IsFront locked l key spares f = tt
  append-IsFront (waiting b) l key spares f = tt
  append-IsFront (taken x) l key spares f = tt

  enqueued_own :
      (p : ℕ) (key : Key) (s : Console G)
      → Spares (s.readers p)
      → HasBuffer p s
      → Keeps p s (char_of key ∷ []) [] (enqueued (s.input_buffer p) key s)
  enqueued_own p key s spares h = record {
    owner = record {
      pos = h.pos;
      buffer = h.buffer;
      own = h.own;
      waits = h.waits;
      front =
          subst (λ l. IsFront l (s.readers p))
            (sym (
              ap G.to_list (update_self s.buffers (s.input_buffer p) _)
              ∙ G.to_list-enqueue (s.buffers (s.input_buffer p)) key))
            (append-IsFront (s.readers p) _ key spares h.front);
    };
    order =
        append_assoc (held (s.readers p)) (map char_of (G.to_list (s.buffers (s.input_buffer p)))) _
        ∙ ap (λ l. held (s.readers p) ++ l)
            (sym (
              ap (λ b. map char_of (G.to_list b)) (update_self s.buffers (s.input_buffer p) _)
              ∙ ap (map char_of) (G.to_list-enqueue (s.buffers (s.input_buffer p)) key)
              ∙ map-append char_of (G.to_list (s.buffers (s.input_buffer p))) (key ∷ [])));
  }

  enqueued_other :
      (p b : ℕ) (key : Key) (s : Console G)
      → b ≢ s.input_buffer p
      → HasBuffer p s
      → Keeps p s [] [] (enqueued b key s)
  enqueued_other p b key s ne h = record {
    owner = record {
      pos = h.pos;
      buffer = h.buffer;
      own = h.own;
      waits = h.waits;
      front =
          subst (λ x. IsFront (G.to_list x) (s.readers p))
            (sym (update_ne s.buffers b _ (s.input_buffer p) ne)) h.front;
    };
    order =
        append-nil (pending p s)
        ∙ sym (
            ap (λ x. held (s.readers p) ++ map char_of (G.to_list x))
              (update_ne s.buffers b _ (s.input_buffer p) ne));
  }

  buffer_of_current :
      (s : Console G) (b : ℕ) → current_buffer G s ≡ some b → b ≡ s.input_buffer s.current
  buffer_of_current s b e = elim (Bool-cases (s.current == 0)) [
    | inl z ↦ cc (rw z at e)
    | inr run ↦ cc (rw run at e)
  ]

  key_own :
      (p b : ℕ) (key : Key) (s : Console G)
      → Spares (s.readers p)
      → HasBuffer p s
      → b ≡ s.input_buffer p
      → Keeps p s (char_of key ∷ []) [] (enqueue_key G b key s)
  unfolding enqueue_key
  key_own p b key s spares h e =
      subst (λ x. Keeps p s (char_of key ∷ []) [] (enqueue_key G x key s)) (sym e)
        (rw (pos-ne_zero (s.input_buffer p) h.buffer) (enqueued_own p key s spares h))

  key_other :
      (p b : ℕ) (key : Key) (s : Console G)
      → HasBuffer p s
      → b ≢ s.input_buffer p
      → Keeps p s [] [] (enqueue_key G b key s)
  unfolding enqueue_key
  key_other p b key s h ne = elim (Bool-cases (b == 0)) [
    | inl z ↦ rw z (kept p s h)
    | inr there ↦ rw there (enqueued_other p b key s ne h)
  ]

  spared :
      (p : ℕ) (s : Console G)
      → Spares (s.readers p) ⊎ (s.current ≢ p)
      → s.current ≡ p
      → Spares (s.readers p)
  spared p s (inl spares) is = spares
  spared p s (inr ne) is = absurd (ne is)

  key-Handled :
      (p : ℕ) (key : Key) (error : Bool) (o : Option ℕ) (s : Console G)
      → Spares (s.readers p) ⊎ (s.current ≢ p)
      → HasBuffer p s
      → current_buffer G s ≡ o
      → Handled p s
          (if error then [] else (if s.current == p then char_of key ∷ [] else []))
          (handle G error o key s)
  key-Handled p key true o s safe h e = kept p s h
  key-Handled p key false none s safe h e = tt
  key-Handled p key false (some b) s safe h e = elim (Bool-cases (s.current == p)) [
    | inl same ↦
        let is : s.current ≡ p = ground arith in
        rw same (
          key_own p b key s (spared p s safe is) h (buffer_of_current s b e ∙ ap s.input_buffer is))
    | inr other ↦
        let ne : s.current ≢ p = ground arith in
        rw other
          (key_other p b key s h (λ z. h.own s.current ne (sym (buffer_of_current s b e) ∙ z)))
  ]

  typed-Keeps :
      (p : ℕ) (key : Key) (s t : Console G)
      → Spares (s.readers p) ⊎ (s.current ≢ p)
      → HasBuffer p s
      → keyboard_handler G key s ≡ some t
      → Keeps p s (reaches p key s) [] t
  unfolding keyboard_handler
  typed-Keeps p key s t safe h e =
      subst (Handled p s (reaches p key s)) e
        (key-Handled p key key.error (current_buffer G s) s safe h refl)

  -- A step of the reader of `p`.
  locked-Keeps :
      (p : ℕ) (s : Console G) (r : Reader G.State) (l : ℕ → ℕ)
      → HasBuffer p s
      → held (s.readers p) ≡ []
      → held r ≡ []
      → WaitsAt (s.input_buffer p) r
      → IsFront (G.to_list (s.buffers (s.input_buffer p))) r
      → Keeps p s [] [] (at_reader G p r (record s { input_buffer_lock = l }))
  locked-Keeps p s r l h before after w f = record {
    owner = record {
      pos = h.pos;
      buffer = h.buffer;
      own = h.own;
      waits = subst (WaitsAt (s.input_buffer p)) (sym (update_self s.readers p r)) w;
      front =
          subst (IsFront (G.to_list (s.buffers (s.input_buffer p))))
            (sym (update_self s.readers p r)) f;
    };
    order =
        append-nil (pending p s)
        ∙ ap (λ l. l ++ map char_of (G.to_list (s.buffers (s.input_buffer p))))
            (before ∙ sym after ∙ ap held (sym (update_self s.readers p r)));
  }

  -- The key in front is taken, and the queue `rest` is left.
  took :
      (p b : ℕ) (x : Key) (xs : List Key) (rest : G.State) (s : Console G)
      → held (s.readers p) ≡ []
      → b ≡ s.input_buffer p
      → G.to_list (s.buffers b) ≡ x ∷ xs
      → G.to_list rest ≡ xs
      → HasBuffer p s
      → Keeps p s [] [] (at_reader G p (taken x) (record s { buffers = update s.buffers b rest }))
  took p b x xs rest s i e l l' h = record {
    owner = record {
      pos = h.pos;
      buffer = h.buffer;
      own = h.own;
      waits = subst (WaitsAt (s.input_buffer p)) (sym (update_self s.readers p (taken x))) tt;
      front =
          subst (IsFront (G.to_list (update s.buffers b rest (s.input_buffer p))))
            (sym (update_self s.readers p (taken x))) tt;
    };
    order =
        append-nil (pending p s)
        ∙ ap (λ r. r ++ map char_of (G.to_list (s.buffers (s.input_buffer p)))) i
        ∙ ap (λ q. map char_of (G.to_list (s.buffers q))) (sym e)
        ∙ ap (map char_of) l
        ∙ sym (
            ap (λ r. held r ++ map char_of (G.to_list (update s.buffers b rest (s.input_buffer p))))
              (update_self s.readers p (taken x))
            ∙ ap (λ q. char_of x ∷ map char_of (G.to_list (update s.buffers b rest q))) (sym e)
            ∙ ap (λ q. char_of x ∷ map char_of (G.to_list q)) (update_self s.buffers b rest)
            ∙ ap (λ q. char_of x ∷ map char_of q) l');
  }

  -- What `dequeue` reads.
  next_of-IsFront :
      (b : ℕ) (x : Key) (xs : List Key) (q : G.State)
      → G.to_list q ≡ x ∷ xs
      → IsFront (G.to_list q) (unlinking b x (next_of G (G.isempty (G.dequeue q)) (G.dequeue q)))
  next_of-IsFront b x xs q l = elim (Bool-cases (G.isempty (G.dequeue q))) [
    | inl last ↦
        let z = (G.isempty_iff (G.dequeue q)).0 last in
        rw last (l ∙ ap (λ k. x ∷ k) (sym (G.to_list-dequeue q x xs l) ∙ z), z)
    | inr more ↦ rw more (xs, l)
  ]

  take_some :
      (p b : ℕ) (l : List Key) (s : Console G)
      → s.readers p ≡ waiting b
      → b ≡ s.input_buffer p
      → G.to_list (s.buffers b) ≡ l
      → G.isempty (s.buffers b) ≡ false
      → HasBuffer p s
      → Served p s (take_key G p b (G.isempty (s.buffers b)) (G.top (s.buffers b)) s)
  take_some p b [] s i e list some_of h = cc (some_of, (G.isempty_iff (s.buffers b)).1 list)
  take_some p b (x ∷ xs) s i e list some_of h =
      let rest = G.dequeue (s.buffers b) in
      let r = unlinking b x (next_of G (G.isempty rest) rest) in
      rw (some_of, G.top-to_list (s.buffers b) x xs list)
        (locked-Keeps p s r s.input_buffer_lock h (ap held i) refl e (
          subst (λ c. IsFront (G.to_list (s.buffers c)) r) e
            (next_of-IsFront b x xs (s.buffers b) list)))

  take_key-Keeps :
      (p b : ℕ) (l : List Key) (s : Console G)
      → s.readers p ≡ waiting b
      → b ≡ s.input_buffer p
      → G.to_list (s.buffers b) ≡ l
      → HasBuffer p s
      → Served p s (take_key G p b (G.isempty (s.buffers b)) (G.top (s.buffers b)) s)
  take_key-Keeps p b l s i e list h = elim (Bool-cases (G.isempty (s.buffers b))) [
    | inl none_of ↦ rw none_of (kept p s h)
    | inr some_of ↦ take_some p b l s i e list some_of h
  ]

  waiting-Keeps :
      (p b : ℕ) (s : Console G)
      → s.readers p ≡ waiting b
      → HasBuffer p s
      → Served p s (get_char_from G p (waiting b) s)
  unfolding get_char_from
  waiting-Keeps p b s i h =
      let e : b ≡ s.input_buffer p = subst (WaitsAt (s.input_buffer p)) i h.waits in
      elim (Bool-cases (b == 0)) [
        | inl z ↦ rw z tt
        | inr there ↦ rw there (take_key-Keeps p b (G.to_list (s.buffers b)) s i e refl h)
      ]

  taken-Keeps :
      (p : ℕ) (key : Key) (s : Console G)
      → s.readers p ≡ taken key
      → HasBuffer p s
      → Keeps p s [] (char_of key ∷ []) (at_reader G p outside (unlock_input_buffer G p s))
  unfolding unlock_input_buffer
  taken-Keeps p key s i h = record {
    owner = record {
      pos = h.pos;
      buffer = h.buffer;
      own = h.own;
      waits = subst (WaitsAt (s.input_buffer p)) (sym (update_self s.readers p outside)) tt;
      front =
          subst (IsFront (G.to_list (s.buffers (s.input_buffer p))))
            (sym (update_self s.readers p outside)) tt;
    };
    order =
        append-nil (pending p s)
        ∙ ap (λ r. held r ++ map char_of (G.to_list (s.buffers (s.input_buffer p)))) i
        ∙ sym (
            ap (λ r. char_of key ∷ held r ++ map char_of (G.to_list (s.buffers (s.input_buffer p))))
              (update_self s.readers p outside));
  }

  outside-Keeps :
      (p : ℕ) (s : Console G)
      → s.readers p ≡ outside
      → HasBuffer p s
      → Served p s (get_char_from G p outside s)
  unfolding get_char_from lock_input_buffer
  outside-Keeps p s i h = elim (Bool-cases (s.input_buffer_lock p == 0)) [
    | inl free ↦ rw free (locked-Keeps p s locked _ h (ap held i) refl tt tt)
    | inr held_by ↦ rw held_by (kept p s h)
  ]

  read-Keeps :
      (p : ℕ) (s : Console G) (r : Reader G.State)
      → s.readers p ≡ r
      → HasBuffer p s
      → Served p s (get_char_from G p r s)
  unfolding get_char_from
  read-Keeps p s outside i h = outside-Keeps p s i h
  read-Keeps p s locked i h =
      locked-Keeps p s (waiting (s.input_buffer p)) s.input_buffer_lock h (ap held i) refl refl tt
  read-Keeps p s (waiting b) i h = waiting-Keeps p b s i h
  read-Keeps p s (unlinking b key none) i h =
      let e : b ≡ s.input_buffer p = subst (WaitsAt (s.input_buffer p)) i h.waits in
      let (xs, l) = subst (IsFront (G.to_list (s.buffers (s.input_buffer p)))) i h.front in
      let l' = ap (λ c. G.to_list (s.buffers c)) e ∙ l in
      took p b key xs (G.dequeue (s.buffers b)) s (ap held i) e l'
        (G.to_list-dequeue (s.buffers b) key xs l') h
  read-Keeps p s (unlinking b key (some rest)) i h =
      let e : b ≡ s.input_buffer p = subst (WaitsAt (s.input_buffer p)) i h.waits in
      let (l, none_of) = subst (IsFront (G.to_list (s.buffers (s.input_buffer p)))) i h.front in
      took p b key [] rest s (ap held i) e (ap (λ c. G.to_list (s.buffers c)) e ∙ l) none_of h
  read-Keeps p s (taken key) i h = taken-Keeps p key s i h

  Step-Keeps :
      (p : ℕ) (s t : Console G) (ins outs : List ℕ)
      → HasBuffer p s
      → Step p s ins outs t
      → Keeps p s ins outs t
  Step-Keeps p s t _ _ h (typed key safe e) = typed-Keeps p key s t safe h e
  Step-Keeps p s _ _ _ h (switched q) = record {
    owner = record {
      pos = h.pos;
      buffer = h.buffer;
      own = h.own;
      waits = h.waits;
      front = h.front;
    };
    order = append-nil (pending p s);
  }
  Step-Keeps p s t _ out h (read run e) = subst (Served p s) e (read-Keeps p s (s.readers p) refl h)

  Run-Keeps :
      (p : ℕ) (s t : Console G) (ins outs : List ℕ)
      → HasBuffer p s
      → Run p s ins outs t
      → Keeps p s ins outs t
  Run-Keeps p s _ _ _ h here = kept p s h
  Run-Keeps p s u _ _ h (later {ins} {outs} {more} {got} {t} run step) =
      let k = Run-Keeps p s t ins outs h run in
      let k' = Step-Keeps p t u more got k.owner step in
      record {
        owner = k'.owner;
        order =
            sym (append_assoc (pending p s) ins more)
            ∙ ap (λ l. l ++ more) k.order
            ∙ append_assoc outs (pending p t) more
            ∙ ap (λ l. outs ++ l) k'.order
            ∙ sym (append_assoc outs got (pending p u));
      }

  -- Whatever interrupts, switches of processes and steps of its reader follow one another, but for a
  -- key that comes for the process while it is inside of `dequeue` with its only key, a process that has an input buffer of its own, and whose reader takes from it, gets the characters of the
  -- keys that were typed without an error while it was the current one, in their order, each once:
  -- those before that it had yet to get and those that came are those that it got and those that it
  -- has still to get.
  pub Run-pending :
      (p : ℕ) (s t : Console G) (ins outs : List ℕ)
      → HasBuffer p s
      → Run p s ins outs t
      → pending p s ++ ins ≡ outs ++ pending p t
  Run-pending p s t ins outs h run = (Run-Keeps p s t ins outs h run).order
