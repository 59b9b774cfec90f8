-- ===== src/Keyboard/Taken.antt =====
-- kernel/kernel/kio.cpp, GetChar: a call where a key is in the buffer.
use juos.Prelude.{
  ℕ, suc, ◌%◌, ◌<◌, ◌≡◌, refl, ◌∙◌, ap, Bool, Option, true, false, some, List, [], ◌∷◌, ◌==◌, arith,
  pos-ne_zero, Bool-cases, inl, inr,
}
use juos.Prelude.Maps.{update, update_self}
use juos.Queue.Fifo.{Fifo}
use juos.Keyboard.{
  Key, Reader, outside, locked, waiting, unlinking, taken, next_of, char_of, Console,
  lock_input_buffer, unlock_input_buffer, at_reader, get_char_from, get_char,
}

module _ (G : Fifo Key) where
  -- A step that returns nothing, and one that does.
  get_char-more :
      (fuel p : ℕ) (r : Reader G.State) (s t : Console G)
      → s.readers p ≡ r
      → get_char_from G p r s ≡ some (t, [])
      → get_char G (suc fuel) p s ≡ get_char G fuel p t
  unfolding get_char
  get_char-more fuel p r s t i e = rw (i, get_char) (rw e refl)

  get_char-last :
      (fuel p : ℕ) (r : Reader G.State) (s t : Console G) (c : ℕ)
      → s.readers p ≡ r
      → get_char_from G p r s ≡ some (t, c ∷ [])
      → get_char G (suc fuel) p s ≡ some (t, c)
  unfolding get_char
  get_char-last fuel p r s t c i e = rw (i, get_char) (rw e refl)

  step_outside :
      (p : ℕ) (s : Console G)
      → s.input_buffer_lock p ≡ 0
      → get_char_from G p outside s
        ≡ some (
          at_reader G p locked (record s { input_buffer_lock = update s.input_buffer_lock p 1 }),
          [],
        )
  unfolding get_char_from lock_input_buffer
  step_outside p s free = let z : (s.input_buffer_lock p == 0) ≡ true = ground arith in rw z refl

  -- What `dequeue` reads as the next node.
  abbrev read_next : G.State → Option G.State
  read_next q = next_of G (G.isempty (G.dequeue q)) (G.dequeue q)

  step_waiting :
      (p b : ℕ) (x : Key) (xs : List Key) (s : Console G)
      → 0 < b
      → G.to_list (s.buffers b) ≡ x ∷ xs
      → get_char_from G p (waiting b) s
        ≡ some (at_reader G p (unlinking b x (read_next (s.buffers b))) s, [])
  unfolding get_char_from
  step_waiting p b x xs s pos l =
      let full : G.isempty (s.buffers b) ≡ false = elim (Bool-cases (G.isempty (s.buffers b))) [
        | inl t ↦ cc (l, (G.isempty_iff (s.buffers b)).0 t)
        | inr f ↦ f
      ] in
      rw (pos-ne_zero b pos) (rw (full, G.top-to_list (s.buffers b) x xs l) refl)

  -- Where nothing comes in between, `dequeue` leaves what it does as a whole.
  step_unlinking :
      (p b : ℕ) (x : Key) (last : Bool) (s : Console G)
      → get_char_from G p (unlinking b x (next_of G last (G.dequeue (s.buffers b)))) s
        ≡ some (
          at_reader G p
              (taken x)
              (record s { buffers = update s.buffers b (G.dequeue (s.buffers b)) }),
          [],
        )
  unfolding get_char_from
  step_unlinking p b x true s = refl
  step_unlinking p b x false s = refl

  -- The states of a call.
  abbrev after_lock : ℕ → Console G → Console G
  after_lock p s =
      at_reader G p locked (record s { input_buffer_lock = update s.input_buffer_lock p 1 })

  abbrev at_buffer : ℕ → Console G → Console G
  at_buffer p s = at_reader G p (waiting (s.input_buffer p)) (after_lock p s)

  abbrev in_dequeue : ℕ → Key → Console G → Console G
  in_dequeue p x s =
      let b = s.input_buffer p in
      at_reader G p (unlinking b x (read_next (s.buffers b))) (at_buffer p s)

  abbrev with_key : ℕ → Key → Console G → Console G
  with_key p x s =
      let b = s.input_buffer p in
      at_reader G p (taken x)
        (record (in_dequeue p x s) { buffers = update s.buffers b (G.dequeue (s.buffers b)) })

  abbrev pub finished : ℕ → Key → Console G → Console G
  finished p x s = at_reader G p outside (unlock_input_buffer G p (with_key p x s))

  get_char-finished :
      (fuel p : ℕ) (x : Key) (xs : List Key) (s : Console G)
      → s.readers p ≡ outside
      → s.input_buffer_lock p ≡ 0
      → 0 < s.input_buffer p
      → G.to_list (s.buffers (s.input_buffer p)) ≡ x ∷ xs
      → get_char G (suc (suc (suc (suc (suc fuel))))) p s ≡ some (finished p x s, char_of x)
  unfolding get_char_from
  get_char-finished fuel p x xs s i free pos l =
      get_char-more (suc (suc (suc (suc fuel)))) p outside s (after_lock p s) i
        (step_outside p s free)
      ∙ get_char-more (suc (suc (suc fuel))) p locked (after_lock p s) (at_buffer p s)
          (update_self s.readers p locked) refl
      ∙ get_char-more (suc (suc fuel)) p (waiting (s.input_buffer p)) (at_buffer p s)
          (in_dequeue p x s) (update_self (after_lock p s).readers p (waiting (s.input_buffer p)))
          (step_waiting p (s.input_buffer p) x xs (at_buffer p s) pos l)
      ∙ get_char-more (suc fuel) p (unlinking (s.input_buffer p) x _) (in_dequeue p x s)
          (with_key p x s) (update_self (at_buffer p s).readers p _)
          (step_unlinking p (s.input_buffer p) x _ (in_dequeue p x s))
      ∙ get_char-last fuel p (taken x) (with_key p x s) (finished p x s) (char_of x)
          (update_self (in_dequeue p x s).readers p (taken x)) refl

  -- Where the lock of a process is free, its reader is outside of the call, its buffer is not null and
  -- has a key in it, and with fuel for five rounds: the call of GetChar returns the low byte of the
  -- first key's character. The buffer is left with the keys behind it, the lock is free, and the
  -- reader is outside again.
  pub get_char-front :
      (fuel p : ℕ) (x : Key) (xs : List Key) (s : Console G)
      → s.readers p ≡ outside
      → s.input_buffer_lock p ≡ 0
      → 0 < s.input_buffer p
      → G.to_list (s.buffers (s.input_buffer p)) ≡ x ∷ xs
      → (t : Console G) × (get_char G (suc (suc (suc (suc (suc fuel))))) p s
          ≡ some (t, x.character % 256))
        × (G.to_list (t.buffers (t.input_buffer p)) ≡ xs)
        × (t.input_buffer_lock p ≡ 0)
        × (t.readers p ≡ outside)
  unfolding unlock_input_buffer
  get_char-front fuel p x xs s i free pos l = (
    finished p x s,
    get_char-finished fuel p x xs s i free pos l,
    ap G.to_list (update_self s.buffers (s.input_buffer p) _)
        ∙ G.to_list-dequeue (s.buffers (s.input_buffer p)) x xs l,
    update_self (with_key p x s).input_buffer_lock p 0,
    update_self (with_key p x s).readers p outside,
  )
