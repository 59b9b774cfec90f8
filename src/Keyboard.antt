-- ===== src/Keyboard.antt =====
-- kernel/kernel/keyboard.cpp, the locks of kernel/include/kernel/lock.h and `GetChar` of
-- kernel/kernel/kio.cpp: keys go from the interrupt to the input buffer of the current process, and
-- the process takes them out. A process is its address, and 0 is none; buffers are by address over
-- any first-in first-out queue. The interrupt changes a queue at once; the reader takes a key in two
-- steps, between which interrupts can come. Calls of the allocator are whole. `none` is a null pointer
-- that is read.
pub mod Order
pub mod Taken
use juos.Prelude.{
  ℕ, zero, suc, ◌%◌, Bool, true, false, Option, none, some, List, [], ◌∷◌, ◌==◌, if◌then◌else◌,
}
use juos.Prelude.Maps.{update}
use juos.Queue.Fifo.{Fifo}

-- `InputKeyType`
pub record Key : Type 0 where
  pub character : ℕ
  pub error : Bool

-- Where a process stands in `GetChar`: before the lock, before and behind the call of GetInputBuffer,
-- in `dequeue` before it stores the pointer to the next node, and with a key before the lock is
-- released. In `dequeue` it holds the buffer, the first element, and the queue behind the first node
-- where that is empty, since the pointer is then null; `none` is a node that keys can be added behind.
pub data Reader (Q : Type 0) : Type 0 where
  outside : Reader Q
  locked : Reader Q
  waiting : ℕ → Reader Q
  unlinking : ℕ → Key → Option Q → Reader Q
  taken : Key → Reader Q

-- The `char` that is returned, as its byte.
abbrev pub char_of : Key → ℕ
char_of key = key.character % 256

module _ (G : Fifo Key) where
  pub record Console : Type 0 where
    pub current : ℕ
    pub input_buffer : ℕ → ℕ
    pub input_buffer_lock : ℕ → ℕ
    pub buffers : ℕ → G.State
    pub readers : ℕ → Reader G.State

  abbrev pub current_buffer : Console → Option ℕ
  current_buffer s = if s.current == 0 then none else some (s.input_buffer s.current)

  -- The key in the buffer at `b`, unless that is nullptr.
  unfoldable pub enqueue_key : ℕ → Key → Console → Console
  enqueue_key b key s =
      if b == 0 then s else record s { buffers = update s.buffers b (G.enqueue (s.buffers b) key) }

  -- `KeyboardHandler` behind the call of the source, with the error and the buffer.
  abbrev pub handle : Bool → Option ℕ → Key → Console → Option Console
  handle true buffer key s = some s
  handle false none key s = none
  handle false (some b) key s = some (enqueue_key b key s)

  -- `KeyboardHandler`, for the key that the source gives.
  unfoldable pub keyboard_handler : Key → Console → Option Console
  unfolding enqueue_key
  keyboard_handler key s = handle key.error (current_buffer s) key s

  -- `LockInputBuffer`, one try of the spinning loop, and `UnlockInputBuffer`, for the process `p`.
  unfoldable pub lock_input_buffer : ℕ → Console → Bool × Console
  lock_input_buffer p s =
      if s.input_buffer_lock p == 0
      then (true, record s { input_buffer_lock = update s.input_buffer_lock p 1 })
      else (false, s)

  unfoldable pub unlock_input_buffer : ℕ → Console → Console
  unlock_input_buffer p s = record s { input_buffer_lock = update s.input_buffer_lock p 0 }

  abbrev pub at_reader : ℕ → Reader G.State → Console → Console
  at_reader p r s = record s { readers = update s.readers p r }

  -- What the pointer to the next node leads to, with whether that is null.
  abbrev pub next_of : Bool → G.State → Option G.State
  next_of true rest = some rest
  next_of false rest = none

  -- One round of the loop that waits for a key, with what the buffer at `b` says: the process halts
  -- until the next interrupt, or `dequeue` reads the first node.
  abbrev pub take_key : ℕ → ℕ → Bool → Option Key → Console → Option (Console × List ℕ)
  take_key p b true key s = some (s, [])
  take_key p b false none s = none
  take_key p b false (some key) s =
      let rest = G.dequeue (s.buffers b) in
      some (at_reader p (unlinking b key (next_of (G.isempty rest) rest)) s, [])

  -- The next step of `GetChar` in the process `p`, which runs, with the characters that it returns.
  unfoldable pub get_char_from : ℕ → Reader G.State → Console → Option (Console × List ℕ)
  unfolding lock_input_buffer unlock_input_buffer
  get_char_from p outside s =
      let (acquired, t) = lock_input_buffer p s in
      some (if acquired then at_reader p locked t else t, [])
  get_char_from p locked s = some (at_reader p (waiting (s.input_buffer p)) s, [])
  get_char_from p (waiting b) s =
      if b == 0 then none else take_key p b (G.isempty (s.buffers b)) (G.top (s.buffers b)) s
  get_char_from p (unlinking b key (some rest)) s =
      some (at_reader p (taken key) (record s { buffers = update s.buffers b rest }), [])
  get_char_from p (unlinking b key none) s = some (
    at_reader p (taken key) (record s { buffers = update s.buffers b (G.dequeue (s.buffers b)) }),
    [],
  )
  get_char_from p (taken key) s =
      some (at_reader p outside (unlock_input_buffer p s), char_of key ∷ [])

  abbrev pub get_char_step : ℕ → Console → Option (Console × List ℕ)
  get_char_step p s = get_char_from p (s.readers p) s

  -- A call of `GetChar` in the process `p`, where nothing comes between its steps; fuel for the rounds
  -- of its loops.
  unfoldable pub get_char : ℕ → ℕ → Console → Option (Console × ℕ)
  unfolding get_char_from
  get_char zero p s = none
  get_char (suc fuel) p s = elim (get_char_step p s) [
    | none ↦ none
    | some (t, []) ↦ get_char fuel p t
    | some (t, c ∷ cs) ↦ some (t, c)
  ]
