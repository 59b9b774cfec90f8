-- ===== src/Tests/Keys.antt =====
-- The theorems on the keyboard at two processes, 3 and 5, with the buffers 30 and 50.
use juos.Prelude.{
  ◌*◌, ◌≡◌, refl, ◌↔◌, Bool, inl, true, false, Option, none, some, List, [], ◌∷◌, ◌++◌, arith,
}
use juos.Queue.Fifo.{Fifo}
use juos.Keyboard.{
  Key, outside, Console, get_char, keyboard_handler, enqueue_key, get_char_from, lock_input_buffer,
  unlock_input_buffer,
}
use juos.Keyboard.Taken.{get_char-front}
use juos.Keyboard.Order.{HasBuffer, Run, here, later, typed, switched, read, pending, Run-pending}

abbrev key_isempty : List Key → Bool
key_isempty [] = true
key_isempty (x ∷ xs) = false

abbrev key_top : List Key → Option Key
key_top [] = none
key_top (x ∷ xs) = some x

abbrev key_dequeue : List Key → List Key
key_dequeue [] = []
key_dequeue (x ∷ xs) = xs

key_isempty_iff : (s : List Key) → (key_isempty s ≡ true) ↔ (s ≡ [])
key_isempty_iff [] = (λ _. refl, λ _. refl)
key_isempty_iff (x ∷ xs) = (λ e. cc, λ e. cc)

key_top_lem : (s : List Key) (x : Key) (xs : List Key) → s ≡ x ∷ xs → key_top s ≡ some x
key_top_lem [] x xs e = cc
key_top_lem (y ∷ ys) x xs e = cc

key_dequeue_lem : (s : List Key) (x : Key) (xs : List Key) → s ≡ x ∷ xs → key_dequeue s ≡ xs
key_dequeue_lem [] x xs e = cc
key_dequeue_lem (y ∷ ys) x xs e = cc

abbrev keys : Fifo Key
keys = record {
  State = List Key;
  to_list = λ s. s;
  isempty = key_isempty;
  top = key_top;
  enqueue = λ s x. s ++ x ∷ [];
  dequeue = key_dequeue;
  isempty_iff = key_isempty_iff;
  top-to_list = key_top_lem;
  to_list-enqueue = λ s x. refl;
  to_list-dequeue = key_dequeue_lem;
}

abbrev letter : Key
letter = record { character = 97; error = false }

abbrev console : Console keys
console = record {
  current = 3;
  input_buffer = λ p. p * 10;
  input_buffer_lock = λ _. 0;
  buffers = λ _. [];
  readers = λ _. outside;
}

console-HasBuffer : HasBuffer keys 3 console
console-HasBuffer = record {
  pos = omega arith;
  buffer = omega arith;
  own = λ q ne e. ne (omega (arith, e));
  waits = tt;
  front = tt;
}

-- A letter is typed in the process 3 and one in the process 5, and 3 reads.
abbrev after : (t : Console keys) × Run keys 3 console (97 ∷ []) (97 ∷ []) t
unfolding keyboard_handler enqueue_key get_char_from lock_input_buffer unlock_input_buffer
after = (
  _,
  later
      (later
        (later
          (later
            (later
              (later
                (later (later (later here (typed letter (inl tt) refl)) (switched 5))
                  (typed letter (inl tt) refl))
                (switched 3))
              (read refl refl))
            (read refl refl))
          (read refl refl))
        (read refl refl))
      (read refl refl),
)

Run-pending_example : pending keys 3 console ++ 97 ∷ [] ≡ (97 ∷ []) ++ pending keys 3 after.0
Run-pending_example =
    Run-pending keys 3 console after.0 (97 ∷ []) (97 ∷ []) console-HasBuffer after.1

abbrev ready : Console keys
ready = record console { buffers = λ b. letter ∷ [] }

get_char-front_example :
    (t : Console keys) × (get_char keys 5 3 ready ≡ some (t, 97))
    × (t.buffers (t.input_buffer 3) ≡ [])
    × (t.input_buffer_lock 3 ≡ 0)
    × (t.readers 3 ≡ outside)
get_char-front_example = get_char-front keys 0 3 letter [] ready refl refl (omega arith) refl
