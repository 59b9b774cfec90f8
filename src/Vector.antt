-- ===== src/Vector.antt =====
-- kernel/include/kernel/data_structures/vector.hpp: the growing array. The buffer is the list of the
-- slots behind `buffer`, as many as were allocated; a slot that was allocated and not written holds
-- the argument `blank`. Sizes are 32-bit words. `none` is an access outside a buffer. The
-- constructors and `resize`, which compute `Log` by floating point, are not modelled.
pub mod Growth
use juos.Prelude.{
  ℕ, zero, suc, ◌+◌, ◌^◌, ◌%◌, Bool, true, false, Option, none, some, List, [], ◌∷◌, leb, ltb,
  if◌then◌else◌, length, replicate, set, get_or, take,
}
use juos.Prelude.Words.{add32, sub32, wrap32}

pub record Vector {ℓ} (A : Type ℓ) : Type ℓ where
  pub size : ℕ
  pub capacity : ℕ
  pub log : ℕ
  pub buffer : List A

infixl 5 ◌>>=◌
abbrev pub ◌>>=◌ {ℓ κ} : {A : Type ℓ} {B : Type κ} → Option A → (A → Option B) → Option B
none >>= f = none
some a >>= f = f a

module _ {ℓ} {A : Type ℓ} where
  unfoldable pub load : List A → ℕ → Option A
  load [] i = none
  load (x ∷ xs) zero = some x
  load (x ∷ xs) (suc i) = load xs i

  unfoldable pub store : List A → ℕ → A → Option (List A)
  store xs i v = if ltb i (length xs) then some (set xs i v) else none

  -- `for (i = 0; i < n; i++) to[i] = from[i]`, from round `i` on; the rounds left are counted.
  unfoldable pub copy_from : ℕ → ℕ → List A → List A → Option (List A)
  unfolding load store
  copy_from zero i from to = some to
  copy_from (suc rounds) i from to = elim (load from i) [
    | none ↦ none
    | some x ↦ elim (store to i x) [ none ↦ none | some to' ↦ copy_from rounds (i + 1) from to' ]
  ]

  unfoldable pub empty_vector : Vector A
  empty_vector = record { size = 0; capacity = 0; log = 0; buffer = [] }

  -- `clear` gives the buffer up without freeing it.
  unfoldable pub clear : Vector A → Vector A
  unfolding empty_vector
  clear v = empty_vector

  -- `_size--` on an unsigned word.
  unfoldable pub pop_back : Vector A → Vector A
  pop_back v = record v { size = sub32 v.size 1 }

  -- `buffer[index]`
  abbrev pub at : Vector A → ℕ → Option A
  at v i = load v.buffer i

  abbrev pub back : Vector A → Option A
  back v = load v.buffer (sub32 v.size 1)

  -- What a loop from `begin()` to `end()` sees.
  unfoldable pub to_list : Vector A → List A
  to_list v = take v.size v.buffer

  module _ (blank : A) where
    unfoldable pub reserve : ℕ → Vector A → Option (Vector A)
    unfolding copy_from
    reserve capacity v = copy_from v.size 0 v.buffer (replicate capacity blank) >>= λ b.
        some (record v { capacity = capacity; buffer = b })

    -- The test and the growth in `push_back`.
    unfoldable pub grow : Vector A → Option (Vector A)
    unfolding reserve
    grow v =
        if leb v.capacity v.size
        then (reserve (wrap32 (2 ^ v.log)) v >>= λ w. some (record w { log = add32 w.log 1 }))
        else some v

    unfoldable pub push_back : A → Vector A → Option (Vector A)
    unfolding grow
    push_back x v = do
      w ← grow v
      b ← store w.buffer w.size x
      some (record w { size = add32 w.size 1; buffer = b })

    -- The copy constructor: it takes the capacity over, and allocates the size.
    unfoldable pub copy_vector : Vector A → Option (Vector A)
    unfolding copy_from
    copy_vector v =
        copy_from v.size 0 v.buffer (replicate v.size blank) >>= λ b. some (record v { buffer = b })

    -- `operator=` allocates the capacity.
    unfoldable pub assign_vector : Vector A → Option (Vector A)
    unfolding copy_from
    assign_vector v = copy_from v.size 0 v.buffer (replicate v.capacity blank) >>= λ b.
        some (record v { buffer = b })
