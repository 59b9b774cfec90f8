-- ===== src/Queue.antt =====
-- kernel/include/kernel/data_structures/queue.hpp: the singly linked queue of the scheduler and of
-- the keyboard. The node store is explicit: an address is a number, 0 is NULL, and a cell that is
-- `none` is not a live node. The address that `new` returns is an argument of `enqueue`.
pub mod Linked
pub mod Fifo
use juos.Prelude.{ℕ, zero, suc, Bool, true, false, Option, none, some, ◌==◌, if◌then◌else◌}
use juos.Prelude.Maps.{update}

pub record Node {ℓ} (A : Type ℓ) : Type ℓ where
  pub element : A
  pub next : ℕ

pub record Queue {ℓ} (A : Type ℓ) : Type ℓ where
  pub cells : ℕ → Option (Node A)
  pub first : ℕ
  pub last : ℕ

-- `none` is a fault: a NULL or dangling pointer is followed.
infixl 5 ◌>>=◌
abbrev pub ◌>>=◌ {ℓ κ} : {A : Type ℓ} {B : Type κ} → Option A → (A → Option B) → Option B
none >>= f = none
some a >>= f = f a

module _ {ℓ} {A : Type ℓ} where
  unfoldable pub empty : Queue A
  empty = record { cells = λ _. none; first = 0; last = 0 }

  unfoldable pub isempty : Queue A → Bool
  isempty q = q.first == 0

  -- `p->next = n`
  abbrev link : (ℕ → Option (Node A)) → ℕ → ℕ → Option (ℕ → Option (Node A))
  link cells p n = cells p >>= λ c. some (update cells p (some (record c { next = n })))

  enqueue_last : ℕ → A → Queue A → Option (Queue A)
  enqueue_last p x q = do
    cells ← link (update q.cells p (some (record { element = x; next = 0 }))) q.last p
    c ← cells q.last
    some (record { cells = cells; first = q.first; last = c.next })

  unfoldable pub enqueue : ℕ → A → Queue A → Option (Queue A)
  unfolding isempty enqueue_last
  enqueue p x q =
      if isempty q
      then some (record {
        cells = update q.cells p (some (record { element = x; next = 0 }));
        first = p;
        last = p;
      })
      else enqueue_last p x q

  -- The inner `none` is the `nullptr` that an empty queue returns.
  unfoldable pub dequeue : Queue A → Option (Option A × Queue A)
  unfolding isempty
  dequeue q =
      if isempty q
      then some (none, q)
      else (q.cells q.first >>= λ c. some (
        some c.element,
        record { cells = update q.cells q.first none; first = c.next; last = q.last },
      ))

  unfoldable pub top : Queue A → Option A
  top q = q.cells q.first >>= λ c. some c.element

  unfoldable pub makeempty : ℕ → Queue A → Option (Queue A)
  unfolding isempty dequeue
  makeempty zero q = none
  makeempty (suc fuel) q = elim (isempty q) [
    | true ↦ some q
    | false ↦ dequeue q >>= λ r. makeempty fuel r.1
  ]
