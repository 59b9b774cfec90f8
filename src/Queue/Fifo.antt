-- ===== src/Queue/Fifo.antt =====
-- What the scheduler asks of kernel/include/kernel/data_structures/queue.hpp: a first-in first-out
-- queue behind its laws. `to_list` is the queue's contents, oldest first. The second part fills the
-- interface with the linked queue, for any allocator that returns fresh addresses.
use juos.Prelude.{ℕ, ◌<◌, ◌≡◌, refl, ◌∙◌, ◌↔◌, Bool, true, Option, some, List, [], ◌∷◌, ◌++◌, map}
use mathlib.Core.List.{map-append}
use juos.Queue.{Queue, empty}
use juos.Queue
use juos.Queue.Linked.{Holds, NotIn, enqueue-Holds, dequeue-Holds, isempty-Holds, top-Holds}

pub record Fifo {ℓ} (A : Type ℓ) : Type (ℓ + 1) where
  pub State : Type ℓ
  pub to_list : State → List A
  pub isempty : State → Bool
  pub top : State → Option A
  pub enqueue : State → A → State
  -- The element is dropped: the code reads it by `top` or from the result.
  pub dequeue : State → State
  pub isempty_iff : (s : State) → (isempty s ≡ true) ↔ (to_list s ≡ [])
  pub top-to_list : (s : State) (x : A) (xs : List A) → to_list s ≡ x ∷ xs → top s ≡ some x
  pub to_list-enqueue : (s : State) (x : A) → to_list (enqueue s x) ≡ to_list s ++ x ∷ []
  pub to_list-dequeue :
      (s : State) (x : A) (xs : List A) → to_list s ≡ x ∷ xs → to_list (dequeue s) ≡ xs

-- `operator new`: an address that is not NULL and not in use.
pub record Allocator {ℓ} (A : Type ℓ) : Type ℓ where
  pub alloc : List (ℕ × A) → ℕ
  pub alloc_pos : (ns : List (ℕ × A)) → 0 < alloc ns
  pub alloc_fresh : (ns : List (ℕ × A)) → NotIn (alloc ns) ns

module _ {ℓ} {A : Type ℓ} (new : Allocator A) where
  abbrev pub LinkedState : Type ℓ
  LinkedState = (q : Queue A) × (ns : List (ℕ × A)) × Holds q ns

  abbrev contents : LinkedState → List A
  contents s = map (λ n. n.1) s.1

  abbrev linked_enqueue : LinkedState → A → LinkedState
  linked_enqueue (q, ns, h) x =
      let p = new.alloc ns in
      let r = enqueue-Holds p x q ns (new.alloc_pos ns) (new.alloc_fresh ns) h in
      (r.0, ns ++ (p, x) ∷ [], r.2)

  abbrev linked_dequeue : LinkedState → LinkedState
  linked_dequeue (q, [], h) = (q, [], h)
  linked_dequeue (q, n ∷ ns, h) = let r = dequeue-Holds q n ns h in (r.0, ns, r.2)

  pub linked_isempty_iff : (s : LinkedState) → (Queue.isempty s.0 ≡ true) ↔ (contents s ≡ [])
  linked_isempty_iff (q, [], h) = (λ _. refl, λ _. (isempty-Holds q [] h).1 refl)
  linked_isempty_iff (q, n ∷ ns, h) = (λ e. cc ((isempty-Holds q (n ∷ ns) h).0 e), λ e. cc)

  pub linked_top :
      (s : LinkedState) (x : A) (xs : List A) → contents s ≡ x ∷ xs → Queue.top s.0 ≡ some x
  linked_top (q, [], h) x xs e = cc
  linked_top (q, n ∷ ns, h) x xs e = top-Holds q n ns h ∙ cc

  pub linked_contents-enqueue :
      (s : LinkedState) (x : A) → contents (linked_enqueue s x) ≡ contents s ++ x ∷ []
  linked_contents-enqueue (q, ns, h) x = map-append (λ n. n.1) ns ((new.alloc ns, x) ∷ [])

  pub linked_contents-dequeue :
      (s : LinkedState) (x : A) (xs : List A)
      → contents s ≡ x ∷ xs
      → contents (linked_dequeue s) ≡ xs
  linked_contents-dequeue (q, [], h) x xs e = cc
  linked_contents-dequeue (q, n ∷ ns, h) x xs e = cc

  -- The linked queue is a first-in first-out queue, for any allocator.
  abbrev pub linked_fifo : Fifo A
  linked_fifo = record {
    State = LinkedState;
    to_list = contents;
    isempty = λ s. Queue.isempty s.0;
    top = λ s. Queue.top s.0;
    enqueue = linked_enqueue;
    dequeue = linked_dequeue;
    isempty_iff = linked_isempty_iff;
    top-to_list = linked_top;
    to_list-enqueue = linked_contents-enqueue;
    to_list-dequeue = linked_contents-dequeue;
  }
