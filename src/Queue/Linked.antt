-- ===== src/Queue/Linked.antt =====
-- What a queue of queue.hpp stands for, and that its operations are those of a first-in first-out
-- list.
use juos.Prelude.{
  ℕ, zero, suc, ◌<◌, ◌≡◌, refl, sym, ◌↔◌, ◌≢◌, ◌⊎◌, inl, inr, true, Option, none, some, List, [],
  ◌∷◌, ◌++◌, arith, length,
}
use juos.Prelude.Maps.{update}
use juos.Queue.{Queue, Node, isempty, enqueue, dequeue, top, makeempty}

module _ {ℓ} {A : Type ℓ} where
  abbrev pub head_addr : List (ℕ × A) → ℕ
  head_addr [] = 0
  head_addr ((a, x) ∷ ns) = a

  abbrev pub last_addr : List (ℕ × A) → ℕ
  last_addr [] = 0
  last_addr ((a, x) ∷ []) = a
  last_addr (n ∷ m ∷ ns) = last_addr (m ∷ ns)

  abbrev pub NotIn : ℕ → List (ℕ × A) → Type 0
  NotIn p [] = Unit
  NotIn p ((a, x) ∷ ns) = (p ≢ a) × NotIn p ns

  -- The store holds the nodes in order, at distinct addresses that are not NULL.
  abbrev pub IsLinked : (ℕ → Option (Node A)) → List (ℕ × A) → Type ℓ
  IsLinked c [] = Unit
  IsLinked c ((a, x) ∷ ns) =
      (0 < a)
      × (c a ≡ some (record { element = x; next = head_addr ns }))
      × NotIn a ns
      × IsLinked c ns

  pub record Holds (q : Queue A) (ns : List (ℕ × A)) : Type ℓ where
    pub starts : q.first ≡ head_addr ns
    pub ends : (ns ≡ []) ⊎ (q.last ≡ last_addr ns)
    pub linked : IsLinked q.cells ns

  IsLinked-update :
      (c : ℕ → Option (Node A)) (p : ℕ) (v : Option (Node A)) (ns : List (ℕ × A))
      → NotIn p ns
      → IsLinked c ns
      → IsLinked (update c p v) ns
  IsLinked-update c p v [] n h = tt
  IsLinked-update c p v ((a, x) ∷ ns) n h = ground (arith, IsLinked-update c p v ns)

  NotIn-append :
      (a p : ℕ) (x : A) (ns : List (ℕ × A)) → NotIn a ns → a ≢ p → NotIn a (ns ++ (p, x) ∷ [])
  NotIn-append a p x [] n h = (h, tt)
  NotIn-append a p x (m ∷ ns) n h = (n.0, NotIn-append a p x ns n.1 h)

  last_addr-ne : (a : ℕ) (m : ℕ × A) (ns : List (ℕ × A)) → NotIn a (m ∷ ns) → a ≢ last_addr (m ∷ ns)
  last_addr-ne a m [] n = n.0
  last_addr-ne a m (k ∷ ns) n = last_addr-ne a k ns n.1

  -- The node that the list ends in, and what appending behind it does.
  append-IsLinked :
      (c : ℕ → Option (Node A)) (p : ℕ) (x : A) (n : ℕ × A) (ns : List (ℕ × A))
      → 0 < p
      → NotIn p (n ∷ ns)
      → IsLinked c (n ∷ ns)
      → (y : A) × (c (last_addr (n ∷ ns)) ≡ some (record { element = y; next = 0 }))
        × (last_addr (n ∷ ns) ≢ p)
        × IsLinked
            (update
              (update c p (some (record { element = x; next = 0 })))
              (last_addr (n ∷ ns))
              (some (record { element = y; next = p })))
            ((n ∷ ns) ++ (p, x) ∷ [])
  append-IsLinked c p x (a, y) [] pos out h =
      (y, h.1, ground arith, (h.0, ground arith, (ground arith, tt), (pos, ground arith, tt, tt)))
  append-IsLinked c p x (a, y) ((b, z) ∷ ns) pos out h =
      let (w, e, ne, l) = append-IsLinked c p x (b, z) ns pos out.1 h.3 in
      let apart = last_addr-ne a (b, z) ns h.2 in
      (w, e, ne, (h.0, ground arith, NotIn-append a p x ((b, z) ∷ ns) h.2 (ground arith), l))

  -- Behind the last node, whose `next` was NULL.
  enqueue_behind :
      (p : ℕ) (x y : A) (q : Queue A) (end : ℕ)
      → 0 < q.first
      → q.last ≡ end
      → q.cells end ≡ some (record { element = y; next = 0 })
      → end ≢ p
      → enqueue p x q
        ≡ some (record {
          cells =
              update
                (update q.cells p (some (record { element = x; next = 0 })))
                end
                (some (record { element = y; next = p }));
          first = q.first;
          last = p;
        })
  unfolding enqueue
  enqueue_behind p x y q end pos e c ne = rw (← e) (ground arith)

  last_addr-append :
      (p : ℕ) (x : A) (n : ℕ × A) (ns : List (ℕ × A)) → last_addr ((n ∷ ns) ++ (p, x) ∷ []) ≡ p
  last_addr-append p x n [] = refl
  last_addr-append p x n (m ∷ ns) = last_addr-append p x m ns

  ends_at :
      {q : Queue A} {n : ℕ × A} {ns : List (ℕ × A)} → Holds q (n ∷ ns) → q.last ≡ last_addr (n ∷ ns)
  ends_at h = elim h.ends [ inl e ↦ cc | inr e ↦ e ]

  -- A queue that holds the nodes `ns` accepts an element in a node at a fresh address that is not
  -- NULL, and then holds that node behind the others.
  pub enqueue-Holds :
      (p : ℕ) (x : A) (q : Queue A) (ns : List (ℕ × A))
      → 0 < p
      → NotIn p ns
      → Holds q ns
      → (q' : Queue A) × (enqueue p x q ≡ some q') × Holds q' (ns ++ (p, x) ∷ [])
  unfolding enqueue
  enqueue-Holds p x q [] pos out h = (
    record {
      cells = update q.cells p (some (record { element = x; next = 0 }));
      first = p;
      last = p;
    },
    ground arith,
    record { starts = refl; ends = inr refl; linked = (pos, ground arith, tt, tt) },
  )
  enqueue-Holds p x q (n ∷ ns) pos out h =
      let (y, e, ne, l) = append-IsLinked q.cells p x n ns pos out h.linked in
      let apart = last_addr-ne p n ns out in
      (
        record {
          cells =
              update (update q.cells p (some (record { element = x; next = 0 })))
                (last_addr (n ∷ ns)) (some (record { element = y; next = p }));
          first = q.first;
          last = p;
        },
        enqueue_behind p x y q _ (ground arith) (ends_at h) e ne,
        record { starts = h.starts; ends = inr (sym (last_addr-append p x n ns)); linked = l },
      )

  tail_ends :
      (q : Queue A) (a : ℕ) (x : A) (ns : List (ℕ × A))
      → Holds q ((a, x) ∷ ns)
      → (ns ≡ []) ⊎ (q.last ≡ last_addr ns)
  tail_ends q a x [] h = inl refl
  tail_ends q a x (m ∷ ns) h = inr (ends_at h)

  -- A queue that is not empty gives its first element, and holds the others.
  pub dequeue-Holds :
      (q : Queue A) (n : ℕ × A) (ns : List (ℕ × A))
      → Holds q (n ∷ ns)
      → (q' : Queue A) × (dequeue q ≡ some (some n.1, q')) × Holds q' ns
  unfolding dequeue
  dequeue-Holds q (a, x) ns h = (
    record { cells = update q.cells a none; first = head_addr ns; last = q.last },
    ground arith,
    record {
      starts = refl;
      ends = tail_ends q a x ns h;
      linked = IsLinked-update q.cells a none ns h.linked.2 h.linked.3;
    },
  )

  -- On an empty queue it returns `nullptr` and changes nothing.
  dequeue-empty : (q : Queue A) → Holds q [] → dequeue q ≡ some (none, q)
  unfolding dequeue
  dequeue-empty q h = ground arith

  pub isempty-Holds :
      (q : Queue A) (ns : List (ℕ × A)) → Holds q ns → (isempty q ≡ true) ↔ (ns ≡ [])
  unfolding isempty
  isempty-Holds q [] h = (λ _. refl, λ _. rw (h.starts))
  isempty-Holds q (n ∷ ns) h = (λ e. absurd (ground arith), λ e. cc)

  pub top-Holds :
      (q : Queue A) (n : ℕ × A) (ns : List (ℕ × A)) → Holds q (n ∷ ns) → top q ≡ some n.1
  unfolding top
  top-Holds q n ns h = ground arith

  -- With fuel for each node and one more test, emptying ends, and the queue is empty.
  pub makeempty-Holds :
      (fuel : ℕ) (q : Queue A) (ns : List (ℕ × A))
      → length ns < fuel
      → Holds q ns
      → (q' : Queue A) × (makeempty fuel q ≡ some q') × Holds q' []
  unfolding makeempty
  makeempty-Holds zero q ns lt h = absurd (omega arith)
  makeempty-Holds (suc fuel) q [] lt h = (q, ground arith, h)
  makeempty-Holds (suc fuel) q (n ∷ ns) lt h =
      let (q₁, e, h₁) = dequeue-Holds q n ns h in
      let (q₂, e₂, h₂) = makeempty-Holds fuel q₁ ns (omega arith) h₁ in
      (q₂, ground (arith, e, e₂), h₂)
