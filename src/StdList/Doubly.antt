-- ===== src/StdList/Doubly.antt =====
-- What a list of libstdcxx/list.hpp stands for, and that a push appends.
use juos.Prelude.{
  ℕ, ◌+◌, ◌<◌, ◌≡◌, refl, sym, ◌≢◌, Option, some, List, [], ◌∷◌, ◌++◌, arith, length, length-append,
}
use juos.Prelude.Maps.{update}
use juos.Prelude.Words.{add32, u32_mod}
use juos.Queue.Linked.{head_addr, last_addr, NotIn}
use juos.StdList.{DoubleLinkedNode, LinkedList, insert_internal, push_back, link_before}

module _ {ℓ} {A : Type ℓ} where
  -- The nodes lead to one another in both directions, from a node whose `prev` is `before`; their
  -- addresses are distinct and not null.
  abbrev pub IsDoubly : (ℕ → Option (DoubleLinkedNode A)) → ℕ → List (ℕ × A) → Type ℓ
  IsDoubly c before [] = Unit
  IsDoubly c before ((a, x) ∷ ns) =
      (0 < a)
      × (c a ≡ some (record { val = x; next = head_addr ns; prev = before }))
      × NotIn a ns
      × IsDoubly c a ns

  pub record HoldsList (l : LinkedList A) (ns : List (ℕ × A)) : Type ℓ where
    pub starts : l.m_head ≡ head_addr ns
    pub ends : l.m_tail ≡ last_addr ns
    pub sized : l.m_size ≡ length ns
    pub doubly : IsDoubly l.cells 0 ns

  NotIn-snoc :
      (a n : ℕ) (x : A) (ns : List (ℕ × A)) → NotIn a ns → a ≢ n → NotIn a (ns ++ (n, x) ∷ [])
  NotIn-snoc a n x [] h ne = (ne, tt)
  NotIn-snoc a n x (m ∷ ns) h ne = (h.0, NotIn-snoc a n x ns h.1 ne)

  NotIn-last : (a : ℕ) (m : ℕ × A) (ns : List (ℕ × A)) → NotIn a (m ∷ ns) → a ≢ last_addr (m ∷ ns)
  NotIn-last a m [] h = h.0
  NotIn-last a m (k ∷ ns) h = NotIn-last a k ns h.1

  last_addr-snoc : (n : ℕ) (x : A) (ns : List (ℕ × A)) → last_addr (ns ++ (n, x) ∷ []) ≡ n
  last_addr-snoc n x [] = refl
  last_addr-snoc n x (m ∷ []) = refl
  last_addr-snoc n x (m ∷ k ∷ ns) = last_addr-snoc n x (k ∷ ns)

  -- The last node, and the nodes after a new one is linked behind it.
  snoc-IsDoubly :
      (c : ℕ → Option (DoubleLinkedNode A)) (before n : ℕ) (x : A) (m : ℕ × A) (ns : List (ℕ × A))
      → 0 < n
      → NotIn n (m ∷ ns)
      → IsDoubly c before (m ∷ ns)
      → let last = last_addr (m ∷ ns) in
        (y : A) × (p : ℕ) × (c last ≡ some (record { val = y; next = 0; prev = p }))
        × (last ≢ n)
        × (0 < last)
        × IsDoubly
            (update
              (update c n (some (record { val = x; next = 0; prev = last })))
              last
              (some (record { val = y; next = n; prev = p })))
            before
            ((m ∷ ns) ++ (n, x) ∷ [])
  snoc-IsDoubly c before n x (a, y) [] pos out h = (
    y,
    before,
    h.1,
    ground arith,
    h.0,
    (h.0, ground arith, (ground arith, tt), (pos, ground arith, tt, tt)),
  )
  snoc-IsDoubly c before n x (a, y) ((b, z) ∷ ns) pos out h =
      let (w, p, e, ne, lp, l) = snoc-IsDoubly c a n x (b, z) ns pos out.1 h.3 in
      let apart = NotIn-last a (b, z) ns h.2 in
      (w, p, e, ne, lp, (h.0, ground arith, NotIn-snoc a n x ((b, z) ∷ ns) h.2 (ground arith), l))

  -- A push behind a last node.
  push_behind :
      (n : ℕ) (item y : A) (p last : ℕ) (l : LinkedList A)
      → l.m_tail ≡ last
      → 0 < last
      → last ≢ n
      → l.cells last ≡ some (record { val = y; next = 0; prev = p })
      → push_back n item l
        ≡ some (record {
          cells =
              update
                (update l.cells n (some (record { val = item; next = 0; prev = last })))
                last
                (some (record { val = y; next = n; prev = p }));
          m_size = add32 l.m_size 1;
          m_head = l.m_head;
          m_tail = n;
        })
  unfolding push_back insert_internal link_before
  push_behind n item y p last l e pos ne c = rw (← e) (ground arith)

  -- A list that holds the nodes `ns`, fewer than 2 ^ 32 - 1, takes an item in a node at a fresh
  -- address that is not null; it then holds that node behind the others, linked in both directions.
  pub push_back-HoldsList :
      (n : ℕ) (item : A) (l : LinkedList A) (ns : List (ℕ × A))
      → 0 < n
      → NotIn n ns
      → length ns + 1 < u32_mod
      → HoldsList l ns
      → (l' : LinkedList A) × (push_back n item l ≡ some l') × HoldsList l' (ns ++ (n, item) ∷ [])
  unfolding push_back insert_internal
  push_back-HoldsList n item l [] pos out room h =
      let e = h.ends in
      let s = h.sized in
      (
        record {
          cells = update l.cells n (some (record { val = item; next = 0; prev = 0 }));
          m_size = 1;
          m_head = n;
          m_tail = n;
        },
        ground arith,
        record { starts = refl; ends = refl; sized = refl; doubly = (pos, ground arith, tt, tt) },
      )
  push_back-HoldsList n item l (m ∷ ns) pos out room h =
      let s = h.sized in
      let count : add32 l.m_size 1 ≡ length ((m ∷ ns) ++ (n, item) ∷ []) =
        omega (arith, s, length-append (m ∷ ns) ((n, item) ∷ [])) in
      let (y, p, e, ne, lp, d) = snoc-IsDoubly l.cells 0 n item m ns pos out h.doubly in
      (
        record {
          cells =
              update
                (update l.cells n
                  (some (record { val = item; next = 0; prev = last_addr (m ∷ ns) })))
                (last_addr (m ∷ ns)) (some (record { val = y; next = n; prev = p }));
          m_size = add32 l.m_size 1;
          m_head = l.m_head;
          m_tail = n;
        },
        push_behind n item y p (last_addr (m ∷ ns)) l h.ends lp ne e,
        record {
          starts = h.starts;
          ends = sym (last_addr-snoc n item (m ∷ ns));
          sized = count;
          doubly = d;
        },
      )
