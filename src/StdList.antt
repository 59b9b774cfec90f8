-- ===== src/StdList.antt =====
-- libstdcxx/list.hpp: the doubly linked list. The node store is explicit: an address is a number, 0
-- is nullptr, and a cell that is `none` is not a live node. The address that the allocator returns
-- is an argument of the insertion. `none` is a fault: a null or dangling pointer is followed.
pub mod Doubly
use juos.Prelude.{ℕ, ◌+◌, ◌%◌, ◌^◌, Bool, Option, none, some, ◌==◌, if◌then◌else◌}
use juos.Prelude.Maps.{update}
use juos.Prelude.Words.{add32}

pub record DoubleLinkedNode {ℓ} (A : Type ℓ) : Type ℓ where
  pub val : A
  pub next : ℕ
  pub prev : ℕ

pub record LinkedList {ℓ} (A : Type ℓ) : Type ℓ where
  pub cells : ℕ → Option (DoubleLinkedNode A)
  pub m_size : ℕ
  pub m_head : ℕ
  pub m_tail : ℕ

module _ {ℓ} {A : Type ℓ} where
  unfoldable pub new_list : LinkedList A
  new_list = record { cells = λ _. none; m_size = 0; m_head = 0; m_tail = 0 }

  -- The last test of `_insert_internal`: the node before the new one leads to it.
  unfoldable pub link_before : ℕ → ℕ → LinkedList A → Option (LinkedList A)
  link_before n before l =
      if before == 0 then some (record l { m_head = n }) else (elim (l.cells before) [
        | none ↦ none
        | some c ↦ some (record l { cells = update l.cells before (some (record c { next = n })) })
      ])

  unfoldable pub insert_internal : ℕ → A → ℕ → LinkedList A → Option (LinkedList A)
  unfolding link_before
  insert_internal n item pos l =
      if pos == 0
      then link_before n l.m_tail (record l {
        cells = update l.cells n (some (record { val = item; next = pos; prev = l.m_tail }));
        m_size = add32 l.m_size 1;
        m_tail = n;
      })
      else (elim (l.cells pos) [
        | none ↦ none
        | some c ↦ link_before n c.prev (record l {
          cells =
              update (update l.cells n (some (record { val = item; next = pos; prev = c.prev })))
                pos (some (record c { prev = n }));
          m_size = add32 l.m_size 1;
        })
      ])

  unfoldable pub push_back : ℕ → A → LinkedList A → Option (LinkedList A)
  unfolding insert_internal
  push_back n item l = insert_internal n item 0 l
