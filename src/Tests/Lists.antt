-- ===== src/Tests/Lists.antt =====
-- The theorem on the doubly linked list at a list of one node.
use juos.Prelude.{ℕ, refl, none, some, [], ◌∷◌, arith}
use juos.Prelude.Maps.{update}
use juos.StdList.{LinkedList}
use juos.StdList.Doubly.{HoldsList}

abbrev one_node : LinkedList ℕ
one_node = record {
  cells = update (λ _. none) 40 (some (record { val = 7; next = 0; prev = 0 }));
  m_size = 1;
  m_head = 40;
  m_tail = 40;
}

one_node-HoldsList : HoldsList one_node ((40, 7) ∷ [])
one_node-HoldsList = record {
  starts = refl;
  ends = refl;
  sized = refl;
  doubly = (omega arith, refl, tt, tt);
}
