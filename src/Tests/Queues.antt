-- ===== src/Tests/Queues.antt =====
-- The theorems on the linked queue and on the vector, at small ones.
use juos.Prelude.{ℕ, ◌+◌, ◌≡◌, refl, inr, Option, none, some, List, [], ◌∷◌, ◌++◌, arith}
use juos.Prelude.Maps.{update}
use juos.Queue.{Queue, Node, enqueue, dequeue}
use juos.Queue.Linked.{Holds, enqueue-Holds, dequeue-Holds}
use juos.Vector.{Vector, push_back, to_list}
use juos.Vector.Growth.{IsValid, push_back_lem}
use juos.StaticStack.{StaticStack}

-- Two nodes: 7 at the address 40, then 8 at 20.
abbrev cells : ℕ → Option (Node ℕ)
cells =
    update (update (λ _. none) 20 (some (record { element = 8; next = 0 }))) 40
      (some (record { element = 7; next = 20 }))

abbrev two_nodes : List (ℕ × ℕ)
two_nodes = (40, 7) ∷ (20, 8) ∷ []

abbrev queue : Queue ℕ
queue = record { cells = cells; first = 40; last = 20 }

queue-Holds : Holds queue two_nodes
queue-Holds = record {
  starts = refl;
  ends = inr refl;
  linked = (omega arith, refl, (omega arith, tt), (omega arith, refl, tt, tt));
}

enqueue-Holds_example :
    (q : Queue ℕ) × (enqueue 60 9 queue ≡ some q) × Holds q (two_nodes ++ (60, 9) ∷ [])
enqueue-Holds_example =
    enqueue-Holds 60 9 queue two_nodes (omega arith) (omega arith, (omega arith, tt)) queue-Holds

dequeue-Holds_example : (q : Queue ℕ) × (dequeue queue ≡ some (some 7, q)) × Holds q ((20, 8) ∷ [])
dequeue-Holds_example = dequeue-Holds queue (40, 7) ((20, 8) ∷ []) queue-Holds

-- Three elements in a buffer of four.
abbrev vector : Vector ℕ
vector = record { size = 3; capacity = 4; log = 3; buffer = 5 ∷ 6 ∷ 7 ∷ 0 ∷ [] }

vector-IsValid : IsValid vector
vector-IsValid = record { fits = omega arith; owned = refl; doubled = inr refl }

push_back_lem_example :
    (w : Vector ℕ) × (push_back 0 8 vector ≡ some w)
    × IsValid w
    × (to_list w ≡ to_list vector ++ 8 ∷ [])
    × (w.size ≡ 3 + 1)
push_back_lem_example = push_back_lem 0 8 vector vector-IsValid (omega arith)

abbrev stack : StaticStack ℕ
stack = record { arr = λ i. i; m_size = 2; m_top = 1 }
