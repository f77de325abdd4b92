-- ===== src/Traverse/Visitor.antt =====
-- A callback that takes a step of the client for each node.
use profit.Prelude.{ℕ, Bool, none, some, if◌then◌else◌}
use profit.Traverse.{Node, NodeState, trav_continue, trav_sibling}

-- A callback that takes the nodes which it does not skip, and goes on.
abbrev pub visitor : {W : Type 0} → (Node → Bool) → (W → Node → W) → NodeState W → (ℕ × NodeState W)
visitor skip step s = elim s.node [
  | none ↦ (trav_continue, s)
  | some n ↦
      if skip n then (trav_sibling, s) else (trav_continue, record s { client = step s.client n })
]
