-- ===== src/Traverse/Walk.antt =====
-- What the traversal of src/model.c is to do, by recursion on the tree.
use profit.Prelude.{
  ℕ, ◌+◌, ◌-◌, ◌%◌, ◌^◌, Bool, true, false, Option, none, some, List, not, ◌&&◌, ◌==◌,
  if◌then◌else◌,
}
use profit.State.{Matrix, push, pop}
use profit.Traverse.{
  Children, Nodes, NodeState, NodeInfo, prf_node, null, array, nil, cons, trav_exit, trav_continue,
  trav_pop, visit, is_pop,
}

-- How the walk over the nodes of a level ends: behind the last of them with the last control, with an
-- EXIT, or with a fault.
pub data Walk (W : Type 0) : Type 0 where
  done : ℕ → NodeState W → Walk W
  exit : NodeState W → Walk W
  fault : Walk W

module _ {W : Type 0} where
  abbrev pub and_then : Walk W → (ℕ → NodeState W → Walk W) → Walk W
  and_then (done t s) k = k t s
  and_then (exit s) k = exit s
  and_then fault k = fault

  abbrev pub down : Matrix → NodeState W → (NodeState W → Walk W) → Walk W
  down junk s k = elim (push junk s) [
    | none ↦ fault
    | some s' ↦ k (record s' { physical_level = (s'.physical_level + 1) % 2 ^ 16 })
  ]

  abbrev pub up : ℕ → NodeState W → Walk W
  up t s = elim (pop s) [
    | none ↦ fault
    | some s' ↦ done t (record s' { physical_level = (s'.physical_level + 2 ^ 16 - 1) % 2 ^ 16 })
  ]

  -- What a control does to the walk: `below` walks the children, `rest` goes on behind the node.
  unfoldable pub walk_control :
      ℕ × NodeState W → (ℕ → NodeState W → Walk W) → (Bool → ℕ → NodeState W → Walk W) → Walk W
  walk_control (t, s) below rest =
      if t == trav_exit
      then exit s
      else if t == trav_continue
      then and_then (below t s) (rest false)
      else rest (t == trav_pop) t s

module _ {W : Type 0} (nodetypes : List (Option (NodeInfo W)))
    (callback : Option (NodeState W → (ℕ × NodeState W))) (junk : Matrix) where
  -- The nodes of a level from one on, where `skipping` says that a POP waits for a node that has the
  -- flag for it. A walk into an empty array, or a POP that finds no such node, faults.
  unfoldable mutual
    pub walk : Nodes → Bool → ℕ → NodeState W → Walk W
    walk nil skipping t s = if skipping then fault else done t s
    walk (cons (prf_node o f b c) ns) skipping t s =
        let here = prf_node o f b c in
        let rest = walk ns in
        let below = walk_children c in
        if skipping && not (is_pop nodetypes here)
        then rest true t s
        else walk_control (visit nodetypes callback here s) below rest

    pub walk_children : Children → ℕ → NodeState W → Walk W
    walk_children null t s = done t s
    walk_children (array nil) t s = fault
    walk_children (array (cons n ns)) t s =
        down junk s λ s'. and_then (walk (cons n ns) false t s') up
