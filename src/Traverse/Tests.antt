-- ===== src/Traverse/Tests.antt =====
-- Runs of the traversal, and its theorems at a concrete tree.
use profit.Prelude.{
  ℕ, ◌≡◌, refl, Option, none, some, List, [], ◌∷◌, ◌++◌, true, false, ◌==◌, if◌then◌else◌,
}
use profit.Record.{Loaded}
use profit.State.{push, pop}
use profit.Traverse.{
  Node, Nodes, NodeState, NodeInfo, Outcome, prf_node, null, array, nil, cons, trav_exit,
  trav_continue, trav_sibling, trav_pop, stopped, opcode, traverse_io, traverse_loop, visit, is_pop,
  next_pop, from, bottom, count, arrays, ascend, control, call, nodeinfo_get, size_of,
}
use profit.Traverse.Walk.{walk}
use profit.Traverse.Refine.{Implements, traverse_io-walk}

-- Opcode 3 marks a POP node.
abbrev registry : List (Option (NodeInfo (List ℕ)))
registry =
    none
    ∷ none
    ∷ none
    ∷ some (record { flags = 2; entry_f = none; exit_f = none; traverse_f = none })
    ∷ []

-- The client notes the opcodes of the nodes that it sees. It asks for a POP at 20, to skip the children
-- of 8, and to stop at 99.
abbrev note : NodeState (List ℕ) → (ℕ × NodeState (List ℕ))
note s = elim s.node [
  | none ↦ (trav_continue, s)
  | some n ↦
      let s' = record s { client = s.client ++ opcode n ∷ [] } in
      if opcode n == 8
      then (trav_sibling, s')
      else if opcode n == 20
      then (trav_pop, s')
      else if opcode n == 99
      then (trav_exit, s')
      else (trav_continue, s')
]

abbrev no_content : Loaded
no_content = record { len = 4; members = []; rest = [] }

abbrev leaf : ℕ → Node
leaf op = prf_node op 0 no_content null

abbrev parent : ℕ → Nodes → Node
parent op ns = prf_node op 0 no_content (array ns)

abbrev start : NodeState (List ℕ)
start = record {
  node = none;
  physical_level = 0;
  state_push_level = 0;
  matrix = [] ∷ [];
  inv_dirty = true;
  client = [];
}

abbrev tree : Node
tree = parent 1 (
    cons (parent 8 (cons (leaf 5) nil)) (
      cons (parent 2 (cons (leaf 20) (cons (leaf 21) (cons (leaf 3) (cons (leaf 4) nil)))))
        (cons (prf_node 7 1 no_content (array (cons (leaf 6) nil))) (cons (leaf 9) nil))))

abbrev seen : Outcome (List ℕ) → List ℕ
seen (stopped t s freed) = s.client
seen _ = []

tree_run : seen (traverse_io registry (some note) [] tree start) ≡ 1 ∷ 8 ∷ 2 ∷ 20 ∷ 3 ∷ 4 ∷ 9 ∷ []
unfolding traverse_io traverse_loop visit is_pop next_pop from bottom count arrays ascend control
    call nodeinfo_get size_of push pop
tree_run = refl

traverse_io-walk_example :
    Implements registry
      (some note)
      []
      tree
      (walk registry (some note) [] (cons tree nil) false trav_continue start)
      (traverse_io registry (some note) [] tree start)
traverse_io-walk_example = traverse_io-walk registry (some note) [] tree start
