-- ===== src/Traverse.antt =====
-- The in-order traversal of src/model.c, which keeps a stack of its own in place of recursion, and
-- the registry of src/nodeinfo.c that it asks for the handlers of a node. Handlers and callbacks are
-- functions of the node and the state: they change the state as they like, but not the tree, the
-- registry or the callback.
pub mod Walk
pub mod Refine
pub mod Collect
pub mod Fold
pub mod Same
pub mod Visitor
pub mod Handled
pub mod Order
pub mod Registry
mod Tests
use profit.Prelude.{
  ℕ, zero, suc, ◌+◌, ◌-◌, ◌%◌, ◌/◌, ◌^◌, Bool, true, false, Option, none, some, List, [], ◌∷◌, not,
  ◌&&◌, ltb, leb, ◌==◌, if◌then◌else◌, get_elem?,
}
use profit.State.{State, Matrix, push, pop, create}
use profit.Record.{Loaded}

-- `struct prf_node_s`. A node either has no array of children or one with any number of them.
mutual
  pub data Node : Type 0 where
    prf_node : (opcode flags : ℕ) (content : Loaded) → Children → Node

  pub data Children : Type 0 where
    null : Children
    array : Nodes → Children

  pub data Nodes : Type 0 where
    nil : Nodes
    cons : Node → Nodes → Nodes

-- what a handler or a callback returns
abbrev pub trav_exit : ℕ
trav_exit = 0

abbrev pub trav_continue : ℕ
trav_continue = 1

abbrev pub trav_sibling : ℕ
trav_sibling = 2

abbrev pub trav_pop : ℕ
trav_pop = 3

-- `prf_array_count`, and the array from an index on
unfoldable pub count : Nodes → ℕ
count nil = 0
count (cons n ns) = suc (count ns)

unfoldable pub from : ℕ → Nodes → Nodes
from zero ns = ns
from (suc i) nil = nil
from (suc i) (cons n ns) = from i ns

abbrev pub opcode : Node → ℕ
opcode (prf_node o f b c) = o

-- The flag PRF_NODE_DELETED is the lowest bit.
abbrev pub is_deleted : Node → Bool
is_deleted (prf_node o f b c) = f % 2 == 1

-- One level of the three parallel arrays: `stack[level]`, `child[level]` and `limit[level]`.
pub record Frame : Type 0 where
  pub nodes : Nodes
  pub child : ℕ
  pub limit : ℕ

-- `stack[0]`, `child[0]` and `limit[0]`, below the top level
unfoldable pub bottom : Frame → List Frame → Frame
bottom f [] = f
bottom f (g ∷ gs) = bottom g gs

-- the arrays on the stack, from the top: what the traversal frees when it ends
unfoldable pub arrays : Frame → List Frame → List Nodes
arrays f [] = f.nodes ∷ []
arrays f (g ∷ gs) = f.nodes ∷ arrays g gs

module _ (W : Type 0) where
  abbrev pub NodeState : Type 0
  NodeState = State Node W

  -- The part of `struct prf_nodeinfo_s` that a traversal uses; `flags` has PRF_POP_NODE as bit 1.
  pub record NodeInfo : Type 0 where
    pub flags : ℕ
    pub entry_f : Option (Node → NodeState → NodeState)
    pub exit_f : Option (Node → NodeState → NodeState)
    pub traverse_f : Option (Node → NodeState → (ℕ × NodeState))

  -- How a traversal ends: it returns, with the arrays that it frees, or reads outside an array, or
  -- goes on when its fuel is used up.
  pub data Outcome : Type 0 where
    stopped : ℕ → NodeState → List Nodes → Outcome
    fault : Outcome
    out_of_fuel : Outcome

module _ {W : Type 0} where
  -- `prf_nodeinfo_get`
  unfoldable pub nodeinfo_get : List (Option (NodeInfo W)) → ℕ → Option (NodeInfo W)
  nodeinfo_get nodetypes op = elim (get_elem? nodetypes op) [ some info ↦ info | none ↦ none ]

  -- a handler that may be missing
  abbrev pub hook : Option (Node → NodeState W → NodeState W) → Node → NodeState W → NodeState W
  hook none n s = s
  hook (some f) n s = f n s

  -- A way to go on with the loop, which is the argument `go`: down to the children. `junk` is what
  -- a new matrix holds.
  abbrev pub descend :
      Matrix
      → (ℕ → Frame → List Frame → NodeState W → Outcome W)
      → ℕ
      → Nodes
      → Frame
      → List Frame
      → NodeState W
      → Outcome W
  descend junk go t ns top rest s = elim (push junk s) [
    | none ↦ fault
    | some s' ↦
        go t (record { nodes = ns; child = 0; limit = count ns }) (top ∷ rest)
          (record s' { physical_level = (s'.physical_level + 1) % 2 ^ 16 })
  ]

  -- Another way: the loop at the end, which goes up while a level is used up.
  unfoldable pub ascend :
      (ℕ → Frame → List Frame → NodeState W → Outcome W)
      → ℕ
      → Frame
      → List Frame
      → NodeState W
      → Outcome W
  ascend go t f [] s = go t f [] s
  ascend go t f (g ∷ gs) s = elim (ltb f.child f.limit) [
    | true ↦ go t f (g ∷ gs) s
    | false ↦ elim (pop s) [
      | none ↦ fault
      | some s' ↦
          ascend go t (record g { child = g.child + 1 }) gs
            (record s' { physical_level = (s'.physical_level + 2 ^ 16 - 1) % 2 ^ 16 })
    ]
  ]

  -- what follows where the control is neither EXIT nor POP, and CONTINUE only without children
  abbrev pub advance :
      (ℕ → Frame → List Frame → NodeState W → Outcome W)
      → ℕ
      → Frame
      → List Frame
      → NodeState W
      → Outcome W
  advance go t top rest s = ascend go t (record top { child = top.child + 1 }) rest s

module _ {W : Type 0} (nodetypes : List (Option (NodeInfo W))) where
  -- `(info != NULL) && ((info->flags & PRF_POP_NODE) != 0)`
  unfoldable pub is_pop : Node → Bool
  is_pop n = elim (nodeinfo_get nodetypes (opcode n)) [
    | none ↦ false
    | some info ↦ info.flags / 2 % 2 == 1
  ]

  -- The loop `do child[level]++ ... while` of PRF_TRAV_POP, over the nodes from index j on.
  unfoldable pub next_pop : Nodes → ℕ → Option ℕ
  next_pop nil j = none
  next_pop (cons n ns) j = let rest = next_pop ns (j + 1) in if is_pop n then some j else rest

  -- Another way: to the next node of the same level with the flag PRF_POP_NODE, at index j or later.
  abbrev pub skip :
      (ℕ → Frame → List Frame → NodeState W → Outcome W)
      → ℕ
      → Nodes
      → ℕ
      → Frame
      → List Frame
      → NodeState W
      → Outcome W
  skip go t ns j top rest s = elim (next_pop ns j) [
    | none ↦ fault
    | some i ↦ go t (record top { child = i }) rest s
  ]

module _ {W : Type 0} (nodetypes : List (Option (NodeInfo W)))
    (callback : Option (NodeState W → (ℕ × NodeState W))) where
  unfoldable pub call : NodeState W → (ℕ × NodeState W)
  call s = elim callback [ some f ↦ f s | none ↦ (trav_continue, s) ]

  -- the part of the loop from `state->node = node` to the traversal's control
  unfoldable pub visit : Node → NodeState W → (ℕ × NodeState W)
  visit n s₀ =
      let s = record s₀ { node = some n } in
      if is_deleted n then (trav_sibling, s) else elim (nodeinfo_get nodetypes (opcode n)) [
        | none ↦ call s
        | some info ↦ elim info.traverse_f [
          | none ↦ let (t, s') = call (hook info.entry_f n s) in (t, hook info.exit_f n s')
          | some f ↦ f n s
        ]
      ]

module _ {W : Type 0} (nodetypes : List (Option (NodeInfo W)))
    (callback : Option (NodeState W → (ℕ × NodeState W))) (junk : Matrix) where
  -- the traversal's control
  unfoldable pub control :
      (ℕ → Frame → List Frame → NodeState W → Outcome W)
      → ℕ × NodeState W
      → Children
      → Frame
      → List Frame
      → Outcome W
  control go (t, s) c top rest =
      if t == trav_exit
      then stopped t s (arrays top rest)
      else if t == trav_continue
      then (elim c [ array ns ↦ descend junk go t ns top rest s | null ↦ advance go t top rest s ])
      else if t == trav_pop
      then skip nodetypes go t (from (top.child + 1) top.nodes) (top.child + 1) top rest s
      else advance go t top rest s

  -- The loop `while ( child[0] < limit[0] )`
  unfoldable pub traverse_loop : ℕ → ℕ → Frame → List Frame → NodeState W → Outcome W
  traverse_loop zero t top rest s = out_of_fuel
  traverse_loop (suc fuel) t top rest s =
      elim (ltb (bottom top rest).child (bottom top rest).limit) [
        | false ↦ stopped t s (arrays top rest)
        | true ↦ elim (from top.child top.nodes) [
          | nil ↦ fault
          | cons (prf_node o f b c) ns ↦
              control (traverse_loop fuel) (visit nodetypes callback (prf_node o f b c) s) c top
                rest
        ]
      ]

-- the number of nodes
unfoldable mutual
  pub size_of_children : Children → ℕ
  size_of_children null = 0
  size_of_children (array ns) = size_of ns

  pub size_of : Nodes → ℕ
  size_of nil = 0
  size_of (cons (prf_node o f b c) ns) = 1 + size_of_children c + size_of ns

-- `prf_model_traverse_io_`: no node is visited twice, so a round for each node, and one to end,
-- suffice.
unfoldable pub traverse_io :
    {W : Type 0} (nodetypes : List (Option (NodeInfo W)))
    (callback : Option (NodeState W → (ℕ × NodeState W))) (junk : Matrix) (root : Node)
    → NodeState W
    → Outcome W
traverse_io nodetypes callback junk root s =
    traverse_loop nodetypes callback junk (size_of (cons root nil) + 1) trav_continue
      (record { nodes = cons root nil; child = 0; limit = 1 }) [] s

-- `prf_model_traverse_io` on a model with a header: a traversal from a new state. `start` is what the
-- client's part of the state holds then.
unfoldable pub model_traverse_io :
    {W : Type 0} (nodetypes : List (Option (NodeInfo W)))
    (callback : Option (NodeState W → (ℕ × NodeState W))) (junk : Matrix) (start : W)
    (header : Node)
    → Outcome W
model_traverse_io nodetypes callback junk start header = elim (create junk start) [
  | some s ↦ traverse_io nodetypes callback junk header s
  | none ↦ fault
]
