-- ===== src/Loader.antt =====
-- The loader of src/model.c: how `prf_model_load_with_callback` puts the nodes that it reads into a
-- tree. The array `stack` with the index `level` is three parts: the arrays below the level, nearest
-- first, the one on the level, and those above it. The `children` of a node are what the array held
-- when it was last assigned; pointers to parents are not kept. `none` is a failed assertion, or an
-- index outside an array.
pub mod Shape
pub mod Steps
pub mod Tree
pub mod File
mod Tests
use profit.Prelude.{
  ℕ, ◌+◌, ◌/◌, ◌%◌, Bool, true, false, Option, none, some, List, [], ◌∷◌, ◌==◌, ◌||◌, if◌then◌else◌,
  ◌>>=◌,
}
use profit.Traverse.{
  Node, Nodes, Children, NodeInfo, prf_node, null, array, nil, cons, opcode, nodeinfo_get,
}

-- `prf_array_append_ptr` and the last node of an array
unfoldable pub append_node : Nodes → Node → Nodes
append_node nil n = cons n nil
append_node (cons m ms) n = cons m (append_node ms n)

unfoldable pub last_node : Nodes → Option Node
last_node nil = none
last_node (cons n ns) = let rest = last_node ns in elim ns [ nil ↦ some n | cons m ms ↦ rest ]

-- the assignment of `children` in the last node
unfoldable pub set_children : Children → Nodes → Option Nodes
set_children c nil = none
set_children c (cons (prf_node o f d k) ns) =
    let rest = set_children c ns in
    elim ns [
      | nil ↦ some (cons (prf_node o f d c) nil)
      | cons m ms ↦ elim rest [ none ↦ none | some ms' ↦ some (cons (prf_node o f d k) ms') ]
    ]

abbrev pub has_children : Node → Bool
has_children (prf_node o f d null) = false
has_children (prf_node o f d (array ns)) = true

pub record Levels : Type 0 where
  pub below : List Nodes
  pub here : Nodes
  pub above : List Nodes

-- the flags PRF_PUSH_NODE, PRF_POP_NODE and PRF_ANCILLARY
abbrev pub is_push : ℕ → Bool
is_push flags = flags % 2 == 1

abbrev pub is_pop_node : ℕ → Bool
is_pop_node flags = flags / 2 % 2 == 1

abbrev pub is_ancillary : ℕ → Bool
is_ancillary flags = flags / 512 % 2 == 1

-- A new array above the level, where the last node has no children; `prf_array_set_count` drops those
-- that were there.
unfoldable pub make_room : Levels → Option Levels
make_room l = elim (last_node l.here) [
  | none ↦ none
  | some n ↦ if has_children n then some l else some (record l { above = nil ∷ [] })
]

-- `level++`
unfoldable pub go_up : Levels → Option Levels
go_up l = elim l.above [
  | [] ↦ none
  | ns ∷ more ↦ some (record { below = l.here ∷ l.below; here = ns; above = more })
]

-- An ancillary node goes to the array above, which the last node gets for its children.
unfoldable pub add_ancillary : Node → Levels → Option Levels
add_ancillary n l = elim l.above [
  | [] ↦ none
  | ns ∷ more ↦ set_children (array (append_node ns n)) l.here >>= λ ms.
      some (record { below = l.below; here = ms; above = append_node ns n ∷ more })
]

-- What a node with PRF_POP_NODE does: the last node of the level below gets the array, and `level--`.
unfoldable pub go_down : Levels → Option Levels
go_down l = elim l.below [
  | [] ↦ none
  | ns ∷ more ↦ set_children (array l.here) ns >>= λ ms.
      some (record { below = more; here = ms; above = l.here ∷ l.above })
]

-- The part of the loop from `assert(info != NULL)` to its end, for the flags of the node's type
unfoldable pub insert_with : ℕ → Node → Levels → Option Levels
insert_with flags n l =
    (if is_push flags || is_ancillary flags then make_room l else some l)
    >>= (λ l. if is_push flags then go_up l else some l)
    >>= (λ l.
        if is_ancillary flags
        then add_ancillary n l
        else some (record l { here = append_node l.here n }))
    >>= λ l. if is_pop_node flags then go_down l else some l

module _ {W : Type 0} (nodetypes : List (Option (NodeInfo W))) where
  unfoldable pub insert_node : Node → Levels → Option Levels
  insert_node n l = elim (nodeinfo_get nodetypes (opcode n)) [
    | none ↦ none
    | some info ↦ insert_with info.flags n l
  ]

  -- the rounds of the loop, for the nodes that are read
  unfoldable pub insert_all : List Node → Levels → Option Levels
  insert_all [] l = some l
  insert_all (n ∷ ns) l = insert_node n l >>= insert_all ns

-- `stack[0]`
unfoldable pub lowest : Nodes → List Nodes → Nodes
lowest ns [] = ns
lowest ns (m ∷ ms) = lowest m ms

-- The end of the load, which is FALSE unless there is one root; a level above 0 is only warned about.
unfoldable pub header_of : Levels → Option Node
header_of l = elim (lowest l.here l.below) [
  | nil ↦ none
  | cons n ns ↦ elim ns [ nil ↦ some n | cons m ms ↦ none ]
]

-- the levels that the loop starts with
abbrev pub no_levels : Levels
no_levels = record { below = []; here = nil; above = [] }
