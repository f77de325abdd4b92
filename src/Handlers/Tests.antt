-- ===== src/Handlers/Tests.antt =====
-- The handlers at a small model, with the registry of the library.
use profit.Prelude.{
  sym, subst, false, ℕ, ◌+◌, ◌^◌, ◌<◌, ◌≤◌, ◌≡◌, refl, Bool, true, Option, none, some, List, [],
  ◌∷◌, arith, ◌==◌,
}
use profit.Record.{number}
use profit.Traverse.{
  Node, NodeInfo, NodeState, prf_node, null, array, nil, cons, stopped, model_traverse_io,
}
use profit.Traverse.Collect.{order, order_children, height, height_children, IsFull, IsFullBelow}
use profit.Traverse.Order.{no_skip}
use profit.Traverse.Visitor.{visitor}
use profit.Handlers.{Context}
use profit.Handlers.Init.{nodeinfo_init}
use profit.Handlers.Counters.{Counted, model_traverse_io-levels}
use profit.Handlers.Counts.{for_user, count_op}
use profit.Handlers.Faults.{HaveData}
use profit.Handlers.Lookup.{
  find_member, record_material, material_lookup, texture_lookup, color_lookup, is_opaque,
}
use profit.Handlers.Found.{with_op, model_traverse_io-lookups}
use profit.Handlers.Opaque.{color_lookup-opaque}

abbrev leaf : ℕ → ℕ → Node
leaf op index =
    prf_node op 0 (record { len = 12; members = number index ∷ number index ∷ []; rest = [] }) null

abbrev model : Node
model =
    prf_node 1 0 (record { len = 12; members = number 0 ∷ number 1570 ∷ []; rest = [] })
      (array (cons (leaf 113 5) (cons (leaf 10 0) (cons (leaf 64 7) (cons (leaf 11 0) nil)))))

abbrev start : Context ℕ
start = record {
  header = none;
  vertex_palette = none;
  color_palette = none;
  material_palette = none;
  materials = [];
  textures = [];
  instances = [];
  object_flags = 0;
  object_transparency = 0;
  push_level = 0;
  subface_level = 0;
  attribute_level = 0;
  extension_level = 0;
  model_palette = none;
  model_ofversion = 0;
  faulted = false;
  user = 0;
}

abbrev same_opcode : Node → Node → Bool
same_opcode (prf_node o f b c) (prf_node o' f' b' c') = o == o'

abbrev no_member : Node → ℕ → ℕ
no_member n k = 0

-- The client counts the nodes; the floats are taken as numbers.
abbrev counts : Context ℕ → Node → ℕ
counts c n = c.user + 1

abbrev plus : ℕ → ℕ → ℕ
plus a b = a + b

abbrev below : List Node
below = leaf 113 5 ∷ leaf 10 0 ∷ leaf 64 7 ∷ leaf 11 0 ∷ []

model-height : height (cons model nil) < 2 ^ 16
unfolding height height_children
model-height = omega arith

model-IsFull : IsFull (cons model nil)
unfolding IsFull IsFullBelow
model-IsFull = ((tt, (tt, (tt, (tt, tt)))), tt)

model-order : order no_skip (cons model nil) ≡ model ∷ below
unfolding order order_children
model-order = refl

all-HaveData : HaveData (model ∷ below)
all-HaveData = (λ e. refl, (λ e. refl, (λ e. refl, (λ e. refl, (λ e. refl, tt)))))

model-HaveData : HaveData (order no_skip (cons model nil))
model-HaveData = subst HaveData (sym model-order) all-HaveData

one_palette : count_op 67 (order no_skip (cons model nil)) ≤ 1
unfolding count_op
one_palette = rw model-order (omega arith)

model_traverse_io-levels_example :
    let l = order no_skip (cons model nil) in
    (ts : List (Option (NodeInfo (Context ℕ)))) × (t : ℕ) × (s' : NodeState (Context ℕ))
    × (nodeinfo_init ℕ same_opcode no_member plus plus ≡ some ts)
    × (model_traverse_io ts (some (visitor no_skip (for_user counts))) [] start model
        ≡ stopped t s' (cons model nil ∷ []))
    × (s'.client.faulted ≡ false)
    × Counted (λ c. c.push_level) 10 11 start s'.client l
    × Counted (λ c. c.subface_level) 19 20 start s'.client l
    × Counted (λ c. c.extension_level) 21 22 start s'.client l
    × Counted (λ c. c.attribute_level) 122 123 start s'.client l
model_traverse_io-levels_example =
    model_traverse_io-levels same_opcode no_member plus plus counts [] model start model-height
      model-IsFull one_palette model-HaveData refl refl

model_traverse_io-lookups_example :
    (ts : List (Option (NodeInfo (Context ℕ)))) × (t : ℕ) × (s' : NodeState (Context ℕ))
    × (nodeinfo_init ℕ same_opcode no_member plus plus ≡ some ts)
    × (model_traverse_io ts (some (visitor no_skip (for_user counts))) [] start model
        ≡ stopped t s' (cons model nil ∷ []))
    × (s'.client.faulted ≡ false)
    × ((index : ℕ)
        → material_lookup no_member s'.client index
          ≡ record_material (find_member no_member 0 index (with_op 113 below)))
    × ((index : ℕ)
        → texture_lookup no_member s'.client index
          ≡ find_member no_member 1 index (with_op 64 below))
unfolding count_op
model_traverse_io-lookups_example =
    model_traverse_io-lookups same_opcode no_member plus plus counts [] model start below
      model-height model-IsFull model-order refl refl refl (omega arith) all-HaveData refl refl refl
      refl refl

color_lookup-opaque_example :
    ((index : ℕ)
      → index < 1024
      → (color : ℕ) × (color_lookup (λ n i. 0) start index ≡ some color) × (is_opaque color ≡ true))
    × ((index : ℕ) → 1024 ≤ index → color_lookup (λ n i. 0) start index ≡ none)
color_lookup-opaque_example = color_lookup-opaque (λ n i. 0) start

-- The same start, with no nodes noted.
abbrev none_noted : Context (List Node)
none_noted = record {
  header = none;
  vertex_palette = none;
  color_palette = none;
  material_palette = none;
  materials = [];
  textures = [];
  instances = [];
  object_flags = 0;
  object_transparency = 0;
  push_level = 0;
  subface_level = 0;
  attribute_level = 0;
  extension_level = 0;
  model_palette = none;
  model_ofversion = 0;
  faulted = false;
  user = [];
}
