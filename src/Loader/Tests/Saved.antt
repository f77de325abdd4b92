-- ===== src/Loader/Tests/Saved.antt =====
-- A model that is saved and loaded with the registry of the library.
use profit.Prelude.{ℕ, ◌+◌, Bool, false, Option, none, some, List, [], ◌∷◌, ◌==◌}
use profit.Bfile.{Bfile, Run}
use profit.Record.{Loaded, bytes}
use profit.Traverse.{Node, NodeInfo, prf_node, null, array, nil, cons}
use profit.Handlers.{Context}
use profit.Handlers.Init.{nodeinfo_init}
use profit.Loader.Tests.Model.{leaf, a_group}

abbrev same_opcode : Node → Node → Bool
same_opcode (prf_node o f b c) (prf_node o' f' b' c') = o == o'

abbrev no_member : Node → ℕ → ℕ
no_member n k = 0

abbrev plus : ℕ → ℕ → ℕ
plus a b = a + b

abbrev library : List (Option (NodeInfo (Context (Run (Unit {0})))))
library = elim (nodeinfo_init (Run (Unit {0})) same_opcode no_member plus plus) [
  | some ts ↦ ts
  | none ↦ []
]

-- A header with its name, and below it a comment, and a group between a push and a pop record
abbrev a_header : Loaded
a_header = record {
  len = 12;
  members = bytes (104 ∷ 0 ∷ 0 ∷ 0 ∷ 0 ∷ 0 ∷ 0 ∷ 0 ∷ []) ∷ [];
  rest = [];
}

abbrev comment : Node
comment = prf_node 31 0 (record { len = 6; members = []; rest = 104 ∷ 105 ∷ [] }) null

abbrev saved : Node
saved =
    prf_node 1 0 a_header (
      array (cons comment (cons (leaf 10) (cons (prf_node 2 0 a_group null) (cons (leaf 11) nil)))))

abbrev start : Context (Run (Unit {0}))
start = record {
  header = none;
  vertex_palette = none;
  color_palette = none;
  material_palette = none;
  materials = [];
  textures = [];
  instances = [];
  object_flags = 0;
  object_transparency = 0;
  push_level = 0;
  subface_level = 0;
  attribute_level = 0;
  extension_level = 0;
  model_palette = none;
  model_ofversion = 0;
  faulted = false;
  user = Run.fault;
}

abbrev wblock : List ℕ
wblock = 0 ∷ 0 ∷ 0 ∷ 0 ∷ 0 ∷ []

abbrev rblock : List ℕ
rblock = 0 ∷ 0 ∷ 0 ∷ 0 ∷ 0 ∷ 0 ∷ []
