-- ===== src/Handlers/Init.antt =====
-- prf_nodeinfo_init of src/nodeinfo.c: the default entries, and then each record type of src/nodes with
-- its functions. Only those of a traversal are in the table here.
pub mod Table
use profit.Prelude.{ℕ, ◌+◌, Bool, Option, none, some, List, [], ◌∷◌, ◌++◌, map, ◌>>=◌}
use profit.Traverse.{Node, NodeInfo}
use profit.Traverse.Registry.{nodeinfo_set}
use profit.Handlers.{
  Context, Handler, header_entry, object_entry, object_exit, push_level_entry, pop_level_exit,
  push_subface_entry, pop_subface_exit, push_extension_entry, pop_extension_exit,
  push_attribute_entry, pop_attribute_exit, vertex_palette_entry, color_palette_entry,
  material_palette_entry, material_entry, texture_entry, instance_definition_entry, matrix_entry,
  external_reference_entry, level_of_detail_entry,
}
use profit.Handlers.Defaults.{
  nodeinfo_defaults, push_node, pop_node, vertex, transform, definition, reference, primary,
  ancillary, control_type, obsolete,
}

-- Entries that are set one behind the other.
unfoldable pub set_all :
    {W : Type 0}
    → List (ℕ × NodeInfo W)
    → List (Option (NodeInfo W))
    → Option (List (Option (NodeInfo W)))
set_all [] ts = some ts
set_all ((op, info) ∷ l) ts = do ts' ← nodeinfo_set op info ts; set_all l ts'

-- an entry without functions of a traversal
abbrev pub plain : {W : Type 0} → ℕ × ℕ → ℕ × NodeInfo W
plain (op, flags) = (op, record { flags = flags; entry_f = none; exit_f = none; traverse_f = none })

abbrev pub entering : {U : Type 0} → ℕ → ℕ → Handler U → ℕ × NodeInfo (Context U)
entering op flags f =
    (op, record { flags = flags; entry_f = some f; exit_f = none; traverse_f = none })

abbrev pub leaving : {U : Type 0} → ℕ → ℕ → Handler U → ℕ × NodeInfo (Context U)
leaving op flags f =
    (op, record { flags = flags; entry_f = none; exit_f = some f; traverse_f = none })

module _ (U : Type 0) (same : Node → Node → Bool) (stale : Node → ℕ → ℕ) (add mul : ℕ → ℕ → ℕ) where
  -- what each function prf_x_init registers
  abbrev header_init : ℕ × NodeInfo (Context U)
  header_init = entering 1 primary (header_entry same stale)

  abbrev group_init : ℕ × NodeInfo (Context U)
  group_init = plain (2, primary)

  abbrev object_init : ℕ × NodeInfo (Context U)
  object_init = (
    4,
    record {
      flags = primary;
      entry_f = some (object_entry same stale);
      exit_f = some object_exit;
      traverse_f = none;
    },
  )

  abbrev face_init : ℕ × NodeInfo (Context U)
  face_init = plain (5, primary)

  abbrev push_attribute_init : ℕ × NodeInfo (Context U)
  push_attribute_init = entering 122 (control_type + push_node) push_attribute_entry

  abbrev pop_attribute_init : ℕ × NodeInfo (Context U)
  pop_attribute_init = leaving 123 (control_type + pop_node) pop_attribute_exit

  abbrev push_extension_init : ℕ × NodeInfo (Context U)
  push_extension_init = entering 21 (control_type + push_node) push_extension_entry

  abbrev pop_extension_init : ℕ × NodeInfo (Context U)
  pop_extension_init = leaving 22 (control_type + pop_node) pop_extension_exit

  abbrev push_level_init : ℕ × NodeInfo (Context U)
  push_level_init = entering 10 (control_type + push_node) push_level_entry

  abbrev pop_level_init : ℕ × NodeInfo (Context U)
  pop_level_init = leaving 11 (control_type + pop_node) pop_level_exit

  abbrev push_subface_init : ℕ × NodeInfo (Context U)
  push_subface_init = entering 19 (control_type + push_node) push_subface_entry

  abbrev pop_subface_init : ℕ × NodeInfo (Context U)
  pop_subface_init = leaving 20 (control_type + pop_node) pop_subface_exit

  abbrev vertex_palette_init : ℕ × NodeInfo (Context U)
  vertex_palette_init = entering 67 ancillary (vertex_palette_entry same stale)

  abbrev vertex_with_color_init : ℕ × NodeInfo (Context U)
  vertex_with_color_init = plain (68, vertex)

  abbrev obsolete_vertex_with_color_init : ℕ × NodeInfo (Context U)
  obsolete_vertex_with_color_init = plain (8, vertex + obsolete)

  abbrev vertex_with_normal_init : ℕ × NodeInfo (Context U)
  vertex_with_normal_init = plain (69, vertex)

  abbrev obsolete_vertex_with_normal_init : ℕ × NodeInfo (Context U)
  obsolete_vertex_with_normal_init = plain (9, vertex + obsolete)

  abbrev vertex_with_normal_and_texture_init : ℕ × NodeInfo (Context U)
  vertex_with_normal_and_texture_init = plain (70, vertex)

  abbrev vertex_with_texture_init : ℕ × NodeInfo (Context U)
  vertex_with_texture_init = plain (71, vertex)

  abbrev vertex_list_init : ℕ × NodeInfo (Context U)
  vertex_list_init = plain (72, primary)

  abbrev morph_vertex_list_init : ℕ × NodeInfo (Context U)
  morph_vertex_list_init = plain (89, primary)

  abbrev color_palette_init : ℕ × NodeInfo (Context U)
  color_palette_init = entering 32 ancillary (color_palette_entry same stale)

  abbrev material_init : ℕ × NodeInfo (Context U)
  material_init = entering 113 ancillary material_entry

  abbrev texture_init : ℕ × NodeInfo (Context U)
  texture_init = entering 64 ancillary texture_entry

  abbrev material_palette_init : ℕ × NodeInfo (Context U)
  material_palette_init = entering 66 (ancillary + obsolete) (material_palette_entry same stale)

  abbrev instance_definition_init : ℕ × NodeInfo (Context U)
  instance_definition_init =
      entering 62 (control_type + definition) (instance_definition_entry same stale)

  abbrev instance_reference_init : ℕ × NodeInfo (Context U)
  instance_reference_init = plain (61, control_type + reference)

  abbrev matrix_init : ℕ × NodeInfo (Context U)
  matrix_init = entering 49 (ancillary + transform) (matrix_entry stale add mul)

  abbrev external_reference_init : ℕ × NodeInfo (Context U)
  external_reference_init = entering 63 (primary + reference) external_reference_entry

  abbrev level_of_detail_init : ℕ × NodeInfo (Context U)
  level_of_detail_init = entering 73 primary level_of_detail_entry

  -- in the order of the calls
  abbrev pub record_types : List (ℕ × NodeInfo (Context U))
  record_types =
      header_init ∷ group_init ∷ object_init ∷ face_init ∷ push_attribute_init ∷ pop_attribute_init
      ∷ push_extension_init ∷ pop_extension_init ∷ push_level_init ∷ pop_level_init
      ∷ push_subface_init ∷ pop_subface_init ∷ vertex_palette_init ∷ vertex_with_color_init
      ∷ obsolete_vertex_with_color_init ∷ vertex_with_normal_init ∷ obsolete_vertex_with_normal_init
      ∷ vertex_with_normal_and_texture_init ∷ vertex_with_texture_init ∷ vertex_list_init
      ∷ morph_vertex_list_init ∷ color_palette_init ∷ material_init ∷ texture_init
      ∷ material_palette_init ∷ instance_definition_init ∷ instance_reference_init ∷ matrix_init
      ∷ external_reference_init ∷ level_of_detail_init ∷ []

  -- `prf_nodeinfo_init`
  unfoldable pub nodeinfo_init : Option (List (Option (NodeInfo (Context U))))
  nodeinfo_init = set_all (map plain nodeinfo_defaults ++ record_types) []
