-- ===== src/Record/Layouts.antt =====
-- The layouts of the record types in src/nodes, and the table of those that are registered.
pub mod Header
pub mod Primary
pub mod Ancillary
pub mod Vertex
pub mod Lists
pub mod Palettes
pub mod Rounds
pub mod Agree
pub mod Bounds
use profit.Prelude.{ℕ, ◌==◌, if◌then◌else◌, Option, none, some, List, [], ◌∷◌}
use profit.Record.{Layout}
use profit.Record.Layouts.Primary.{group, object, face, level_of_detail, external_reference}
use profit.Record.Layouts.Header.{header}
use profit.Record.Layouts.Ancillary.{
  matrix, material, texture, instance_definition, instance_reference,
}
use profit.Record.Layouts.Vertex.{
  vertex_with_color, vertex_with_normal, vertex_with_normal_and_texture, vertex_with_texture,
  obsolete_vertex_with_color, obsolete_vertex_with_normal,
}
use profit.Record.Layouts.Palettes.{material_palette}
use profit.Record.Layouts.Lists.{vertex_list, morph_vertex_list}

-- The layout that is registered under an opcode
unfoldable pub find_layout : List Layout → ℕ → Option Layout
find_layout [] op = none
find_layout (l ∷ ls) op = let rest = find_layout ls op in if l.opcode == op then some l else rest

-- Those whose row has its members in the record's length, whatever is in it
abbrev pub bounded : List Layout
bounded =
    header ∷ group ∷ object ∷ face ∷ level_of_detail ∷ matrix ∷ material ∷ texture
    ∷ instance_definition ∷ instance_reference ∷ vertex_with_color ∷ vertex_with_normal_and_texture
    ∷ vertex_with_texture ∷ []

-- Those with one row for loading and saving
abbrev pub agreeing : List Layout
agreeing = vertex_with_normal ∷ external_reference ∷ vertex_list ∷ morph_vertex_list ∷ bounded

-- All record types that have a layout
abbrev pub layouts : List Layout
layouts = material_palette ∷ obsolete_vertex_with_color ∷ obsolete_vertex_with_normal ∷ agreeing
