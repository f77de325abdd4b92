-- ===== src/Record/Layouts/Vertex.antt =====
-- The rows of the vertices of a vertex palette, from src/nodes.
use profit.Prelude.{List, [], ◌∷◌, true, false}
use profit.Record.{Step, Layout, plain, opt, float32, float64, int32, uint16, uint32}

abbrev pub vertex_with_color_load : List Step
vertex_with_color_load =
    plain uint16
    ∷ plain uint16
    ∷ plain float64
    ∷ plain float64
    ∷ plain float64
    ∷ opt uint32
    ∷ opt uint32
    ∷ []

abbrev pub vertex_with_color_save : List Step
vertex_with_color_save =
    plain uint16
    ∷ plain uint16
    ∷ plain float64
    ∷ plain float64
    ∷ plain float64
    ∷ opt uint32
    ∷ opt uint32
    ∷ []

abbrev pub vertex_with_color : Layout
vertex_with_color = record {
  opcode = 68;
  asserts = false;
  min_length = 32;
  rewinds = true;
  returns = true;
  save_returns = true;
  asserted = 0;
  load_steps = λ len. vertex_with_color_load;
  save_steps = λ len. vertex_with_color_save;
  keeps_rest = true;
}

abbrev pub vertex_with_normal_load : List Step
vertex_with_normal_load =
    plain uint16
    ∷ plain uint16
    ∷ plain float64
    ∷ plain float64
    ∷ plain float64
    ∷ opt float32
    ∷ opt float32
    ∷ opt float32
    ∷ opt uint32
    ∷ opt uint32
    ∷ []

abbrev pub vertex_with_normal_save : List Step
vertex_with_normal_save =
    plain uint16
    ∷ plain uint16
    ∷ plain float64
    ∷ plain float64
    ∷ plain float64
    ∷ opt float32
    ∷ opt float32
    ∷ opt float32
    ∷ opt uint32
    ∷ opt uint32
    ∷ []

abbrev pub vertex_with_normal : Layout
vertex_with_normal = record {
  opcode = 69;
  asserts = false;
  min_length = 32;
  rewinds = true;
  returns = false;
  save_returns = true;
  asserted = 0;
  load_steps = λ len. vertex_with_normal_load;
  save_steps = λ len. vertex_with_normal_save;
  keeps_rest = true;
}

abbrev pub vertex_with_normal_and_texture_load : List Step
vertex_with_normal_and_texture_load =
    plain uint16
    ∷ plain uint16
    ∷ plain float64
    ∷ plain float64
    ∷ plain float64
    ∷ opt float32
    ∷ opt float32
    ∷ opt float32
    ∷ opt float32
    ∷ opt float32
    ∷ opt uint32
    ∷ opt uint32
    ∷ []

abbrev pub vertex_with_normal_and_texture_save : List Step
vertex_with_normal_and_texture_save =
    plain uint16
    ∷ plain uint16
    ∷ plain float64
    ∷ plain float64
    ∷ plain float64
    ∷ opt float32
    ∷ opt float32
    ∷ opt float32
    ∷ opt float32
    ∷ opt float32
    ∷ opt uint32
    ∷ opt uint32
    ∷ []

abbrev pub vertex_with_normal_and_texture : Layout
vertex_with_normal_and_texture = record {
  opcode = 70;
  asserts = false;
  min_length = 32;
  rewinds = false;
  returns = true;
  save_returns = true;
  asserted = 0;
  load_steps = λ len. vertex_with_normal_and_texture_load;
  save_steps = λ len. vertex_with_normal_and_texture_save;
  keeps_rest = true;
}

abbrev pub vertex_with_texture_load : List Step
vertex_with_texture_load =
    plain uint16
    ∷ plain uint16
    ∷ plain float64
    ∷ plain float64
    ∷ plain float64
    ∷ opt float32
    ∷ opt float32
    ∷ opt uint32
    ∷ opt uint32
    ∷ []

abbrev pub vertex_with_texture_save : List Step
vertex_with_texture_save =
    plain uint16
    ∷ plain uint16
    ∷ plain float64
    ∷ plain float64
    ∷ plain float64
    ∷ opt float32
    ∷ opt float32
    ∷ opt uint32
    ∷ opt uint32
    ∷ []

abbrev pub vertex_with_texture : Layout
vertex_with_texture = record {
  opcode = 71;
  asserts = false;
  min_length = 32;
  rewinds = false;
  returns = true;
  save_returns = false;
  asserted = 0;
  load_steps = λ len. vertex_with_texture_load;
  save_steps = λ len. vertex_with_texture_save;
  keeps_rest = true;
}

abbrev pub obsolete_vertex_with_color_load : List Step
obsolete_vertex_with_color_load = opt int32 ∷ opt int32 ∷ opt int32 ∷ []

abbrev pub obsolete_vertex_with_color_save : List Step
obsolete_vertex_with_color_save = plain uint32 ∷ plain uint32 ∷ plain uint32 ∷ []

abbrev pub obsolete_vertex_with_color : Layout
obsolete_vertex_with_color = record {
  opcode = 8;
  asserts = false;
  min_length = 0;
  rewinds = true;
  returns = true;
  save_returns = true;
  asserted = 0;
  load_steps = λ len. obsolete_vertex_with_color_load;
  save_steps = λ len. obsolete_vertex_with_color_save;
  keeps_rest = true;
}

abbrev pub obsolete_vertex_with_normal_load : List Step
obsolete_vertex_with_normal_load = opt int32 ∷ opt int32 ∷ opt int32 ∷ []

abbrev pub obsolete_vertex_with_normal_save : List Step
obsolete_vertex_with_normal_save = plain uint32 ∷ plain uint32 ∷ plain uint32 ∷ []

abbrev pub obsolete_vertex_with_normal : Layout
obsolete_vertex_with_normal = record {
  opcode = 9;
  asserts = false;
  min_length = 0;
  rewinds = true;
  returns = true;
  save_returns = true;
  asserted = 0;
  load_steps = λ len. obsolete_vertex_with_normal_load;
  save_steps = λ len. obsolete_vertex_with_normal_save;
  keeps_rest = true;
}
