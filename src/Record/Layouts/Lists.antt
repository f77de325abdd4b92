-- ===== src/Record/Layouts/Lists.antt =====
-- The rows of the vertex lists, from src/nodes/vertex_list.c and src/nodes/morph_vertex_list.c: as many
-- offsets as the length has room for. What is left over of it is not read.
use profit.Prelude.{ℕ, zero, suc, ◌-◌, ◌/◌, List, [], ◌∷◌, true, false}
use profit.Record.{Step, Layout, plain, uint32}

-- the rounds of the loop `while ( num < count )`
abbrev pub offsets : ℕ → List Step
offsets zero = []
offsets (suc n) = plain uint32 ∷ offsets n

abbrev pub vertex_list_load : ℕ → List Step
vertex_list_load len = offsets ((len - 4) / 4)

abbrev pub vertex_list_save : ℕ → List Step
vertex_list_save len = offsets ((len - 4) / 4)

abbrev pub vertex_list : Layout
vertex_list = record {
  opcode = 72;
  asserts = false;
  min_length = 0;
  rewinds = true;
  returns = true;
  save_returns = true;
  asserted = 0;
  load_steps = vertex_list_load;
  save_steps = vertex_list_save;
  keeps_rest = false;
}

abbrev pub morph_vertex_list_load : ℕ → List Step
morph_vertex_list_load len = offsets ((len - 4) / 4)

abbrev pub morph_vertex_list_save : ℕ → List Step
morph_vertex_list_save len = offsets ((len - 4) / 4)

abbrev pub morph_vertex_list : Layout
morph_vertex_list = record {
  opcode = 89;
  asserts = false;
  min_length = 0;
  rewinds = true;
  returns = true;
  save_returns = true;
  asserted = 0;
  load_steps = morph_vertex_list_load;
  save_steps = morph_vertex_list_save;
  keeps_rest = false;
}
