-- ===== src/Record/Layouts/Ancillary.antt =====
-- The rows of the ancillary and the instance records, from src/nodes.
use profit.Prelude.{List, [], ◌∷◌, true, false}
use profit.Record.{Step, Layout, plain, opt, float32, int16, int32, text, uint32}

abbrev pub matrix_load : List Step
matrix_load =
    plain float32
    ∷ plain float32
    ∷ plain float32
    ∷ plain float32
    ∷ plain float32
    ∷ plain float32
    ∷ plain float32
    ∷ plain float32
    ∷ plain float32
    ∷ plain float32
    ∷ plain float32
    ∷ plain float32
    ∷ plain float32
    ∷ plain float32
    ∷ plain float32
    ∷ plain float32
    ∷ []

abbrev pub matrix_save : List Step
matrix_save =
    plain float32
    ∷ plain float32
    ∷ plain float32
    ∷ plain float32
    ∷ plain float32
    ∷ plain float32
    ∷ plain float32
    ∷ plain float32
    ∷ plain float32
    ∷ plain float32
    ∷ plain float32
    ∷ plain float32
    ∷ plain float32
    ∷ plain float32
    ∷ plain float32
    ∷ plain float32
    ∷ []

abbrev pub matrix : Layout
matrix = record {
  opcode = 49;
  asserts = false;
  min_length = 68;
  rewinds = true;
  returns = true;
  save_returns = true;
  asserted = 0;
  load_steps = λ len. matrix_load;
  save_steps = λ len. matrix_save;
  keeps_rest = true;
}

abbrev pub material_load : List Step
material_load =
    opt uint32
    ∷ opt (text 12)
    ∷ opt uint32
    ∷ opt float32
    ∷ opt float32
    ∷ opt float32
    ∷ opt float32
    ∷ opt float32
    ∷ opt float32
    ∷ opt float32
    ∷ opt float32
    ∷ opt float32
    ∷ opt float32
    ∷ opt float32
    ∷ opt float32
    ∷ opt float32
    ∷ opt float32
    ∷ opt uint32
    ∷ []

abbrev pub material_save : List Step
material_save =
    opt uint32
    ∷ opt (text 12)
    ∷ opt uint32
    ∷ opt float32
    ∷ opt float32
    ∷ opt float32
    ∷ opt float32
    ∷ opt float32
    ∷ opt float32
    ∷ opt float32
    ∷ opt float32
    ∷ opt float32
    ∷ opt float32
    ∷ opt float32
    ∷ opt float32
    ∷ opt float32
    ∷ opt float32
    ∷ opt uint32
    ∷ []

abbrev pub material : Layout
material = record {
  opcode = 113;
  asserts = false;
  min_length = 0;
  rewinds = true;
  returns = true;
  save_returns = true;
  asserted = 0;
  load_steps = λ len. material_load;
  save_steps = λ len. material_save;
  keeps_rest = true;
}

abbrev pub texture_load : List Step
texture_load = opt (text 200) ∷ opt int32 ∷ opt int32 ∷ opt int32 ∷ []

abbrev pub texture_save : List Step
texture_save = opt (text 200) ∷ opt int32 ∷ opt int32 ∷ opt int32 ∷ []

abbrev pub texture : Layout
texture = record {
  opcode = 64;
  asserts = false;
  min_length = 0;
  rewinds = true;
  returns = true;
  save_returns = true;
  asserted = 0;
  load_steps = λ len. texture_load;
  save_steps = λ len. texture_save;
  keeps_rest = true;
}

abbrev pub instance_definition_load : List Step
instance_definition_load = plain int16 ∷ plain int16 ∷ []

abbrev pub instance_definition_save : List Step
instance_definition_save = plain int16 ∷ plain int16 ∷ []

abbrev pub instance_definition : Layout
instance_definition = record {
  opcode = 62;
  asserts = false;
  min_length = 0;
  rewinds = true;
  returns = true;
  save_returns = true;
  asserted = 8;
  load_steps = λ len. instance_definition_load;
  save_steps = λ len. instance_definition_save;
  keeps_rest = true;
}

abbrev pub instance_reference_load : List Step
instance_reference_load = plain int16 ∷ plain int16 ∷ []

abbrev pub instance_reference_save : List Step
instance_reference_save = plain int16 ∷ plain int16 ∷ []

abbrev pub instance_reference : Layout
instance_reference = record {
  opcode = 61;
  asserts = false;
  min_length = 0;
  rewinds = true;
  returns = true;
  save_returns = true;
  asserted = 8;
  load_steps = λ len. instance_reference_load;
  save_steps = λ len. instance_reference_save;
  keeps_rest = true;
}
