-- ===== src/Record/Layouts/Primary.antt =====
-- The rows of the primary records below the header, from src/nodes.
use profit.Prelude.{List, [], ◌∷◌, true, false}
use profit.Record.{
  Step, Layout, plain, opt, float64, int16, int32, int8, text, uint16, uint32, uint8,
}

abbrev pub group_load : List Step
group_load =
    plain (text 8)
    ∷ plain int16
    ∷ plain int16
    ∷ plain uint32
    ∷ plain int16
    ∷ plain int16
    ∷ plain int16
    ∷ plain int8
    ∷ plain int8
    ∷ opt int32
    ∷ []

abbrev pub group_save : List Step
group_save =
    plain (text 8)
    ∷ plain int16
    ∷ plain int16
    ∷ plain uint32
    ∷ plain int16
    ∷ plain int16
    ∷ plain int16
    ∷ plain int8
    ∷ plain int8
    ∷ opt int32
    ∷ []

abbrev pub group : Layout
group = record {
  opcode = 2;
  asserts = false;
  min_length = 28;
  rewinds = true;
  returns = true;
  save_returns = true;
  asserted = 0;
  load_steps = λ len. group_load;
  save_steps = λ len. group_save;
  keeps_rest = true;
}

abbrev pub object_load : List Step
object_load =
    plain (text 8)
    ∷ plain uint32
    ∷ plain int16
    ∷ plain uint16
    ∷ plain int16
    ∷ plain int16
    ∷ plain int16
    ∷ opt int16
    ∷ []

abbrev pub object_save : List Step
object_save =
    plain (text 8)
    ∷ plain uint32
    ∷ plain int16
    ∷ plain uint16
    ∷ plain int16
    ∷ plain int16
    ∷ plain int16
    ∷ opt int16
    ∷ []

abbrev pub object : Layout
object = record {
  opcode = 4;
  asserts = false;
  min_length = 28;
  rewinds = true;
  returns = true;
  save_returns = true;
  asserted = 0;
  load_steps = λ len. object_load;
  save_steps = λ len. object_save;
  keeps_rest = true;
}

abbrev pub face_load : List Step
face_load =
    plain (text 8)
    ∷ plain int32
    ∷ plain int16
    ∷ plain int8
    ∷ plain int8
    ∷ plain uint16
    ∷ plain uint16
    ∷ plain int8
    ∷ plain int8
    ∷ plain int16
    ∷ plain int16
    ∷ plain int16
    ∷ plain int16
    ∷ plain int16
    ∷ plain int32
    ∷ plain uint16
    ∷ plain uint8
    ∷ plain uint8
    ∷ opt uint32
    ∷ opt uint8
    ∷ opt uint8
    ∷ opt uint16
    ∷ opt uint32
    ∷ opt uint32
    ∷ opt uint32
    ∷ opt int16
    ∷ opt int16
    ∷ opt uint32
    ∷ opt uint32
    ∷ opt int16
    ∷ opt int16
    ∷ []

abbrev pub face_save : List Step
face_save =
    plain (text 8)
    ∷ plain int32
    ∷ plain int16
    ∷ plain int8
    ∷ plain int8
    ∷ plain uint16
    ∷ plain uint16
    ∷ plain int8
    ∷ plain int8
    ∷ plain int16
    ∷ plain int16
    ∷ plain int16
    ∷ plain int16
    ∷ plain int16
    ∷ plain int32
    ∷ plain uint16
    ∷ plain uint8
    ∷ plain uint8
    ∷ opt uint32
    ∷ opt uint8
    ∷ opt uint8
    ∷ opt uint16
    ∷ opt uint32
    ∷ opt uint32
    ∷ opt uint32
    ∷ opt int16
    ∷ opt int16
    ∷ opt uint32
    ∷ opt uint32
    ∷ opt int16
    ∷ opt int16
    ∷ []

abbrev pub face : Layout
face = record {
  opcode = 5;
  asserts = true;
  min_length = 44;
  rewinds = true;
  returns = true;
  save_returns = true;
  asserted = 0;
  load_steps = λ len. face_load;
  save_steps = λ len. face_save;
  keeps_rest = true;
}

abbrev pub level_of_detail_load : List Step
level_of_detail_load =
    plain (text 8)
    ∷ plain int32
    ∷ plain float64
    ∷ plain float64
    ∷ plain int16
    ∷ plain int16
    ∷ plain int32
    ∷ plain float64
    ∷ plain float64
    ∷ plain float64
    ∷ plain float64
    ∷ []

abbrev pub level_of_detail_save : List Step
level_of_detail_save =
    plain (text 8)
    ∷ plain int32
    ∷ plain float64
    ∷ plain float64
    ∷ plain int16
    ∷ plain int16
    ∷ plain int32
    ∷ plain float64
    ∷ plain float64
    ∷ plain float64
    ∷ plain float64
    ∷ []

abbrev pub level_of_detail : Layout
level_of_detail = record {
  opcode = 73;
  asserts = false;
  min_length = 72;
  rewinds = true;
  returns = true;
  save_returns = true;
  asserted = 0;
  load_steps = λ len. level_of_detail_load;
  save_steps = λ len. level_of_detail_save;
  keeps_rest = true;
}

abbrev pub external_reference_load : List Step
external_reference_load =
    plain (text 200) ∷ plain int8 ∷ plain int8 ∷ plain int16 ∷ plain int16 ∷ plain int32 ∷ []

abbrev pub external_reference_save : List Step
external_reference_save =
    plain (text 200) ∷ plain int8 ∷ plain int8 ∷ plain int16 ∷ plain int16 ∷ plain int32 ∷ []

abbrev pub external_reference : Layout
external_reference = record {
  opcode = 63;
  asserts = false;
  min_length = 212;
  rewinds = true;
  returns = true;
  save_returns = true;
  asserted = 0;
  load_steps = λ len. external_reference_load;
  save_steps = λ len. external_reference_save;
  keeps_rest = true;
}
