-- ===== src/Record/Layouts/Header.antt =====
-- The rows of the header, from src/nodes/header.c.
use profit.Prelude.{List, [], ◌∷◌, true, false}
use profit.Record.{Step, Layout, opt, float64, int16, int32, int8, text, uint32}

abbrev pub header_load : List Step
header_load =
    opt (text 8)
    ∷ opt int32
    ∷ opt int32
    ∷ opt (text 32)
    ∷ opt int16
    ∷ opt int16
    ∷ opt int16
    ∷ opt int16
    ∷ opt int16
    ∷ opt int8
    ∷ opt int8
    ∷ opt uint32
    ∷ opt int32
    ∷ opt int32
    ∷ opt int32
    ∷ opt int32
    ∷ opt int32
    ∷ opt int32
    ∷ opt int32
    ∷ opt int32
    ∷ opt int32
    ∷ opt int32
    ∷ opt int32
    ∷ opt int32
    ∷ opt int32
    ∷ opt int32
    ∷ opt int16
    ∷ opt int16
    ∷ opt int32
    ∷ opt float64
    ∷ opt float64
    ∷ opt float64
    ∷ opt float64
    ∷ opt int16
    ∷ opt int16
    ∷ opt int32
    ∷ opt int32
    ∷ opt int16
    ∷ opt int16
    ∷ opt int16
    ∷ opt int16
    ∷ opt int32
    ∷ opt float64
    ∷ opt float64
    ∷ opt float64
    ∷ opt float64
    ∷ opt float64
    ∷ opt float64
    ∷ opt float64
    ∷ opt float64
    ∷ opt int16
    ∷ opt int16
    ∷ opt int16
    ∷ opt int16
    ∷ opt int16
    ∷ opt int16
    ∷ opt int16
    ∷ opt int16
    ∷ opt int32
    ∷ opt int16
    ∷ opt int16
    ∷ opt int16
    ∷ []

abbrev pub header_save : List Step
header_save =
    opt (text 8)
    ∷ opt int32
    ∷ opt int32
    ∷ opt (text 32)
    ∷ opt int16
    ∷ opt int16
    ∷ opt int16
    ∷ opt int16
    ∷ opt int16
    ∷ opt int8
    ∷ opt int8
    ∷ opt uint32
    ∷ opt int32
    ∷ opt int32
    ∷ opt int32
    ∷ opt int32
    ∷ opt int32
    ∷ opt int32
    ∷ opt int32
    ∷ opt int32
    ∷ opt int32
    ∷ opt int32
    ∷ opt int32
    ∷ opt int32
    ∷ opt int32
    ∷ opt int32
    ∷ opt int16
    ∷ opt int16
    ∷ opt int32
    ∷ opt float64
    ∷ opt float64
    ∷ opt float64
    ∷ opt float64
    ∷ opt int16
    ∷ opt int16
    ∷ opt int32
    ∷ opt int32
    ∷ opt int16
    ∷ opt int16
    ∷ opt int16
    ∷ opt int16
    ∷ opt int32
    ∷ opt float64
    ∷ opt float64
    ∷ opt float64
    ∷ opt float64
    ∷ opt float64
    ∷ opt float64
    ∷ opt float64
    ∷ opt float64
    ∷ opt int16
    ∷ opt int16
    ∷ opt int16
    ∷ opt int16
    ∷ opt int16
    ∷ opt int16
    ∷ opt int16
    ∷ opt int16
    ∷ opt int32
    ∷ opt int16
    ∷ opt int16
    ∷ opt int16
    ∷ []

abbrev pub header : Layout
header = record {
  opcode = 1;
  asserts = false;
  min_length = 0;
  rewinds = true;
  returns = true;
  save_returns = true;
  asserted = 0;
  load_steps = λ len. header_load;
  save_steps = λ len. header_save;
  keeps_rest = true;
}
