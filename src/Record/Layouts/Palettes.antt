-- ===== src/Record/Layouts/Palettes.antt =====
-- The rows of the material palette, from src/nodes/material_palette.c: one for each material, in a loop
-- that ends at the first member without room in the length.
use profit.Prelude.{ℕ, zero, suc, ◌-◌, ◌/◌, true, false, List, [], ◌∷◌}
use profit.Record.{Step, Layout, checked, opt, float32, uint32, text}

-- n members of the same kind
abbrev pub repeated : ℕ → Step → List Step → List Step
repeated zero s ss = ss
repeated (suc n) s ss = s ∷ repeated n s ss

-- a round of the loop, which has the given test before the name
abbrev pub material_round : ℕ → List Step → List Step
material_round test ss =
    repeated 14 (opt float32) (opt uint32 ∷ checked test (text 12) ∷ repeated 28 (opt uint32) ss)

abbrev pub material_rounds : ℕ → ℕ → List Step
material_rounds test zero = []
material_rounds test (suc n) = material_round test (material_rounds test n)

-- Each round moves 184 bytes, or is the last one.
abbrev pub material_palette_load : ℕ → List Step
material_palette_load len = material_rounds 12 (suc ((len - 4) / 184))

abbrev pub material_palette_save : ℕ → List Step
material_palette_save len = material_rounds 4 (suc ((len - 4) / 184))

abbrev pub material_palette : Layout
material_palette = record {
  opcode = 66;
  asserts = false;
  min_length = 0;
  rewinds = true;
  returns = true;
  save_returns = true;
  asserted = 0;
  load_steps = material_palette_load;
  save_steps = material_palette_save;
  keeps_rest = true;
}
