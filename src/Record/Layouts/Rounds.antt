-- ===== src/Record/Layouts/Rounds.antt =====
-- The loop over the materials of a palette in src/nodes/material_palette.c, with more rounds than its row
-- has.
use profit.Prelude.{
  ℕ, zero, suc, ◌+◌, ◌*◌, ◌-◌, ◌/◌, ◌<◌, ◌≡◌, refl, ap, ◌∙◌, Bool, true, false, List, [], ◌∷◌, ◌++◌,
  ltb, leb, arith, if◌then◌else◌,
}
use profit.Bfile.{Stdio, ◌>>=◌, ◌>>◌, pure, assert}
use profit.Record.{
  Step, Value, plain, checked, size, kind, breaks, get_kind, put_kind, load_row, save_row,
}
use profit.Record.Layouts.Palettes.{material_round, material_rounds}

-- The size of all members of a row
total : List Step → ℕ
total [] = 0
total (s ∷ ss) = size (kind s) + total ss

-- A row that is empty, or begins with a test for four bytes or more.
stops : List Step → Bool
stops [] = true
stops (plain k ∷ ss) = false
stops (checked n k ∷ ss) = leb 4 n

module _ (io : Stdio) (big : Bool) where
  stopped_row :
      (ss : List Step) (len pos : ℕ)
      → stops ss ≡ true
      → len < pos + 4
      → load_row io big ss len pos ≡ pure ([], pos)
  unfolding load_row stops
  stopped_row [] len pos e low = refl
  stopped_row (plain k ∷ ss) len pos e low = cc
  stopped_row (checked n k ∷ ss) len pos e low =
      let t : ltb len (pos + n) ≡ true = ground arith in rw t refl

  -- Behind a row that takes all but three bytes of the length, steps with a test are not taken.
  load_row-more :
      (ss more : List Step) (len pos : ℕ)
      → stops more ≡ true
      → len < pos + total ss + 4
      → load_row io big (ss ++ more) len pos ≡ load_row io big ss len pos
  unfolding load_row total
  load_row-more [] more len pos e low = stopped_row more len pos e (omega (arith, low))
  load_row-more (s ∷ ss) more len pos e low =
      let ih = load_row-more ss more len (pos + size (kind s)) e (omega (arith, low)) in
      ap
        (λ rest. if breaks s len pos then pure ([], pos) else (do
          assert (λ b. ltb 4 len)
          v ← get_kind io big (kind s)
          found ← rest
          pure (v ∷ found.0, found.1)))
        ih

module _ (io : Stdio) (big : Bool) where
  stopped_save :
      (ss : List Step) (len pos : ℕ) (vs : List Value)
      → stops ss ≡ true
      → len < pos + 4
      → save_row io big ss len pos vs ≡ pure pos
  unfolding save_row stops
  stopped_save [] len pos vs e low = refl
  stopped_save (plain k ∷ ss) len pos vs e low = cc
  stopped_save (checked n k ∷ ss) len pos [] e low =
      let t : ltb len (pos + n) ≡ true = ground arith in rw t refl
  stopped_save (checked n k ∷ ss) len pos (v ∷ vs) e low =
      let t : ltb len (pos + n) ≡ true = ground arith in rw t refl

  save_row-more :
      (ss more : List Step) (len pos : ℕ) (vs : List Value)
      → stops more ≡ true
      → len < pos + total ss + 4
      → save_row io big (ss ++ more) len pos vs ≡ save_row io big ss len pos vs
  unfolding save_row total
  save_row-more [] more len pos vs e low = stopped_save more len pos vs e (omega (arith, low))
  save_row-more (s ∷ ss) more len pos [] e low = refl
  save_row-more (s ∷ ss) more len pos (v ∷ vs) e low =
      let ih = save_row-more ss more len (pos + size (kind s)) vs e (omega (arith, low)) in
      ap (λ rest. if breaks s len pos then pure pos else (do put_kind io big (kind s) v; rest)) ih

rounds-append :
    (test n k : ℕ) → material_rounds test (n + k) ≡ material_rounds test n ++ material_rounds test k
rounds-append test zero k = let e : 0 + k ≡ k = omega arith in ap (material_rounds test) e
rounds-append test (suc n) k =
    let e : suc n + k ≡ suc (n + k) = omega arith in
    ap (material_rounds test) e ∙ ap (material_round test) (rounds-append test n k)

rounds-total : (test n : ℕ) → total (material_rounds test n) ≡ n * 184
unfolding total
rounds-total test zero = refl
rounds-total test (suc n) = let ih = rounds-total test n in omega (arith, ih)

rounds-stops : (test n : ℕ) → stops (material_rounds test n) ≡ true
unfolding stops
rounds-stops test zero = refl
rounds-stops test (suc n) = refl

module _ (io : Stdio) (big : Bool) where
  -- More rounds than its row has do not change what the loop of the load function does.
  material_rounds-load :
      (test len k : ℕ)
      → load_row io big (material_rounds test (suc ((len - 4) / 184) + k)) len 4
        ≡ load_row io big (material_rounds test (suc ((len - 4) / 184))) len 4
  material_rounds-load test len k =
      let n : ℕ = suc ((len - 4) / 184) in
      let t = rounds-total test n in
      ap (λ ss. load_row io big ss len 4) (rounds-append test n k)
      ∙ load_row-more io big (material_rounds test n) (material_rounds test k) len 4
          (rounds-stops test k) (omega (arith, t))

  -- More rounds than its row has do not change what the loop of the save function does.
  material_rounds-save :
      (test len k : ℕ) (vs : List Value)
      → save_row io big (material_rounds test (suc ((len - 4) / 184) + k)) len 4 vs
        ≡ save_row io big (material_rounds test (suc ((len - 4) / 184))) len 4 vs
  material_rounds-save test len k vs =
      let n : ℕ = suc ((len - 4) / 184) in
      let t = rounds-total test n in
      ap (λ ss. save_row io big ss len 4 vs) (rounds-append test n k)
      ∙ save_row-more io big (material_rounds test n) (material_rounds test k) len 4 vs
          (rounds-stops test k) (omega (arith, t))
