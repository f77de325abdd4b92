-- ===== src/Record/Keeps.antt =====
-- The load functions keep the size of the buffer that they read through, and the file.
use profit.Prelude.{
  ℕ, ◌+◌, Bool, List, [], ◌∷◌, ◌-◌, ◌==◌, ◌&&◌, not, none, refl, ltb, leb, if◌then◌else◌,
}
use profit.Bfile.{Stdio, assert, rewind, get_uint8, bf_read, pure}
use profit.Bfile.Get.{get_int8, get_int16_be, get_uint16_be, get_int32_be, get_uint32_be}
use profit.Bfile.Float.{get_float32_be, get_float64_be}
use profit.Bfile.Reading.Block.{
  Keeps, then-Keeps, if-Keeps, assert-Keeps, get_uint8-Keeps, bf_read-Keeps, get_int8-Keeps,
  get_16-Keeps, get_32-Keeps, get_float-Keeps, rewind-Keeps,
}
use profit.Record.{
  Kind, Step, Layout, load_f, load_content, get_kind, load_row, kind, size, breaks, int8, uint8,
  int16, uint16, int32, uint32, float32, float64, text,
}

module _ (io : Stdio) (big : Bool) where
  get_kind-Keeps : (k : Kind) → Keeps (get_kind io big k)
  unfolding get_kind
  get_kind-Keeps int8 = then-Keeps (get_int8 io) _ (get_int8-Keeps io) (λ v b. refl)
  get_kind-Keeps uint8 = then-Keeps (get_uint8 io) _ (get_uint8-Keeps io) (λ v b. refl)
  get_kind-Keeps int16 = then-Keeps (get_int16_be io) _ (get_16-Keeps io).1 (λ v b. refl)
  get_kind-Keeps uint16 = then-Keeps (get_uint16_be io) _ (get_16-Keeps io).0 (λ v b. refl)
  get_kind-Keeps int32 = then-Keeps (get_int32_be io) _ (get_32-Keeps io).1 (λ v b. refl)
  get_kind-Keeps uint32 = then-Keeps (get_uint32_be io) _ (get_32-Keeps io).0 (λ v b. refl)
  get_kind-Keeps float32 =
      then-Keeps (get_float32_be io big) _ (get_float-Keeps io big).0 (λ v b. refl)
  get_kind-Keeps float64 =
      then-Keeps (get_float64_be io big) _ (get_float-Keeps io big).1 (λ v b. refl)
  get_kind-Keeps (text n) = then-Keeps (bf_read io n) _ (bf_read-Keeps io n) (λ v b. refl)

  pub load_row-Keeps : (ss : List Step) (len pos : ℕ) → Keeps (load_row io big ss len pos)
  unfolding load_row
  load_row-Keeps [] len pos = λ b. refl
  load_row-Keeps (s ∷ ss) len pos =
      if-Keeps (breaks s len pos) (pure ([], pos)) _ (λ b. refl)
        (then-Keeps (assert (λ b. ltb 4 len)) _ (assert-Keeps (λ b. ltb 4 len)) λ _.
          then-Keeps (get_kind io big (kind s)) _ (get_kind-Keeps (kind s)) λ v.
            then-Keeps (load_row io big ss len (pos + size (kind s))) _
              (load_row-Keeps ss len (pos + size (kind s))) (λ found b. refl))

  load_content-Keeps : (l : Layout) (len : ℕ) → Keeps (load_content io big l len)
  load_content-Keeps l len =
      then-Keeps (assert (λ b. leb l.asserted len)) _ (assert-Keeps (λ b. leb l.asserted len)) λ _.
        then-Keeps (load_row io big (l.load_steps len) len 4) _
          (load_row-Keeps (l.load_steps len) len 4)
          λ found.
            then-Keeps
              (if l.keeps_rest && ltb found.1 len then bf_read io (len - found.1) else pure []) _
              (if-Keeps (l.keeps_rest && ltb found.1 len) (bf_read io (len - found.1)) (pure [])
                (bf_read-Keeps io (len - found.1)) (λ b. refl))
              (λ more b. refl)

  pub load_f-Keeps : (l : Layout) → Keeps (load_f io big l)
  unfolding load_f
  load_f-Keeps l = then-Keeps (get_uint16_be io) _ (get_16-Keeps io).0 λ op.
      if-Keeps (not (op == l.opcode)) _ _
        (then-Keeps (assert (λ b. not l.asserts)) _ (assert-Keeps (λ b. not l.asserts))
          λ _. then-Keeps (rewind io 2) _ (rewind-Keeps io 2) (λ n b. refl))
        (then-Keeps (get_uint16_be io) _ (get_16-Keeps io).0 λ len.
          if-Keeps (ltb len l.min_length) _ _
            (if-Keeps l.returns _ _
              (if-Keeps l.rewinds _ (pure none)
                (then-Keeps (rewind io 4) _ (rewind-Keeps io 4) (λ n b. refl)) (λ b. refl))
              (if-Keeps l.rewinds _ _
                (then-Keeps (rewind io 4) _ (rewind-Keeps io 4) (λ _. load_content-Keeps l len))
                (load_content-Keeps l len)))
            (load_content-Keeps l len))
