-- ===== src/Record.antt =====
-- The records of an Open Flight file, as the load and save functions of src/nodes read and write
-- them. All those functions have one shape: the opcode and the length, a row of members of the
-- record's structure, and what the length leaves over. A Layout says what one of them has its own: the
-- opcode, the least length, and the row of steps. A record that is loaded is its members, each a cell of
-- its own, and the bytes behind them. Floats are their IEEE patterns, signed numbers are patterns too.
pub mod Kinds
pub mod Keeps
pub mod Save
pub mod Load
pub mod RoundTrip
pub mod Layouts
mod Tests
use profit.Prelude.{
  ℕ, ◌+◌, ◌-◌, ◌^◌, Bool, true, false, Option, none, some, List, [], ◌∷◌, ltb, leb, ◌==◌, ◌&&◌, not,
  if◌then◌else◌, length, take,
}
use profit.Bfile.{
  Bfile, Run, Cmd, Stdio, ok, fault, get_uint8, put_uint8, bf_read, bf_write, rewind, assert, ◌>>=◌,
  ◌>>◌, pure,
}
use profit.Bfile.Get.{get_int8, get_int16_be, get_uint16_be, get_int32_be, get_uint32_be}
use profit.Bfile.Put.{put_int8, put_int16_be, put_uint16_be, put_int32_be, put_uint32_be}
use profit.Bfile.Float.{get_float32_be, get_float64_be, put_float32_be, put_float64_be}

-- What one call of a function of src/util/bfile.c moves; `text` is a bf_read or bf_write of n bytes.
pub data Kind : Type 0 where
  int8 : Kind
  uint8 : Kind
  int16 : Kind
  uint16 : Kind
  int32 : Kind
  uint32 : Kind
  float32 : Kind
  float64 : Kind
  text : ℕ → Kind

abbrev pub size : Kind → ℕ
size int8 = 1
size uint8 = 1
size int16 = 2
size uint16 = 2
size int32 = 4
size uint32 = 4
size float32 = 4
size float64 = 8
size (text n) = n

-- The content of a member
pub data Value : Type 0 where
  number : ℕ → Value
  bytes : List ℕ → Value

-- A step moves a member and adds its size to `pos`. `checked n k` comes behind the test
-- `if ( node->length < (pos + n) ) break`.
pub data Step : Type 0 where
  plain : Kind → Step
  checked : ℕ → Kind → Step

-- a test for the member itself
abbrev pub opt : Kind → Step
opt k = checked (size k) k

abbrev pub kind : Step → Kind
kind (plain k) = k
kind (checked n k) = k

-- Whether a step ends the row, with this length of the record and this `pos`.
abbrev pub breaks : Step → ℕ → ℕ → Bool
breaks (plain k) len pos = false
breaks (checked n k) len pos = ltb len (pos + n)

-- `asserts` is true where another opcode fails an assertion instead of ending the function, and
-- `rewinds` where it rewinds past a length below `min_length`; it ends the load function then, but where
-- `returns` is false. Where `save_returns` is false, another opcode does not end the save function. A
-- length below `asserted` fails an
-- assertion. The rows may depend on the length. Where `keeps_rest` is false, what the length leaves
-- over behind the row is neither read nor written.
pub record Layout : Type 0 where
  pub opcode : ℕ
  pub asserts : Bool
  pub min_length : ℕ
  pub rewinds : Bool
  pub returns : Bool
  pub save_returns : Bool
  pub asserted : ℕ
  pub load_steps : ℕ → List Step
  pub save_steps : ℕ → List Step
  pub keeps_rest : Bool

-- A record in memory: its length, the members that it holds, and the bytes behind them.
pub record Loaded : Type 0 where
  pub len : ℕ
  pub members : List Value
  pub rest : List ℕ

module _ (io : Stdio) (big : Bool) where
  unfoldable pub get_kind : Kind → Cmd Value
  get_kind int8 = do v ← get_int8 io; pure (number v)
  get_kind uint8 = do v ← get_uint8 io; pure (number v)
  get_kind int16 = do v ← get_int16_be io; pure (number v)
  get_kind uint16 = do v ← get_uint16_be io; pure (number v)
  get_kind int32 = do v ← get_int32_be io; pure (number v)
  get_kind uint32 = do v ← get_uint32_be io; pure (number v)
  get_kind float32 = do v ← get_float32_be io big; pure (number v)
  get_kind float64 = do v ← get_float64_be io big; pure (number v)
  get_kind (text n) = do l ← bf_read io n; pure (bytes l)

  -- A member of another kind is not there to be written.
  unfoldable pub put_kind : Kind → Value → Cmd (Unit {0})
  put_kind int8 (number v) = put_int8 io v
  put_kind uint8 (number v) = put_uint8 io v
  put_kind int16 (number v) = put_int16_be io v
  put_kind uint16 (number v) = put_uint16_be io v
  put_kind int32 (number v) = put_int32_be io v
  put_kind uint32 (number v) = put_uint32_be io v
  put_kind float32 (number v) = put_float32_be io big v
  put_kind float64 (number v) = put_float64_be io big v
  put_kind (text n) (bytes l) = bf_write io l >>= λ _. pure tt
  put_kind _ _ = λ b. fault

  -- The row of a load function. Memory for the members is there where the length is above 4.
  unfoldable pub load_row : List Step → ℕ → ℕ → Cmd (List Value × ℕ)
  load_row [] len pos = pure ([], pos)
  load_row (s ∷ ss) len pos =
      let rest = load_row ss len (pos + size (kind s)) in
      if breaks s len pos then pure ([], pos) else (do
        assert (λ b. ltb 4 len)
        v ← get_kind (kind s)
        found ← rest
        pure (v ∷ found.0, found.1))

  -- The row of a save function; it gives `pos`. A member that the record does not hold is a fault.
  unfoldable pub save_row : List Step → ℕ → ℕ → List Value → Cmd ℕ
  save_row [] len pos vs = pure pos
  save_row (s ∷ ss) len pos [] = if breaks s len pos then pure pos else λ b. fault
  save_row (s ∷ ss) len pos (v ∷ vs) =
      let rest = save_row ss len (pos + size (kind s)) vs in
      if breaks s len pos then pure pos else (do put_kind (kind s) v; rest)

  -- the row of a load function, and what is behind it
  abbrev pub load_content : Layout → ℕ → Cmd (Option Loaded)
  load_content l len = do
    assert (λ b. leb l.asserted len)
    found ← load_row (l.load_steps len) len 4
    more ← if l.keeps_rest && ltb found.1 len then bf_read io (len - found.1) else pure []
    pure (some (record { len = len; members = found.0; rest = more }))

  -- A load function on a new node. `none` is the result FALSE.
  unfoldable pub load_f : Layout → Cmd (Option Loaded)
  load_f l = do
    op ← get_uint16_be io
    if not (op == l.opcode)
        then (assert (λ b. not l.asserts) >> (rewind io 2 >>= λ _. pure none))
        else (do
          len ← get_uint16_be io
          let content = load_content l len
          if ltb len l.min_length
              then (if l.returns
                  then (if l.rewinds then (rewind io 4 >>= λ _. pure none) else pure none)
                  else (if l.rewinds then (rewind io 4 >>= λ _. content) else content))
              else content)

  -- A save function, behind its test of the opcode
  unfoldable pub save_f : Layout → Loaded → Cmd (Unit {0})
  save_f l r = do
    put_uint16_be io l.opcode
    put_uint16_be io r.len
    pos ← save_row (l.save_steps r.len) r.len 4 r.members
    if l.keeps_rest && ltb pos r.len
        then (do
          assert (λ b. leb (r.len - pos) (length r.rest))
          n ← bf_write io (take (r.len - pos) r.rest)
          pure tt)
        else pure tt

  -- A save function on a node with an opcode; false is the result FALSE.
  unfoldable pub save_checked : Layout → ℕ → Loaded → Cmd Bool
  save_checked l op r =
      if op == l.opcode
      then (save_f l r >>= λ _. pure true)
      else if l.save_returns
      then pure false
      else (save_f (record l { opcode = op }) r >>= λ _. pure true)
