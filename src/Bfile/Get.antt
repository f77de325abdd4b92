-- ===== src/Bfile/Get.antt =====
-- The integer readers of src/util/bfile.c. A signed number is its two's complement pattern: a
-- number below 2^8, 2^16 or 2^32. `int` has 32 bits, and narrower operands are widened to it.
pub mod Values
pub mod Read
use profit.Prelude.{ℕ, ◌+◌, ◌-◌, ◌*◌, ◌%◌, ◌^◌, ltb, if◌then◌else◌, bit_or, List, [], ◌∷◌}
use profit.Prelude.Bits.{shl}
use profit.Bfile.{Bfile, Cmd, Stdio, get_uint8, ◌>>=◌, pure}

-- An `int8_t` or `int16_t` as an `int`: the sign is extended.
abbrev pub int_of_int8 : ℕ → ℕ
int_of_int8 v = if ltb v (2 ^ 7) then v else v + (2 ^ 32 - 2 ^ 8)

abbrev pub int_of_int16 : ℕ → ℕ
int_of_int16 v = if ltb v (2 ^ 15) then v else v + (2 ^ 32 - 2 ^ 16)

-- `v << k` on an `int`, and the conversions to the 16-bit types
abbrev pub shl_int : ℕ → ℕ → ℕ
shl_int v k = shl v k % 2 ^ 32

abbrev pub to_16 : ℕ → ℕ
to_16 v = v % 2 ^ 16

module _ (io : Stdio) where
  -- `bf_get_int8`: the same steps, and the byte as a signed number
  unfoldable pub get_int8 : Cmd ℕ
  get_int8 = get_uint8 io

  unfoldable pub get_int16_be : Cmd ℕ
  get_int16_be = do
    a ← get_int8
    let val = to_16 (shl_int (int_of_int8 a) 8)
    b ← get_uint8 io
    pure (to_16 (bit_or (int_of_int16 val) b))

  unfoldable pub get_uint16_be : Cmd ℕ
  get_uint16_be = do
    a ← get_uint8 io
    let val = to_16 (shl_int a 8)
    b ← get_uint8 io
    pure (to_16 (bit_or val b))

  unfoldable pub get_int16_le : Cmd ℕ
  get_int16_le = do
    a ← get_uint8 io
    b ← get_int8
    pure (to_16 (bit_or a (shl_int (int_of_int8 b) 8)))

  unfoldable pub get_uint16_le : Cmd ℕ
  get_uint16_le = do a ← get_uint8 io; b ← get_uint8 io; pure (to_16 (bit_or a (shl_int b 8)))

  unfoldable pub get_int32_be : Cmd ℕ
  get_int32_be = do
    a ← get_int8
    let val = shl_int (int_of_int8 a) 24
    b ← get_uint8 io
    let val = bit_or val (shl_int b 16)
    c ← get_uint8 io
    let val = bit_or val (shl_int c 8)
    d ← get_uint8 io
    pure (bit_or val d)

  unfoldable pub get_uint32_be : Cmd ℕ
  get_uint32_be = do
    a ← get_uint8 io
    let val = shl_int a 24
    b ← get_uint8 io
    let val = bit_or val (shl_int b 16)
    c ← get_uint8 io
    let val = bit_or val (shl_int c 8)
    d ← get_uint8 io
    pure (bit_or val d)

  unfoldable pub get_int32_le : Cmd ℕ
  get_int32_le = do
    a ← get_uint8 io
    b ← get_uint8 io
    let val = bit_or a (shl_int b 8)
    c ← get_uint8 io
    let val = bit_or val (shl_int c 16)
    d ← get_int8
    pure (bit_or val (shl_int (int_of_int8 d) 24))

  unfoldable pub get_uint32_le : Cmd ℕ
  get_uint32_le = do
    a ← get_uint8 io
    b ← get_uint8 io
    let val = bit_or a (shl_int b 8)
    c ← get_uint8 io
    let val = bit_or val (shl_int c 16)
    d ← get_uint8 io
    pure (bit_or val (shl_int d 24))
