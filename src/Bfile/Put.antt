-- ===== src/Bfile/Put.antt =====
-- The integer writers of src/util/bfile.c, on numbers of their width. `>>` on a negative `int`
-- fills up with ones; `& 0xff` is the remainder by 256.
pub mod Write
use profit.Prelude.{ℕ, ◌+◌, ◌-◌, ◌/◌, ◌%◌, ◌^◌, ltb, if◌then◌else◌}
use profit.Prelude.Bits.{shr}
use profit.Bfile.{Bfile, Cmd, Stdio, put_uint8, ◌>>=◌, ◌>>◌, pure}
use profit.Bfile.Get.{int_of_int16}

-- `v >> k` on an `int`
abbrev pub shr_int : ℕ → ℕ → ℕ
shr_int v k = if ltb v (2 ^ 31) then shr v k else shr v k + (2 ^ 32 - 2 ^ (32 - k))

abbrev pub low_byte : ℕ → ℕ
low_byte v = v % 256

module _ (io : Stdio) where
  -- `bf_put_int8` has the text of `bf_put_uint8`, on the pattern of a signed byte.
  unfoldable pub put_int8 : ℕ → Cmd (Unit {0})
  put_int8 value = put_uint8 io value

  unfoldable pub put_int16_be : ℕ → Cmd (Unit {0})
  put_int16_be value = do
    put_int8 (low_byte (shr_int (int_of_int16 value) 8))
    put_uint8 io (low_byte (int_of_int16 value))

  unfoldable pub put_uint16_be : ℕ → Cmd (Unit {0})
  put_uint16_be value = do put_uint8 io (low_byte (shr value 8)); put_uint8 io (low_byte value)

  unfoldable pub put_int16_le : ℕ → Cmd (Unit {0})
  put_int16_le value = do
    put_uint8 io (low_byte (int_of_int16 value))
    put_int8 (low_byte (shr_int (int_of_int16 value) 8))

  unfoldable pub put_uint16_le : ℕ → Cmd (Unit {0})
  put_uint16_le value = do put_uint8 io (low_byte value); put_uint8 io (low_byte (shr value 8))

  unfoldable pub put_int32_be : ℕ → Cmd (Unit {0})
  put_int32_be value = do
    put_int8 (low_byte (shr_int value 24))
    put_uint8 io (low_byte (shr_int value 16))
    put_uint8 io (low_byte (shr_int value 8))
    put_uint8 io (low_byte value)

  unfoldable pub put_uint32_be : ℕ → Cmd (Unit {0})
  put_uint32_be value = do
    put_uint8 io (low_byte (shr value 24))
    put_uint8 io (low_byte (shr value 16))
    put_uint8 io (low_byte (shr value 8))
    put_uint8 io (low_byte value)

  unfoldable pub put_int32_le : ℕ → Cmd (Unit {0})
  put_int32_le value = do
    put_uint8 io (low_byte value)
    put_uint8 io (low_byte (shr_int value 8))
    put_uint8 io (low_byte (shr_int value 16))
    put_int8 (low_byte (shr_int value 24))

  unfoldable pub put_uint32_le : ℕ → Cmd (Unit {0})
  put_uint32_le value = do
    put_uint8 io (low_byte value)
    put_uint8 io (low_byte (shr value 8))
    put_uint8 io (low_byte (shr value 16))
    put_uint8 io (low_byte (shr value 24))
