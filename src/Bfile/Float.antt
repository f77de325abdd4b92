-- ===== src/Bfile/Float.antt =====
-- The float readers and writers of src/util/bfile.c. A float is its IEEE bit pattern, a number below
-- 2^32 or 2^64; `big` says that the host is big-endian (WORDS_BIGENDIAN), which decides how the union
-- reads the pattern as bytes.
pub mod Host
pub mod Wide
use profit.Prelude.{ℕ, ◌+◌, ◌-◌, ◌*◌, ◌/◌, ◌%◌, ◌^◌, Bool, true, false, if◌then◌else◌}
use profit.Bfile.{Bfile, Cmd, Stdio, get_uint8, put_uint8, ◌>>=◌, ◌>>◌, pure}

-- `data.real` of a union with these four `data.bytes`, and `data.bytes[i]`
abbrev pub real32 : Bool → (x0 x1 x2 x3 : ℕ) → ℕ
real32 big x0 x1 x2 x3 =
    if big
    then x0 * 2 ^ 24 + x1 * 2 ^ 16 + x2 * 2 ^ 8 + x3
    else x3 * 2 ^ 24 + x2 * 2 ^ 16 + x1 * 2 ^ 8 + x0

abbrev pub byte32 : Bool → ℕ → ℕ → ℕ
byte32 big v i = if big then v / 2 ^ (8 * (3 - i)) % 256 else v / 2 ^ (8 * i) % 256

abbrev pub real64 : Bool → (x0 x1 x2 x3 x4 x5 x6 x7 : ℕ) → ℕ
real64 big x0 x1 x2 x3 x4 x5 x6 x7 =
    if big
    then real32 true x0 x1 x2 x3 * 2 ^ 32 + real32 true x4 x5 x6 x7
    else real32 false x4 x5 x6 x7 * 2 ^ 32 + real32 false x0 x1 x2 x3

abbrev pub byte64 : Bool → ℕ → ℕ → ℕ
byte64 big v i = if big then v / 2 ^ (8 * (7 - i)) % 256 else v / 2 ^ (8 * i) % 256

module _ (io : Stdio) (big : Bool) where
  -- Four reads, in the order of the calls.
  abbrev get_4 : {A : Type 0} → ((a b c d : ℕ) → Cmd A) → Cmd A
  get_4 k = do a ← get_uint8 io; b ← get_uint8 io; c ← get_uint8 io; d ← get_uint8 io; k a b c d

  abbrev put_4 : (a b c d : ℕ) → Cmd (Unit {0})
  put_4 a b c d = do put_uint8 io a; put_uint8 io b; put_uint8 io c; put_uint8 io d

  unfoldable pub get_float32_be : Cmd ℕ
  get_float32_be = get_4 λ a b c d. pure (if big then real32 big a b c d else real32 big d c b a)

  unfoldable pub get_float32_le : Cmd ℕ
  get_float32_le = get_4 λ a b c d. pure (if big then real32 big d c b a else real32 big a b c d)

  unfoldable pub get_float64_be : Cmd ℕ
  get_float64_be = get_4 λ a b c d.
      get_4 λ e f g h. pure (if big then real64 big a b c d e f g h else real64 big h g f e d c b a)

  unfoldable pub get_float64_le : Cmd ℕ
  get_float64_le = get_4 λ a b c d.
      get_4 λ e f g h. pure (if big then real64 big h g f e d c b a else real64 big a b c d e f g h)

  unfoldable pub put_float32_be : ℕ → Cmd (Unit {0})
  put_float32_be v =
      let x = byte32 big v in
      if big then put_4 (x 0) (x 1) (x 2) (x 3) else put_4 (x 3) (x 2) (x 1) (x 0)

  unfoldable pub put_float32_le : ℕ → Cmd (Unit {0})
  put_float32_le v =
      let x = byte32 big v in
      if big then put_4 (x 3) (x 2) (x 1) (x 0) else put_4 (x 0) (x 1) (x 2) (x 3)

  unfoldable pub put_float64_be : ℕ → Cmd (Unit {0})
  put_float64_be v =
      let x = byte64 big v in
      if big
      then (do put_4 (x 0) (x 1) (x 2) (x 3); put_4 (x 4) (x 5) (x 6) (x 7))
      else (do put_4 (x 7) (x 6) (x 5) (x 4); put_4 (x 3) (x 2) (x 1) (x 0))

  unfoldable pub put_float64_le : ℕ → Cmd (Unit {0})
  put_float64_le v =
      let x = byte64 big v in
      if big
      then (do put_4 (x 7) (x 6) (x 5) (x 4); put_4 (x 3) (x 2) (x 1) (x 0))
      else (do put_4 (x 0) (x 1) (x 2) (x 3); put_4 (x 4) (x 5) (x 6) (x 7))
