-- ===== src/Bfile/Get/Values.antt =====
-- The number that a row of bytes stands for, and that the shifts and `|` of src/util/bfile.c make it.
use profit.Prelude.{
  ℕ, zero, suc, ◌+◌, ◌*◌, ◌/◌, ◌^◌, ◌<◌, ◌≡◌, List, [], ◌∷◌, arith, length, take, drop, bit_or,
}
use profit.Prelude.Bits.{bit_or-shl_left, bit_or-shl_right}
use profit.Bfile.Get.{int_of_int8, int_of_int16, shl_int, to_16}

abbrev pub big_endian : List ℕ → ℕ
big_endian [] = 0
big_endian (x ∷ xs) = x * 256 ^ length xs + big_endian xs

abbrev pub little_endian : List ℕ → ℕ
little_endian [] = 0
little_endian (x ∷ xs) = x + 256 * little_endian xs

abbrev pub IsBytes : List ℕ → Type 0
IsBytes [] = Unit
IsBytes (x ∷ xs) = (x < 256) × IsBytes xs

pub drop-IsBytes : (n : ℕ) (xs : List ℕ) → IsBytes xs → IsBytes (drop n xs)
drop-IsBytes zero xs h = h
drop-IsBytes (suc n) [] h = tt
drop-IsBytes (suc n) (x ∷ xs) h = drop-IsBytes n xs h.1

pub take-IsBytes : (n : ℕ) (xs : List ℕ) → IsBytes xs → IsBytes (take n xs)
take-IsBytes zero xs h = tt
take-IsBytes (suc n) [] h = tt
take-IsBytes (suc n) (x ∷ xs) h = (h.0, take-IsBytes n xs h.1)

-- `|` of a multiple of 2^k and a number below 2^k, in either order.
or-above : (k q x y : ℕ) → x ≡ q * 2 ^ k → y < 2 ^ k → bit_or x y ≡ x + y
or-above k q x y e h = rw e (bit_or-shl_left k q y h)

or-below : (k q x y : ℕ) → x ≡ q * 2 ^ k → y < 2 ^ k → bit_or y x ≡ x + y
or-below k q x y e h = rw e (bit_or-shl_right k q y h)

module _ (a b : ℕ) (ha : a < 256) (hb : b < 256) where
  pub uint16_be : to_16 (bit_or (to_16 (shl_int a 8)) b) ≡ big_endian (a ∷ b ∷ [])
  uint16_be = omega (arith, or-above 8 a (to_16 (shl_int a 8)) b (omega arith) hb)

  pub uint16_le : to_16 (bit_or a (shl_int b 8)) ≡ little_endian (a ∷ b ∷ [])
  uint16_le = omega (arith, or-below 8 b (shl_int b 8) a (omega arith) ha)

  pub int16_be :
      to_16 (bit_or (int_of_int16 (to_16 (shl_int (int_of_int8 a) 8))) b) ≡ big_endian (a ∷ b ∷ [])
  int16_be =
      let x : ℕ = int_of_int16 (to_16 (shl_int (int_of_int8 a) 8)) in
      ground (arith, or-above 8 (x / 256) x b (ground arith) hb)

  pub int16_le : to_16 (bit_or a (shl_int (int_of_int8 b) 8)) ≡ little_endian (a ∷ b ∷ [])
  int16_le =
      let x : ℕ = shl_int (int_of_int8 b) 8 in
      ground (arith, or-below 8 (x / 256) x a (ground arith) ha)

module _ (a b c d : ℕ) (ha : a < 256) (hb : b < 256) (hc : c < 256) (hd : d < 256) where
  pub uint32_be :
      bit_or (bit_or (bit_or (shl_int a 24) (shl_int b 16)) (shl_int c 8)) d
      ≡ big_endian (a ∷ b ∷ c ∷ d ∷ [])
  uint32_be =
      let x : ℕ = bit_or (shl_int a 24) (shl_int b 16) in
      let y : ℕ = bit_or x (shl_int c 8) in
      let ex : x ≡ a * 2 ^ 24 + b * 2 ^ 16 =
        omega (arith, or-above 24 a (shl_int a 24) (shl_int b 16) (omega arith) (omega arith)) in
      let ey : y ≡ a * 2 ^ 24 + b * 2 ^ 16 + c * 2 ^ 8 =
        omega (arith, or-above 16 (a * 256 + b) x (shl_int c 8) (omega arith) (omega arith)) in
      omega (arith, or-above 8 (a * 65536 + b * 256 + c) y d (omega arith) hd)

  pub uint32_le :
      bit_or (bit_or (bit_or a (shl_int b 8)) (shl_int c 16)) (shl_int d 24)
      ≡ little_endian (a ∷ b ∷ c ∷ d ∷ [])
  uint32_le =
      let x : ℕ = bit_or a (shl_int b 8) in
      let y : ℕ = bit_or x (shl_int c 16) in
      let ex : x ≡ b * 2 ^ 8 + a = omega (arith, or-below 8 b (shl_int b 8) a (omega arith) ha) in
      let ey : y ≡ c * 2 ^ 16 + b * 2 ^ 8 + a =
        omega (arith, or-below 16 c (shl_int c 16) x (omega arith) (omega arith)) in
      omega (arith, or-below 24 d (shl_int d 24) y (omega arith) (omega arith))

-- The top byte loses what the sign extension added.
pub shl_signed : (a : ℕ) → a < 256 → shl_int (int_of_int8 a) 24 ≡ shl_int a 24
shl_signed a h = ground arith
