-- ===== src/Prelude/Bits.antt =====
-- Shifts, and `|` of two values that share no bit, as arithmetic.
use Prim.Native.Nat.{
  ℕ, zero, suc, ◌+◌, ◌*◌, ◌/◌, ◌%◌, ◌^◌, ◌≤◌, ◌<◌, max, bit_or, digits, bit_or-bitwise,
}
use mathlib.Core.Path.{◌≡◌, refl, ap}
use native.Mathlib.Nat.{pow-suc}
use native.Mathlib.Omega.{arith}

-- `x << k` before the result is cut to its type's width.
abbrev pub shl : ℕ → ℕ → ℕ
shl x k = x * 2 ^ k

-- `x >> k`
abbrev pub shr : ℕ → ℕ → ℕ
shr x k = x / 2 ^ k

-- The recursion that `bit_or` stands for, with its fuel.
abbrev or_with : ℕ → ℕ → ℕ → ℕ
or_with = digits (λ b. b) max

or_with-more : (n m a b : ℕ) → a ≤ n → n ≤ m → or_with n a b ≡ or_with m a b
or_with-more zero zero a b p q = refl
or_with-more zero (suc m) zero b p q = refl
or_with-more zero (suc m) (suc a) b p q = absurd (omega arith)
or_with-more (suc n) zero a b p q = absurd (omega arith)
or_with-more (suc n) (suc m) zero b p q = refl
or_with-more (suc n) (suc m) (suc a) b p q =
    omega (arith, or_with-more n m (suc a / 2) (b / 2) (omega arith) (omega arith))

zero-bit_or : (b : ℕ) → bit_or 0 b ≡ b
zero-bit_or b = bit_or-bitwise 0 b

bit_or-halve : (a b : ℕ) → bit_or a b ≡ bit_or (a / 2) (b / 2) * 2 + max (a % 2) (b % 2)
bit_or-halve zero b = omega (arith, zero-bit_or b, zero-bit_or (b / 2))
bit_or-halve (suc a) b = omega (
  arith,
  bit_or-bitwise (suc a) b,
  bit_or-bitwise (suc a / 2) (b / 2),
  or_with-more (suc a / 2) a (suc a / 2) (b / 2) (omega arith) (omega arith),
)

shl-suc : (x k : ℕ) → x * 2 ^ suc k ≡ 2 * (x * 2 ^ k)
shl-suc x k = omega (arith, ap (λ (t : ℕ). x * t) (pow-suc 2 k))

bit_or-zero_bounded : (n a : ℕ) → a ≤ n → bit_or a 0 ≡ a
bit_or-zero_bounded n zero h = refl
bit_or-zero_bounded zero (suc a) h = absurd (omega arith)
bit_or-zero_bounded (suc n) (suc a) h =
    omega (arith, bit_or-halve (suc a) 0, bit_or-zero_bounded n (suc a / 2) (omega arith))

pub bit_or-zero : (a : ℕ) → bit_or a 0 ≡ a
bit_or-zero a = bit_or-zero_bounded a a (omega arith)

pub bit_or-shl_left : (k x y : ℕ) → y < 2 ^ k → bit_or (shl x k) y ≡ x * 2 ^ k + y
bit_or-shl_left zero x y h = ground (arith, bit_or-zero (x * 1))
bit_or-shl_left (suc k) x y h = ground (
  arith,
  bit_or-halve (x * 2 ^ suc k) y,
  shl-suc x k,
  pow-suc 2 k,
  bit_or-shl_left k x (y / 2) (omega (arith, pow-suc 2 k)),
)

pub bit_or-shl_right : (k x y : ℕ) → y < 2 ^ k → bit_or y (shl x k) ≡ x * 2 ^ k + y
bit_or-shl_right zero x y h = ground (arith, zero-bit_or (x * 1))
bit_or-shl_right (suc k) x y h = ground (
  arith,
  bit_or-halve y (x * 2 ^ suc k),
  shl-suc x k,
  pow-suc 2 k,
  bit_or-shl_right k x (y / 2) (omega (arith, pow-suc 2 k)),
)
