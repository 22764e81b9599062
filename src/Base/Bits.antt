-- ===== src/Base/Bits.antt =====
-- Masks and shifted fields of machine words, as arithmetic.
use Prim.Native.Nat.{
  ℕ, zero, suc, ◌+◌, ◌*◌, ◌/◌, ◌%◌, ◌≤◌, ◌<◌, min, max, bit_and, bit_or, digits, bit_and-bitwise,
  bit_or-bitwise,
}
use mathlib.Core.Path.{◌≡◌, refl}
use native.Mathlib.Omega.{arith}

-- The count of digits to go does not matter where there are no more than that.
both_digits :
    (n m a b : ℕ) → a ≤ n → a ≤ m → digits (λ b. zero) min n a b ≡ digits (λ b. zero) min m a b
both_digits zero zero a b p q = refl
both_digits zero (suc m) zero b p q = refl
both_digits (suc n) zero zero b p q = refl
both_digits (suc n) (suc m) zero b p q = refl
both_digits zero (suc m) (suc a) b p q = absurd (omega arith)
both_digits (suc n) zero (suc a) b p q = absurd (omega arith)
both_digits (suc n) (suc m) (suc a) b p q =
    omega (arith, both_digits n m (suc a / 2) (b / 2) (omega arith) (omega arith))

either_digits :
    (n m a b : ℕ) → a ≤ n → a ≤ m → digits (λ b. b) max n a b ≡ digits (λ b. b) max m a b
either_digits zero zero a b p q = refl
either_digits zero (suc m) zero b p q = refl
either_digits (suc n) zero zero b p q = refl
either_digits (suc n) (suc m) zero b p q = refl
either_digits zero (suc m) (suc a) b p q = absurd (omega arith)
either_digits (suc n) zero (suc a) b p q = absurd (omega arith)
either_digits (suc n) (suc m) (suc a) b p q =
    omega (arith, either_digits n m (suc a / 2) (b / 2) (omega arith) (omega arith))

halve_and : (a b : ℕ) → bit_and a b ≡ bit_and (a / 2) (b / 2) * 2 + min (a % 2) (b % 2)
halve_and zero b = omega (arith, bit_and-bitwise 0 b, bit_and-bitwise 0 (b / 2))
halve_and (suc a) b = omega (
  arith,
  bit_and-bitwise (suc a) b,
  bit_and-bitwise (suc a / 2) (b / 2),
  both_digits a (suc a / 2) (suc a / 2) (b / 2) (omega arith) (omega arith),
)

halve_or : (a b : ℕ) → bit_or a b ≡ bit_or (a / 2) (b / 2) * 2 + max (a % 2) (b % 2)
halve_or zero b = omega (arith, bit_or-bitwise 0 b, bit_or-bitwise 0 (b / 2))
halve_or (suc a) b = omega (
  arith,
  bit_or-bitwise (suc a) b,
  bit_or-bitwise (suc a / 2) (b / 2),
  either_digits a (suc a / 2) (suc a / 2) (b / 2) (omega arith) (omega arith),
)

-- Powers of two, by doubling.
abbrev pub power : ℕ → ℕ
power zero = 1
power (suc k) = power k * 2

or_zero : (a : ℕ) (n : ℕ) → a ≤ n → bit_or a 0 ≡ a
or_zero zero n h = bit_or-bitwise 0 0
or_zero (suc a) zero h = absurd (omega arith)
or_zero (suc a) (suc n) h = omega (arith, halve_or (suc a) 0, or_zero (suc a / 2) n (omega arith))

and_zero : (a : ℕ) (n : ℕ) → a ≤ n → bit_and a 0 ≡ 0
and_zero zero n h = bit_and-bitwise 0 0
and_zero (suc a) zero h = absurd (omega arith)
and_zero (suc a) (suc n) h =
    omega (arith, halve_and (suc a) 0, and_zero (suc a / 2) n (omega arith))

-- A field above another one.
pub shifted_or : (k a b x : ℕ) → x ≡ a * power k → b < power k → bit_or x b ≡ x + b
shifted_or zero a zero x e h = omega (arith, or_zero x x (omega arith))
shifted_or zero a (suc b) x e h = absurd (omega arith)
shifted_or (suc k) a b x e h =
    omega (arith, halve_or x b, shifted_or k a (b / 2) (x / 2) (omega arith) (omega arith))

-- A mask of the upper field.
pub masked_high :
    (k a b m x y : ℕ)
    → x ≡ a * power k + b
    → y ≡ m * power k
    → b < power k
    → bit_and x y ≡ bit_and a m * power k
masked_high zero a b m x y e f h =
    let p : x ≡ a = omega arith in let q : y ≡ m = omega arith in ground (arith, p, q)
masked_high (suc k) a b m x y e f h = omega (
  arith,
  halve_and x y,
  masked_high k a (b / 2) m (x / 2) (y / 2) (omega arith) (omega arith) (omega arith),
)

-- A mask of the lower field.
pub masked_low :
    (k a b x y : ℕ) → x ≡ a * power k + b → y + 1 ≡ power k → b < power k → bit_and x y ≡ b
masked_low zero a b x zero e f h = omega (arith, and_zero x x (omega arith))
masked_low zero a b x (suc y) e f h = absurd (omega arith)
masked_low (suc k) a b x y e f h = omega (
  arith,
  halve_and x y,
  masked_low k a (b / 2) (x / 2) (y / 2) (omega arith) (omega arith) (omega arith),
)
