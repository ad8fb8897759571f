-- ===== src/Prelude/Bits.antt =====
-- Exclusive or of numbers: a step on the lowest digit, and that it undoes itself.
use Prim.Native.Nat.{
  ℕ, zero, suc, ◌+◌, ◌*◌, ◌/◌, ◌%◌, ◌≤◌, ◌<◌, digits, differ, bit_xor, bit_xor-bitwise,
}
use mathlib.Core.Path.{◌≡◌, refl}
use native.Mathlib.Omega.{arith}

-- The count of digits to go is enough where the first number is no greater.
xor_digits :
    (n m a b : ℕ) → a ≤ n → a ≤ m → digits (λ b. b) differ n a b ≡ digits (λ b. b) differ m a b
xor_digits zero zero a b p q = refl
xor_digits zero (suc m) zero b p q = refl
xor_digits zero (suc m) (suc a) b p q = absurd (omega arith)
xor_digits (suc n) zero zero b p q = refl
xor_digits (suc n) zero (suc a) b p q = absurd (omega arith)
xor_digits (suc n) (suc m) zero b p q = refl
xor_digits (suc n) (suc m) (suc a) b p q =
    rw (xor_digits n m (suc a / 2) (b / 2) (omega arith) (omega arith)) refl

zero-bit_xor : (b : ℕ) → bit_xor 0 b ≡ b
zero-bit_xor b = bit_xor-bitwise 0 b

differ-zero : (d : ℕ) → differ zero d ≡ d
differ-zero d = refl

bit_xor_step : (a b : ℕ) → bit_xor a b ≡ bit_xor (a / 2) (b / 2) * 2 + differ (a % 2) (b % 2)
bit_xor_step zero b = omega (arith, zero-bit_xor b, zero-bit_xor (b / 2), differ-zero (b % 2))
bit_xor_step (suc a) b = omega (
  arith,
  bit_xor-bitwise (suc a) b,
  bit_xor-bitwise (suc a / 2) (b / 2),
  xor_digits a (suc a / 2) (suc a / 2) (b / 2) (omega arith) (omega arith),
)

differ_digits : (x y : ℕ) → x < 2 → y < 2 → (differ x y < 2) × (differ (differ x y) y ≡ x)
differ_digits zero zero p q = (omega arith, refl)
differ_digits zero (suc zero) p q = (omega arith, refl)
differ_digits (suc zero) zero p q = (omega arith, refl)
differ_digits (suc zero) (suc zero) p q = (omega arith, refl)
differ_digits (suc (suc x)) y p q = absurd (omega arith)
differ_digits x (suc (suc y)) p q = absurd (omega arith)

bit_xor_twice_fuel : (n a b : ℕ) → a ≤ n → b ≤ n → bit_xor (bit_xor a b) b ≡ a
bit_xor_twice_fuel zero zero zero p q = refl
bit_xor_twice_fuel zero (suc a) b p q = absurd (omega arith)
bit_xor_twice_fuel zero zero (suc b) p q = absurd (omega arith)
bit_xor_twice_fuel (suc n) a b p q =
    let d = differ_digits (a % 2) (b % 2) (omega arith) (omega arith) in
    let high : bit_xor a b / 2 ≡ bit_xor (a / 2) (b / 2) = omega (arith, bit_xor_step a b, d.0) in
    let low : bit_xor a b % 2 ≡ differ (a % 2) (b % 2) = omega (arith, bit_xor_step a b, d.0) in
    let step : bit_xor (bit_xor a b) b
        ≡ bit_xor (bit_xor (a / 2) (b / 2)) (b / 2) * 2 + differ (differ (a % 2) (b % 2)) (b % 2) =
      rw (high, low) at (bit_xor_step (bit_xor a b) b) in
    omega (arith, step, d.1, bit_xor_twice_fuel n (a / 2) (b / 2) (omega arith) (omega arith))

-- A key stream is taken off as it was put on.
pub bit_xor_twice : (a b : ℕ) → bit_xor (bit_xor a b) b ≡ a
bit_xor_twice a b = bit_xor_twice_fuel (a + b) a b (omega arith) (omega arith)
