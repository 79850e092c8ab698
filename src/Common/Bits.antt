-- ===== src/Common/Bits.antt =====
-- When `|` and `^` of two numbers are zero.
use Prim.Native.Nat.{
  ℕ, zero, suc, ◌/◌, ◌%◌, ◌≤◌, max, bit_or, bit_xor, digits, differ, bit_or-bitwise,
  bit_xor-bitwise,
}
use mathlib.Core.Path.{◌≡◌}
use mathlib.Core.Logic.{◌↔◌}
use native.Mathlib.Omega.{arith}

differ_iff : (x y : ℕ) → (differ x y ≡ 0) ↔ (x ≡ y)
differ_iff zero y = ground arith
differ_iff (suc x) zero = ground arith
differ_iff (suc x) (suc y) = ground (arith, differ_iff x y)

xor_digits_iff : (n a b : ℕ) → a ≤ n → (digits (λ b. b) differ n a b ≡ 0) ↔ (a ≡ b)
xor_digits_iff zero zero b h = ground arith
xor_digits_iff zero (suc a) b h = absurd (omega arith)
xor_digits_iff (suc n) zero b h = ground arith
xor_digits_iff (suc n) (suc a) b h =
    ground (arith, xor_digits_iff n (suc a / 2) (b / 2), differ_iff (suc a % 2) (b % 2))

or_digits_iff : (n a b : ℕ) → a ≤ n → (digits (λ b. b) max n a b ≡ 0) ↔ ((a ≡ 0) × (b ≡ 0))
or_digits_iff zero zero b h = ground arith
or_digits_iff zero (suc a) b h = absurd (omega arith)
or_digits_iff (suc n) zero b h = ground arith
or_digits_iff (suc n) (suc a) b h = ground (arith, or_digits_iff n (suc a / 2) (b / 2))

pub bit_xor_zero_iff : (a b : ℕ) → (bit_xor a b ≡ 0) ↔ (a ≡ b)
bit_xor_zero_iff a b = rw (bit_xor-bitwise a b) (xor_digits_iff a a b (omega arith))

pub bit_or_zero_iff : (a b : ℕ) → (bit_or a b ≡ 0) ↔ ((a ≡ 0) × (b ≡ 0))
bit_or_zero_iff a b = rw (bit_or-bitwise a b) (or_digits_iff a a b (omega arith))
