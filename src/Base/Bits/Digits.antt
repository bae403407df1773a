-- ===== src/Base/Bits/Digits.antt =====
-- The native bit operations, by their lowest digit.
use Prim.Native.Nat.{ℕ, zero, suc, ◌+◌, ◌*◌, ◌/◌, ◌%◌, ◌≤◌, ◌<◌, min, max, differ, digits}
use Prim.Native.Nat.{bit_and, bit_or, bit_xor, bit_and-bitwise, bit_or-bitwise, bit_xor-bitwise}
use mathlib.Core.Path.{◌≡◌, refl, ap}
use native.Mathlib.Omega.{arith}

-- Any count of digits that reaches the end of `a` gives the same result.
module _ (z : ℕ → ℕ) (f : ℕ → ℕ → ℕ) where
  digits_any : (a b k l : ℕ) → a ≤ k → a ≤ l → digits z f k a b ≡ digits z f l a b
  digits_any zero b zero zero h j = refl
  digits_any zero b (suc k) zero h j = refl
  digits_any zero b zero (suc l) h j = refl
  digits_any zero b (suc k) (suc l) h j = refl
  digits_any (suc a) b zero l h j = absurd (omega arith)
  digits_any (suc a) b (suc k) zero h j = absurd (omega arith)
  digits_any (suc a) b (suc k) (suc l) h j =
      let rest = digits_any (suc a / 2) (b / 2) k l (omega arith) (omega arith) in
      ap (λ (t : ℕ). t * 2 + f (suc a % 2) (b % 2)) rest

  pub digits_low :
      (a b : ℕ) → digits z f a (suc a / 2) (b / 2) ≡ digits z f (suc a / 2) (suc a / 2) (b / 2)
  digits_low a b = digits_any (suc a / 2) (b / 2) a (suc a / 2) (omega arith) (omega arith)

pub bit_and_low : (a b : ℕ) → bit_and a b ≡ bit_and (a / 2) (b / 2) * 2 + min (a % 2) (b % 2)
bit_and_low zero b = simp bit_and-bitwise (omega arith)
bit_and_low (suc a) b = simp bit_and-bitwise (omega (arith, digits_low (λ c. 0) min a b))

pub bit_or_low : (a b : ℕ) → bit_or a b ≡ bit_or (a / 2) (b / 2) * 2 + max (a % 2) (b % 2)
bit_or_low zero b = simp bit_or-bitwise (omega arith)
bit_or_low (suc a) b = simp bit_or-bitwise (omega (arith, digits_low (λ c. c) max a b))

differ_bits : (x y : ℕ) → x < 2 → y < 2 → differ x y ≡ (x + y) % 2
differ_bits zero y h j = omega arith
differ_bits (suc zero) zero h j = refl
differ_bits (suc zero) (suc zero) h j = refl
differ_bits (suc zero) (suc (suc y)) h j = absurd (omega arith)
differ_bits (suc (suc x)) y h j = absurd (omega arith)

pub bit_xor_low : (a b : ℕ) → bit_xor a b ≡ bit_xor (a / 2) (b / 2) * 2 + (a % 2 + b % 2) % 2
bit_xor_low zero b = simp bit_xor-bitwise (omega arith)
bit_xor_low (suc a) b = simp bit_xor-bitwise (
    omega (
      arith,
      digits_low (λ c. c) differ a b,
      differ_bits (suc a % 2) (b % 2) (omega arith) (omega arith),
    ))
