-- ===== src/Base/Int.antt =====
-- Python's unbounded integers over the native numbers: sums, order, and the bit operations, which
-- Python defines on an infinite two's complement. `negsuc n` is -(n + 1), the complement of `n`.
use risc_forge.Base.{
  ℕ, suc, ◌+◌, ◌-◌, ◌/◌, ◌%◌, ◌^◌, ◌≤◌, ◌≡◌, Bool, arith, ltb, leb, if◌then◌else◌, bit_and, bit_or,
  bit_xor,
}
use risc_forge.Base.Bits.{bit_and_mask, bit_clear, bit_clear-mask}

pub data ℤ : Type 0 where
  pos : ℕ → ℤ
  negsuc : ℕ → ℤ

abbrev pub pos_part : ℤ → ℕ
pos_part (pos n) = n
pos_part (negsuc n) = 0

abbrev pub neg_part : ℤ → ℕ
neg_part (pos n) = 0
neg_part (negsuc n) = suc n

-- a - b, as an integer.
abbrev pub sub_ℕ : ℕ → ℕ → ℤ
sub_ℕ a b = if leb b a then pos (a - b) else negsuc (b - a - 1)

infixl 65 ◌+ℤ◌ ◌-ℤ◌
infix 50 ◌≤ℤ◌
unfoldable pub ◌+ℤ◌ : ℤ → ℤ → ℤ
a +ℤ b = sub_ℕ (pos_part a + pos_part b) (neg_part a + neg_part b)

unfoldable pub ◌-ℤ◌ : ℤ → ℤ → ℤ
a -ℤ b = sub_ℕ (pos_part a + neg_part b) (neg_part a + pos_part b)

abbrev pub ◌≤ℤ◌ : ℤ → ℤ → Type 0
a ≤ℤ b = pos_part a + neg_part b ≤ pos_part b + neg_part a

abbrev pub ltb_ℤ : ℤ → ℤ → Bool
ltb_ℤ a b = ltb (pos_part a + neg_part b) (pos_part b + neg_part a)

abbrev pub leb_ℤ : ℤ → ℤ → Bool
leb_ℤ a b = leb (pos_part a + neg_part b) (pos_part b + neg_part a)

-- Python's `x & m` for a mask `m` that is not negative, so that the result is not either.
unfoldable pub and_mask : ℤ → ℕ → ℕ
and_mask (pos n) m = bit_and n m
and_mask (negsuc n) m = bit_clear m n

-- Python's `x & ~m`.
unfoldable pub and_not : ℤ → ℕ → ℤ
and_not (pos n) m = pos (bit_clear n m)
and_not (negsuc n) m = negsuc (bit_or n m)

-- Python's `a & x`, `a | x`, `a ^ x` and `x >> k`; the last rounds down.
unfoldable pub and_ℤ : ℕ → ℤ → ℤ
and_ℤ a (pos n) = pos (bit_and a n)
and_ℤ a (negsuc n) = pos (bit_clear a n)

unfoldable pub or_ℤ : ℕ → ℤ → ℤ
or_ℤ a (pos n) = pos (bit_or a n)
or_ℤ a (negsuc n) = negsuc (bit_clear n a)

unfoldable pub xor_ℤ : ℕ → ℤ → ℤ
xor_ℤ a (pos n) = pos (bit_xor a n)
xor_ℤ a (negsuc n) = negsuc (bit_xor a n)

unfoldable pub shr_ℤ : ℤ → ℕ → ℤ
shr_ℤ (pos n) k = pos (n / 2 ^ k)
shr_ℤ (negsuc n) k = negsuc (n / 2 ^ k)

-- The remainder by `2 ^ k` that Python's `%` gives, which is never negative.
unfoldable pub mod_pow : ℕ → ℤ → ℕ
mod_pow k (pos n) = n % 2 ^ k
mod_pow k (negsuc n) = 2 ^ k - 1 - n % 2 ^ k

pub and_mask-mod_pow : (k : ℕ) (x : ℤ) → and_mask x (2 ^ k - 1) ≡ mod_pow k x
unfolding and_mask mod_pow
and_mask-mod_pow k (pos n) = bit_and_mask k n
and_mask-mod_pow k (negsuc n) = bit_clear-mask k n

-- One lemma for each operation lets `omega` work with the operations shut.
pub +ℤ_parts :
    (a b : ℤ)
    → pos_part (a +ℤ b) + neg_part a + neg_part b ≡ neg_part (a +ℤ b) + pos_part a + pos_part b
unfolding ◌+ℤ◌
+ℤ_parts a b = ground arith

pub -ℤ_parts :
    (a b : ℤ)
    → pos_part (a -ℤ b) + neg_part a + pos_part b ≡ neg_part (a -ℤ b) + pos_part a + neg_part b
unfolding ◌-ℤ◌
-ℤ_parts a b = ground arith

pub eq_of_parts : (a b : ℤ) → pos_part a + neg_part b ≡ pos_part b + neg_part a → a ≡ b
eq_of_parts a b h = ground arith

pub ruleset int_laws = (arith, +ℤ_parts, -ℤ_parts, eq_of_parts)
