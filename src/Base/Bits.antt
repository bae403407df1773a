-- ===== src/Base/Bits.antt =====
-- Shifts, and the meaning of `&`, `|` and `^` on bit fields as arithmetic, at every width.
mod Digits
use Digits.{bit_and_low, bit_or_low, bit_xor_low}
use native.Mathlib.Nat.{pow-suc, one-le-pow, div-div-eq-div-mul, mul_comm}
use native.Mathlib.Nat.{mod-lt, mod-eq_of_lt, div-add-mod, add-mul-mod_self_left, mul-one, div-one}
use mathlib.Core.Path.{◌≡◌, refl, ap, ◌∙◌}
use Prim.Native.Nat.{
  ℕ, zero, suc, ◌+◌, ◌-◌, ◌*◌, ◌/◌, ◌%◌, ◌^◌, ◌≤◌, ◌<◌, bit_and, bit_or, bit_xor, bit_and-bitwise,
  bit_xor-bitwise,
}
use native.Mathlib.Omega.{arith}

infixl 75 ◌<<<◌ ◌>>>◌
abbrev pub ◌<<<◌ : ℕ → ℕ → ℕ
x <<< k = x * 2 ^ k

abbrev pub ◌>>>◌ : ℕ → ℕ → ℕ
x >>> k = x / 2 ^ k

bit_and-zero_below : (n a : ℕ) → a ≤ n → bit_and a 0 ≡ 0
bit_and-zero_below n zero h = refl
bit_and-zero_below zero (suc a) h = absurd (omega arith)
bit_and-zero_below (suc n) (suc a) h =
    omega (arith, bit_and_low (suc a) 0, bit_and-zero_below n (suc a / 2) (omega arith))

bit_or-zero_below : (n a : ℕ) → a ≤ n → bit_or a 0 ≡ a
bit_or-zero_below n zero h = refl
bit_or-zero_below zero (suc a) h = absurd (omega arith)
bit_or-zero_below (suc n) (suc a) h =
    omega (arith, bit_or_low (suc a) 0, bit_or-zero_below n (suc a / 2) (omega arith))

bit_xor-zero_below : (n a : ℕ) → a ≤ n → bit_xor a 0 ≡ a
bit_xor-zero_below n zero h = refl
bit_xor-zero_below zero (suc a) h = absurd (omega arith)
bit_xor-zero_below (suc n) (suc a) h =
    ground (arith, bit_xor_low (suc a) 0, bit_xor-zero_below n (suc a / 2) (omega arith))

pub bit_and-zero : (a : ℕ) → bit_and a 0 ≡ 0
bit_and-zero a = bit_and-zero_below a a (omega arith)

pub bit_or-zero : (a : ℕ) → bit_or a 0 ≡ a
bit_or-zero a = bit_or-zero_below a a (omega arith)

pub bit_xor-zero : (a : ℕ) → bit_xor a 0 ≡ a
bit_xor-zero a = bit_xor-zero_below a a (omega arith)

shift_one : (q k : ℕ) → q * 2 ^ suc k ≡ 2 * (q * 2 ^ k)
shift_one q k = omega (arith, ap (λ (t : ℕ). q * t) (pow-suc 2 k))

two_pos : 1 ≤ 2
two_pos = omega arith

pub two_pow_pos : (k : ℕ) → 1 ≤ 2 ^ k
two_pow_pos k = one-le-pow k 2 two_pos

-- A field joined above a lower one is a sum.
pub bit_or_join : (k q r : ℕ) → r < 2 ^ k → bit_or (q * 2 ^ k) r ≡ q * 2 ^ k + r
bit_or_join zero q r h = ground (arith, bit_or-zero q)
bit_or_join (suc k) q r h = ground (
  arith,
  bit_or_low (q * 2 ^ suc k) r,
  shift_one q k,
  pow-suc 2 k,
  bit_or_join k q (r / 2) (omega (arith, pow-suc 2 k)),
)

bit_and_mask_join : (k q r : ℕ) → r < 2 ^ k → bit_and (q * 2 ^ k + r) (2 ^ k - 1) ≡ r
bit_and_mask_join zero q r h = rw bit_and-zero (omega arith)
bit_and_mask_join (suc k) q r h = ground (
  arith,
  bit_and_low (q * 2 ^ suc k + r) (2 ^ suc k - 1),
  shift_one q k,
  pow-suc 2 k,
  two_pow_pos k,
  bit_and_mask_join k q (r / 2) (omega (arith, pow-suc 2 k)),
)

-- `a & (2 ^ k - 1)` is the remainder.
pub bit_and_mask : (k a : ℕ) → bit_and a (2 ^ k - 1) ≡ a % 2 ^ k
bit_and_mask k a = ground (arith, two_pow_pos k, bit_and_mask_join k (a / 2 ^ k) (a % 2 ^ k))

bit_and_double : (a p : ℕ) → bit_and a (p * 2) ≡ bit_and (a / 2) p * 2
bit_and_double a p =
    let half : p * 2 / 2 ≡ p = omega arith in
    omega (arith, bit_and_low a (p * 2), ap (λ (t : ℕ). bit_and (a / 2) t) half)

bit_xor_double : (a p : ℕ) → bit_xor a (p * 2) ≡ bit_xor (a / 2) p * 2 + a % 2
bit_xor_double a p =
    let half : p * 2 / 2 ≡ p = omega arith in
    omega (arith, bit_xor_low a (p * 2), ap (λ (t : ℕ). bit_xor (a / 2) t) half)

half_div : (k a : ℕ) → a / 2 / 2 ^ k ≡ a / 2 ^ suc k
half_div k a = rw (div-div-eq-div-mul, mul_comm 2 (2 ^ k), ← pow-suc 2 k)

-- A mask whose low digits are clear keeps the digits above them.
pub bit_and_shift : (k a m : ℕ) → bit_and a (m * 2 ^ k) ≡ bit_and (a / 2 ^ k) m * 2 ^ k
bit_and_shift zero a m = simp (mul-one, div-one)
bit_and_shift (suc k) a m =
    let twice : m * 2 ^ suc k ≡ m * 2 ^ k * 2 = omega (arith, shift_one m k) in
    rw (twice, bit_and_double a (m * 2 ^ k), bit_and_shift k (a / 2) m, half_div k a)
      (omega (arith, shift_one (bit_and (a / 2 ^ suc k) m) k))

bit_or_double : (a q : ℕ) → bit_or a (q * 2) ≡ bit_or (a / 2) q * 2 + a % 2
bit_or_double a q =
    let half : q * 2 / 2 ≡ q = omega arith in
    omega (arith, bit_or_low a (q * 2), ap (λ (t : ℕ). bit_or (a / 2) t) half)

-- A field joined in above the `k` low digits.
pub bit_or_above :
    (k q r b : ℕ) → r < 2 ^ k → bit_or (q * 2 ^ k + r) (b * 2 ^ k) ≡ bit_or q b * 2 ^ k + r
bit_or_above zero q r b h =
    let left : q * 2 ^ 0 + r ≡ q = omega arith in
    let right : b * 2 ^ 0 ≡ b = omega arith in
    omega (arith, ap (λ (t : ℕ). bit_or t (b * 2 ^ 0)) left, ap (λ (t : ℕ). bit_or q t) right)
bit_or_above (suc k) q r b h =
    let twice : b * 2 ^ suc k ≡ b * 2 ^ k * 2 = omega (arith, shift_one b k) in
    let half : (q * 2 ^ suc k + r) / 2 ≡ q * 2 ^ k + r / 2 = omega (arith, shift_one q k) in
    rw (twice, bit_or_double (q * 2 ^ suc k + r) (b * 2 ^ k), half)
      (omega (
        arith,
        shift_one q k,
        shift_one (bit_or q b) k,
        bit_or_above k q (r / 2) b (omega (arith, pow-suc 2 k)),
      ))

-- `a & 2 ^ k` is the digit at `k`, in its place.
pub bit_and_pow : (k a : ℕ) → bit_and a (2 ^ k) ≡ a / 2 ^ k % 2 * 2 ^ k
bit_and_pow zero a = omega (arith, bit_and_low a 1, bit_and-zero (a / 2))
bit_and_pow (suc k) a =
    rw (pow-suc 2 k, bit_and_double a (2 ^ k), bit_and_pow k (a / 2), half_div k a, pow-suc 2 k)
      (omega arith)

-- Flipping the top digit of a `k + 1` digit number sets it where it is clear,
pub bit_xor_top_clear : (k v : ℕ) → v < 2 ^ k → bit_xor v (2 ^ k) ≡ v + 2 ^ k
bit_xor_top_clear zero v h = omega (arith, bit_xor_low v 1, bit_xor-zero (v / 2))
bit_xor_top_clear (suc k) v h = rw (pow-suc 2 k) (
    omega (
      arith,
      pow-suc 2 k,
      bit_xor_double v (2 ^ k),
      bit_xor_top_clear k (v / 2) (omega (arith, pow-suc 2 k)),
    ))

-- and clears it where it is set.
pub bit_xor_top_set : (k v : ℕ) → 2 ^ k ≤ v → v < 2 * 2 ^ k → bit_xor v (2 ^ k) + 2 ^ k ≡ v
bit_xor_top_set zero v h j = omega (arith, bit_xor_low v 1, bit_xor-zero (v / 2))
bit_xor_top_set (suc k) v h j = rw (pow-suc 2 k) (
    omega (
      arith,
      pow-suc 2 k,
      bit_xor_double v (2 ^ k),
      bit_xor_top_set k (v / 2) (omega (arith, pow-suc 2 k)) (omega (arith, pow-suc 2 k)),
    ))

-- The digits of `a` that `b` does not have: `a & ~b`.
unfoldable pub bit_clear : ℕ → ℕ → ℕ
bit_clear a b = bit_xor a (bit_and a b)

bit_clear_low : (a b : ℕ) → bit_clear a b ≡ bit_clear (a / 2) (b / 2) * 2 + (a % 2 - b % 2)
unfolding bit_clear
bit_clear_low a b =
    let inner : bit_and a b / 2 ≡ bit_and (a / 2) (b / 2) = omega (arith, bit_and_low a b) in
    ground
      (arith, bit_xor_low a (bit_and a b), bit_and_low a b, ap (λ (t : ℕ). bit_xor (a / 2) t) inner)

mod_double : (n p : ℕ) → 1 ≤ p → n % (p * 2) ≡ n / 2 % p * 2 + n % 2
mod_double n p h =
    let low : n / 2 % p < p = mod-lt (n / 2) h in
    let rest = n / 2 % p * 2 + n % 2 in
    let split : n ≡ rest + p * 2 * (n / 2 / p) = omega (arith, div-add-mod (n / 2) p) in
    let fits : rest < p * 2 = omega arith in
    ap (λ (t : ℕ). t % (p * 2)) split
    ∙ (add-mul-mod_self_left rest (p * 2) (n / 2 / p) ∙ mod-eq_of_lt fits)

zero-bit_clear : (n : ℕ) → bit_clear 0 n ≡ 0
unfolding bit_clear
zero-bit_clear n = bit_xor-bitwise 0 (bit_and 0 n) ∙ bit_and-bitwise 0 n

-- `(2 ^ k - 1) & ~n` complements the `k` low digits of `n`.
pub bit_clear-mask : (k n : ℕ) → bit_clear (2 ^ k - 1) n ≡ 2 ^ k - 1 - n % 2 ^ k
bit_clear-mask zero n = omega (arith, zero-bit_clear n)
bit_clear-mask (suc k) n =
    let half : (2 ^ suc k - 1) / 2 ≡ 2 ^ k - 1 = omega (arith, pow-suc 2 k) in
    omega (
      arith,
      pow-suc 2 k,
      two_pow_pos k,
      bit_clear_low (2 ^ suc k - 1) n,
      ap (λ (t : ℕ). bit_clear t (n / 2)) half,
      bit_clear-mask k (n / 2),
      ap (λ (t : ℕ). n % t) (pow-suc 2 k),
      mod_double n (2 ^ k) (two_pow_pos k),
    )

bit_clear-zero : (n : ℕ) → bit_clear n 0 ≡ n
unfolding bit_clear
bit_clear-zero n = rw (bit_and-zero n, bit_xor-zero n)

-- `n & ~1` and `n & ~3` round down.
pub bit_clear-one : (n : ℕ) → bit_clear n 1 ≡ n / 2 * 2
bit_clear-one n = omega (arith, bit_clear_low n 1, bit_clear-zero (n / 2))

pub bit_clear-three : (n : ℕ) → bit_clear n 3 ≡ n / 4 * 4
bit_clear-three n = omega (arith, bit_clear_low n 3, bit_clear-one (n / 2))

-- `n | 1` sets the lowest digit.
pub bit_or-one : (n : ℕ) → bit_or n 1 ≡ n / 2 * 2 + 1
bit_or-one n = omega (arith, bit_or_low n 1, bit_or-zero (n / 2))
