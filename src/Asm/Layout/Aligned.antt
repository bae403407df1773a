-- ===== src/Asm/Layout/Aligned.antt =====
-- What `(n + boundary - 1) & ~(boundary - 1)` is: the next multiple of the boundary. Used by the
-- laws of `pass1` and of the size pass of tools/assembler/assemble.py.
use native.Mathlib.Nat.{add-mul-mod_self_right, mul_comm, mul-mod_right, pow-suc, mul_assoc}
use risc_forge.Base.{ℕ, zero, suc, ◌+◌, ◌-◌, ◌*◌, ◌/◌, ◌%◌, ◌^◌, ◌≤◌, ◌<◌, ◌≡◌, arith, ap, sym, ◌∙◌}
use risc_forge.Base.Bits.{bit_and_mask, two_pow_pos}
use risc_forge.Asm.Layout.Sections.{align_up}

align_up-rem : (k n : ℕ) → align_up n (2 ^ k) ≡ n + 2 ^ k - 1 - (n + 2 ^ k - 1) % 2 ^ k
unfolding align_up
align_up-rem k n = ap (λ (r : ℕ). n + 2 ^ k - 1 - r) (bit_and_mask k (n + 2 ^ k - 1))

eq-rem : (k x y : ℕ) → y ≡ x - x % 2 ^ k → y ≡ 2 ^ k * (x / 2 ^ k)
eq-rem k x y h = ground arith

pub align_up-ge : (k n : ℕ) → n ≤ align_up n (2 ^ k)
align_up-ge k n = ground (arith, align_up-rem k n, two_pow_pos k)

pub align_up-lt : (k n : ℕ) → align_up n (2 ^ k) < n + 2 ^ k
align_up-lt k n = ground (arith, align_up-rem k n, two_pow_pos k)

pub align_up-mod : (k n : ℕ) → align_up n (2 ^ k) % 2 ^ k ≡ 0
align_up-mod k n =
    let x = n + 2 ^ k - 1 in
    ground (
      arith,
      align_up-rem k n,
      mul-mod_right (2 ^ k) (x / 2 ^ k),
      ap (λ (t : ℕ). t % 2 ^ k) (eq-rem k x (align_up n (2 ^ k)) (align_up-rem k n)),
    )

pub align_up-multiple :
    (k q n : ℕ) → align_up (q * 2 ^ k + n) (2 ^ k) ≡ q * 2 ^ k + align_up n (2 ^ k)
align_up-multiple k q n = ground (
  arith,
  align_up-rem k n,
  align_up-rem k (q * 2 ^ k + n),
  two_pow_pos k,
  add-mul-mod_self_right (n + 2 ^ k - 1) q (2 ^ k),
)

two_pow-add : (n d : ℕ) → 2 ^ (n + d) ≡ 2 ^ d * 2 ^ n
two_pow-add n zero = ground arith
two_pow-add n (suc d) =
    let scaled : 2 ^ d * 2 * 2 ^ n ≡ 2 ^ d * 2 ^ n * 2 = grind (arith, mul_comm, mul_assoc) in
    let step : 2 ^ suc d * 2 ^ n ≡ 2 ^ d * 2 * 2 ^ n = ap (λ (t : ℕ). t * 2 ^ n) (pow-suc 2 d) in
    let sum : n + suc d ≡ suc (n + d) = omega arith in
    let outer : 2 ^ (n + suc d) ≡ 2 ^ (n + d) * 2 = ap (λ (t : ℕ). 2 ^ t) sum ∙ pow-suc 2 (n + d) in
    outer ∙ ap (λ (t : ℕ). t * 2) (two_pow-add n d) ∙ sym scaled ∙ sym step

-- A multiple of 2 ^ 12 is one of each smaller power.
pub power_divides :
    (n base : ℕ) → n ≤ 12 → base % 2 ^ 12 ≡ 0 → base ≡ base / 2 ^ 12 * 2 ^ (12 - n) * 2 ^ n
power_divides n base small h =
    let q = base / 2 ^ 12 in
    let sum : n + (12 - n) ≡ 12 = omega arith in
    let twelve : 2 ^ (n + (12 - n)) ≡ 2 ^ 12 = ap (λ (t : ℕ). 2 ^ t) sum in
    let joined : 2 ^ 12 ≡ 2 ^ (12 - n) * 2 ^ n = sym twelve ∙ two_pow-add n (12 - n) in
    let whole : base ≡ q * 2 ^ 12 = omega arith in
    whole ∙ ap (λ (t : ℕ). q * t) joined ∙ sym (mul_assoc q (2 ^ (12 - n)) (2 ^ n))
