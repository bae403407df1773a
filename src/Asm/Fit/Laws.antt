-- ===== src/Asm/Fit/Laws.antt =====
-- `fit_signed` and `fit_unsigned` of tools/assembler/assemble.py accept exactly the numbers that
-- their width can hold.
use risc_forge.Base.{ℕ, suc, ◌-◌, ◌*◌, ◌%◌, ◌^◌, ◌<◌, ◌≡◌, ◌∙◌, ◌↔◌, ap, arith}
use risc_forge.Base.Bits.{two_pow_pos}
use risc_forge.Base.Int.{ℤ, pos, negsuc, and_mask, mod_pow, and_mask-mod_pow}
use risc_forge.Emu.Word.{signed}
use risc_forge.Asm.Error.{ok}
use risc_forge.Asm.Fit.{fit_signed, fit_unsigned}
use native.Mathlib.Nat.{pow-suc, mod-eq_of_lt}

-- `m` is the pattern of `suc k` binary digits that stands for `v`.
abbrev pub IsPattern : ℕ → ℕ → ℤ → Type 0
IsPattern k m v = (m < 2 * 2 ^ k) × (signed k m ≡ v)

masked_pos : (k n : ℕ) → n < 2 ^ k → and_mask (pos n) (2 ^ suc k - 1) ≡ n
unfolding mod_pow
masked_pos k n h = and_mask-mod_pow (suc k) (pos n) ∙ mod-eq_of_lt (omega (arith, pow-suc 2 k))

masked_neg : (k n : ℕ) → n < 2 ^ k → and_mask (negsuc n) (2 ^ suc k - 1) ≡ 2 * 2 ^ k - 1 - n
unfolding mod_pow
masked_neg k n h =
    let low : n % 2 ^ suc k ≡ n = mod-eq_of_lt (omega (arith, pow-suc 2 k)) in
    and_mask-mod_pow (suc k) (negsuc n) ∙ omega (arith, low, pow-suc 2 k)

half_width : (k : ℕ) → 2 ^ (suc k - 1) ≡ 2 ^ k
half_width k = ap (λ (t : ℕ). 2 ^ t) (omega arith)

-- `fit_signed` returns `m` exactly when `m` is the two's complement pattern of `v` in so many bits;
-- for any other number it raises.
pub fit_signed_iff :
    (v : ℤ) (k lineno m : ℕ) → (fit_signed v (suc k) lineno ≡ ok m) ↔ IsPattern k m v
unfolding fit_signed
fit_signed_iff (pos n) k lineno m =
    rw (half_width k) (ground (arith, masked_pos k n, two_pow_pos k))
fit_signed_iff (negsuc n) k lineno m =
    rw (half_width k) (ground (arith, masked_neg k n, two_pow_pos k))

-- `fit_unsigned` returns its argument exactly when that is a number of so many bits.
pub fit_unsigned_iff :
    (v : ℤ) (bits lineno m : ℕ)
    → (fit_unsigned v bits lineno ≡ ok m) ↔ ((v ≡ pos m) × (m < 2 ^ bits))
unfolding fit_unsigned
fit_unsigned_iff (pos n) bits lineno m = ground arith
fit_unsigned_iff (negsuc n) bits lineno m = ground arith
