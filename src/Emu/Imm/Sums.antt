-- ===== src/Emu/Imm/Sums.antt =====
-- The immediates of tools/refmodel/rv32i_emu.py as sums of bit fields.
use risc_forge.Base.{ℕ, suc, ◌+◌, ◌*◌, ◌/◌, ◌%◌, ◌^◌, ◌<◌, ◌≡◌, ◌∙◌, ap, arith}
use risc_forge.Base.Bits.{bit_and_mask, bit_and_shift}
use risc_forge.Base.Fields.{or_add, or_insert, field}
use native.Mathlib.Nat.{mod-eq_of_lt}
use risc_forge.Base.Int.{pos, mod_pow, and_mask-mod_pow}
use risc_forge.Emu.Word.{sext, signed, sext-signed}
use risc_forge.Emu.Imm.{imm_i, imm_s, imm_b, imm_u, imm_j}

-- Sign extension of a number of `suc k` digits.
sext_of : (k raw sum : ℕ) → raw ≡ sum → sum < 2 ^ suc k → sext (pos raw) (suc k) ≡ signed k sum
unfolding mod_pow
sext_of k raw sum e h =
    sext-signed k (pos raw)
    ∙ ap (signed k)
        (and_mask-mod_pow (suc k) (pos raw) ∙ (ap (λ (t : ℕ). t % 2 ^ suc k) e ∙ mod-eq_of_lt h))

pub imm_i-sum : (inst : ℕ) → imm_i inst ≡ signed 11 (inst / 2 ^ 20 % 2 ^ 12)
unfolding imm_i
imm_i-sum inst = sext_of 11 _ _ (bit_and_mask 12 (inst / 2 ^ 20)) (omega arith)

pub imm_s-sum :
    (inst : ℕ) → imm_s inst ≡ signed 11 (inst / 2 ^ 25 % 2 ^ 7 * 2 ^ 5 + inst / 2 ^ 7 % 2 ^ 5)
unfolding imm_s
imm_s-sum inst =
    sext_of 11 _ _
      (or_add 5 _ _ _ _ (field 5 7 (inst / 2 ^ 25)) (bit_and_mask 5 (inst / 2 ^ 7)) (omega arith)
        (omega arith))
      (omega arith)

pub imm_u-sum : (inst : ℕ) → imm_u inst ≡ inst / 2 ^ 12 % 2 ^ 20 * 2 ^ 12
unfolding imm_u
imm_u-sum inst =
    bit_and_shift 12 inst 0xfffff ∙ ap (λ (t : ℕ). t * 2 ^ 12) (bit_and_mask 20 (inst / 2 ^ 12))

-- The pieces of a branch offset and of a jump offset are joined with bit 11, and with bits 12 to
-- 19, last.
pub imm_b-sum :
    (inst : ℕ)
    → imm_b inst
      ≡ signed 12 (
          inst / 2 ^ 31 % 2 * 2 ^ 12
          + inst / 2 ^ 25 % 2 ^ 6 * 2 ^ 5
          + inst / 2 ^ 8 % 2 ^ 4 * 2
          + inst / 2 ^ 7 % 2 * 2 ^ 11)
unfolding imm_b
imm_b-sum inst =
    let s1 =
      or_add 12 _ _ _ _ (field 12 1 (inst / 2 ^ 31)) (field 5 6 (inst / 2 ^ 25)) (omega arith)
        (omega arith) in
    let s2 = or_add 5 _ _ _ _ s1 (field 1 4 (inst / 2 ^ 8)) (omega arith) (omega arith) in
    let s3 =
      or_insert 11 1 _ _ _ (inst / 2 ^ 7 % 2) s2 (field 11 1 (inst / 2 ^ 7)) (omega arith)
        (omega arith) in
    sext_of 12 _ _ s3 (omega arith)

pub imm_j-sum :
    (inst : ℕ)
    → imm_j inst
      ≡ signed 20 (
          inst / 2 ^ 31 % 2 * 2 ^ 20
          + inst / 2 ^ 21 % 2 ^ 10 * 2
          + inst / 2 ^ 20 % 2 * 2 ^ 11
          + inst / 2 ^ 12 % 2 ^ 8 * 2 ^ 12)
unfolding imm_j
imm_j-sum inst =
    let s1 =
      or_add 20 _ _ _ _ (field 20 1 (inst / 2 ^ 31)) (field 1 10 (inst / 2 ^ 21)) (omega arith)
        (omega arith) in
    let s2 =
      or_insert 11 9 _ _ _ (inst / 2 ^ 20 % 2) s1 (field 11 1 (inst / 2 ^ 20)) (omega arith)
        (omega arith) in
    let s3 =
      or_insert 12 8 _ _ _ (inst / 2 ^ 12 % 2 ^ 8) s2 (field 12 8 (inst / 2 ^ 12)) (omega arith)
        (omega arith) in
    sext_of 20 _ _ s3 (omega arith)
