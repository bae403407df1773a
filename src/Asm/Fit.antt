-- ===== src/Asm/Fit.antt =====
-- The range checks `fit_signed` and `fit_unsigned` of tools/assembler/assemble.py.
pub mod Laws
use risc_forge.Base.{ℕ, suc, ◌-◌, ◌*◌, ◌^◌, ◌<◌, ◌≡◌, ◌&&◌, if◌then◌else◌, arith}
use risc_forge.Base.Int.{ℤ, pos, pos_part, ◌-ℤ◌, leb_ℤ, ltb_ℤ, and_mask}
use risc_forge.Asm.Error.{Result, ok, fail, asm_error}

unfoldable pub fit_signed : ℤ → ℕ → ℕ → Result ℕ
unfolding ◌-ℤ◌
fit_signed v bits lineno =
    let lo = pos 0 -ℤ pos (2 ^ (bits - 1)) in
    let hi = pos (2 ^ (bits - 1)) -ℤ pos 1 in
    if leb_ℤ lo v && leb_ℤ v hi then ok (and_mask v (2 ^ bits - 1)) else fail (asm_error lineno)

unfoldable pub fit_unsigned : ℤ → ℕ → ℕ → Result ℕ
fit_unsigned v bits lineno =
    if leb_ℤ (pos 0) v && ltb_ℤ v (pos (2 ^ bits)) then ok (pos_part v) else fail (asm_error lineno)
