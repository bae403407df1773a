-- ===== src/Emu/Alu.antt =====
-- `_alu_imm` and `_alu_reg` of tools/refmodel/rv32i_emu.py.
use risc_forge.Base.{ℕ, Bool, bit_and, bit_or, bit_xor, ltb, ◌==◌, if◌then◌else◌}
use risc_forge.Base.Bits.{◌<<<◌, ◌>>>◌}
use risc_forge.Base.Int.{ℤ, pos, ◌+ℤ◌, ◌-ℤ◌, ltb_ℤ, and_mask, and_ℤ, or_ℤ, xor_ℤ, shr_ℤ}
use risc_forge.Encoding.{int, F3Op, f3_op_int, f7_default, f7_alt}
use risc_forge.Emu.Word.{u32, s32}
use risc_forge.Emu.State.{Result, ok, raise, trap, illegal}

-- Python's `1 if b else 0`
abbrev pub flag : Bool → ℕ
flag b = if b then 1 else 0

-- SRL and SRA, told apart by funct7
unfoldable pub shift_right : ℕ → ℕ → ℕ → ℕ → Result ℕ
shift_right f7 a shamt pc =
    if f7 == f7_default
    then ok (u32 (pos a) >>> shamt)
    else if f7 == f7_alt
    then ok (u32 (shr_ℤ (s32 (pos a)) shamt))
    else raise (trap illegal pc)

unfoldable pub alu_imm : ℕ → ℕ → ℤ → ℕ → ℕ → Result ℕ
unfolding shift_right
alu_imm f3 a imm inst pc =
    if f3 == int F3Op.add_sub
    then ok (u32 (pos a +ℤ imm))
    else if f3 == int F3Op.slt
    then ok (flag (ltb_ℤ (s32 (pos a)) (s32 imm)))
    else if f3 == int F3Op.sltu
    then ok (flag (ltb (u32 (pos a)) (u32 imm)))
    else if f3 == int F3Op.xor
    then ok (u32 (xor_ℤ a imm))
    else if f3 == int F3Op.or
    then ok (u32 (or_ℤ a imm))
    else if f3 == int F3Op.and
    then ok (u32 (and_ℤ a imm))
    else if f3 == int F3Op.sll
    then ok (u32 (pos (a <<< and_mask imm 0x1f)))
    else if f3 == int F3Op.sr
    then shift_right (bit_and (inst >>> 25) 0x7f) a (and_mask imm 0x1f) pc
    else raise (trap illegal pc)

unfoldable pub alu_reg : ℕ → ℕ → ℕ → ℕ → ℕ → Result ℕ
unfolding shift_right
alu_reg f3 f7 a b pc =
    if f3 == int F3Op.add_sub
    then if f7 == f7_default
      then ok (u32 (pos a +ℤ pos b))
      else if f7 == f7_alt
      then ok (u32 (pos a -ℤ pos b))
      else raise (trap illegal pc)
    else if f3 == int F3Op.sll
    then ok (u32 (pos (a <<< bit_and b 0x1f)))
    else if f3 == int F3Op.slt
    then ok (flag (ltb_ℤ (s32 (pos a)) (s32 (pos b))))
    else if f3 == int F3Op.sltu
    then ok (flag (ltb (u32 (pos a)) (u32 (pos b))))
    else if f3 == int F3Op.xor
    then ok (u32 (pos (bit_xor a b)))
    else if f3 == int F3Op.sr
    then shift_right f7 a (bit_and b 0x1f) pc
    else if f3 == int F3Op.or
    then ok (u32 (pos (bit_or a b)))
    else if f3 == int F3Op.and
    then ok (u32 (pos (bit_and a b)))
    else raise (trap illegal pc)
