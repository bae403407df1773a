-- ===== src/Tests/Assembler.antt =====
-- Runs of the assembler of tools/assembler/assemble.py, and its theorems at concrete inputs.
use risc_forge.Base.{◌<◌, ◌/◌, ◌*◌, ◌%◌, ◌^◌, ◌↔◌, ◌≡◌, refl, arith, [], ◌∷◌, none, some}
use risc_forge.Base.Int.{pos, negsuc, and_mask, ◌-ℤ◌}
use risc_forge.Base.Text.{codes}
use risc_forge.Asm.Error.{ok}
use risc_forge.Asm.Operand.{parse_reg, parse_int}
use risc_forge.Asm.Line.{Line, Section}
use risc_forge.Base.{length, All, ℕ, List}
use risc_forge.Asm.Encode.{encode_line, encode_instruction}
use risc_forge.Asm.Layout.{instruction_size}
use risc_forge.Asm.Layout.Sizes.{IsInstructionWord}
use risc_forge.Asm.Layout.Agree.{encode_instruction-size}
use risc_forge.Asm.Encode.Real.{resolve}
use risc_forge.Asm.Encode.Pseudo.{encode_li, li_words, la_words}
use risc_forge.Asm.Pack.{r_type, i_type, s_type, b_type, u_type, j_type}
use risc_forge.Asm.Fit.{fit_signed, fit_unsigned}
use risc_forge.Asm.Fit.Laws.{fit_signed_iff, fit_unsigned_iff, IsPattern}
use risc_forge.Emu.Imm.{imm_i, imm_s, imm_b, imm_u, imm_j}
use risc_forge.Emu.State.{Cpu}
use risc_forge.Emu.Invariant.{IsValid}
use risc_forge.Emu.Memory.{fetch, read_le}
use risc_forge.Emu.Step.{decode}
use risc_forge.Emu.Word.{u32, signed}
use risc_forge.Toolchain.Fields.{
  decode-r_type, decode-i_type, decode-s_type, decode-b_type, decode-u_type, decode-j_type,
}
use risc_forge.Toolchain.Execute.{following}
use risc_forge.Toolchain.TwoSteps.{HoldsAll, Loads}
use risc_forge.Toolchain.Constants.{li_words-Loads, la_words-Loads}
use risc_forge.Tests.Emulator.{at_start, at_start-IsValid}

abbrev li_line : Line
li_line = record {
  lineno = 1;
  label = none;
  op = some (codes "li");
  args = codes "t0" ∷ codes "0x12345" ∷ [];
  section = Section.text;
  pc = 0;
  size = 8;
}

reg_t0 : parse_reg (codes "T0 ") 1 ≡ ok 5
unfolding parse_reg
reg_t0 = refl

int_minus : parse_int (codes " -0x1_0") 1 ≡ ok (negsuc 15)
unfolding parse_int
int_minus = refl

li_encoded : encode_line li_line [] ≡ ok (0x000122b7 ∷ 0x34528293 ∷ [])
unfolding encode_line encode_li parse_reg parse_int u_type i_type and_mask
li_encoded = refl

-- `program` begins with the words of `li x5, 0x12345`,
li_held : HoldsAll at_start 0 (li_words 5 (pos 0x12345))
unfolding li_words fetch read_le u_type i_type and_mask u32 ◌-ℤ◌
li_held = (refl, (refl, tt))

li_words-Loads_example : Loads at_start 5 (u32 (pos 0x12345)) (following (following 0))
li_words-Loads_example =
    li_words-Loads at_start 5 refl at_start-IsValid (omega arith) (omega arith) (pos 0x12345)
      li_held

-- and `pc_relative` with those of `la x5, 0x12345`.
abbrev pc_relative : Cpu
pc_relative = record at_start { mem = 0x97 ∷ 0x22 ∷ 0x01 ∷ 0x00 ∷ 0x93 ∷ 0x82 ∷ 0x52 ∷ 0x34 ∷ [] }

pc_relative-IsValid : IsValid pc_relative
pc_relative-IsValid = record {
  regs_length = refl;
  regs_words = omega arith;
  x0_zero = refl;
  pc_word = omega arith;
  mem_bytes = omega arith;
  csrs_words = omega arith;
  halt_known = refl;
}

la_held : HoldsAll pc_relative 0 (la_words 5 (pos 0x12345) 0)
unfolding la_words fetch read_le u_type i_type and_mask u32 ◌-ℤ◌
la_held = (refl, (refl, tt))

la_words-Loads_example : Loads pc_relative 5 (u32 (pos 0x12345)) (following (following 0))
la_words-Loads_example =
    la_words-Loads pc_relative 5 refl pc_relative-IsValid (omega arith) (omega arith) (pos 0x12345)
      la_held

decode-r_type_example :
    let d = decode 8 (r_type 51 1 0 2 3 32) in
    (d.opcode ≡ 51 % 2 ^ 7)
    × (d.rd ≡ 1 % 2 ^ 5)
    × (d.funct3 ≡ 0 % 2 ^ 3)
    × (d.rs1 ≡ 2 % 2 ^ 5)
    × (d.rs2 ≡ 3 % 2 ^ 5)
    × (d.funct7 ≡ 32 % 2 ^ 7)
decode-r_type_example = decode-r_type 8 51 1 0 2 3 32

decode-i_type_example :
    let w = i_type 19 1 0 2 4095 in
    let d = decode 8 w in
    (d.opcode ≡ 19 % 2 ^ 7)
    × (d.rd ≡ 1 % 2 ^ 5)
    × (d.funct3 ≡ 0 % 2 ^ 3)
    × (d.rs1 ≡ 2 % 2 ^ 5)
    × (imm_i w ≡ signed 11 (4095 % 2 ^ 12))
decode-i_type_example = decode-i_type 8 19 1 0 2 4095

decode-s_type_example :
    let w = s_type 35 2 1 3 4092 in
    let d = decode 8 w in
    (d.opcode ≡ 35 % 2 ^ 7)
    × (d.funct3 ≡ 2 % 2 ^ 3)
    × (d.rs1 ≡ 1 % 2 ^ 5)
    × (d.rs2 ≡ 3 % 2 ^ 5)
    × (imm_s w ≡ signed 11 (4092 % 2 ^ 12))
decode-s_type_example = decode-s_type 8 35 2 1 3 4092

decode-b_type_example :
    let w = b_type 99 1 1 3 8188 in
    let d = decode 8 w in
    (d.opcode ≡ 99 % 2 ^ 7)
    × (d.funct3 ≡ 1 % 2 ^ 3)
    × (d.rs1 ≡ 1 % 2 ^ 5)
    × (d.rs2 ≡ 3 % 2 ^ 5)
    × (imm_b w ≡ signed 12 (8188 / 2 % 2 ^ 12 * 2))
decode-b_type_example = decode-b_type 8 99 1 1 3 8188

decode-u_type_example :
    let w = u_type 55 1 0x12345 in
    let d = decode 8 w in
    (d.opcode ≡ 55 % 2 ^ 7) × (d.rd ≡ 1 % 2 ^ 5) × (imm_u w ≡ 0x12345 % 2 ^ 20 * 2 ^ 12)
decode-u_type_example = decode-u_type 8 55 1 0x12345

decode-j_type_example :
    let w = j_type 111 1 2048 in
    let d = decode 8 w in
    (d.opcode ≡ 111 % 2 ^ 7) × (d.rd ≡ 1 % 2 ^ 5) × (imm_j w ≡ signed 20 (2048 / 2 % 2 ^ 20 * 2))
decode-j_type_example = decode-j_type 8 111 1 2048

fit_signed_iff_example : (fit_signed (negsuc 3) 12 7 ≡ ok 4092) ↔ IsPattern 11 4092 (negsuc 3)
fit_signed_iff_example = fit_signed_iff (negsuc 3) 11 7 4092

abbrev li_expected : List ℕ
li_expected = 0x000122b7 ∷ 0x34528293 ∷ []

li_instruction : encode_instruction (codes "li") li_line [] ≡ ok li_expected
unfolding encode_instruction encode_li resolve parse_reg parse_int u_type i_type and_mask
li_instruction = refl

encode_instruction-size_example :
    (instruction_size (codes "li") ≡ 4 * length li_expected) × All IsInstructionWord li_expected
encode_instruction-size_example =
    encode_instruction-size (codes "li") li_line [] li_expected li_instruction

fit_unsigned_iff_example : (fit_unsigned (pos 31) 5 7 ≡ ok 31) ↔ ((pos 31 ≡ pos 31) × (31 < 2 ^ 5))
fit_unsigned_iff_example = fit_unsigned_iff (pos 31) 5 7 31
