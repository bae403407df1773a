-- ===== src/Asm/Pack.antt =====
-- The field packers of tools/assembler/assemble.py.
pub mod Sums
use risc_forge.Base.{ℕ, bit_and, bit_or}
use risc_forge.Base.Bits.{◌<<<◌, ◌>>>◌}

infixl 25 ◌∣∣◌
abbrev ◌∣∣◌ : ℕ → ℕ → ℕ
a ∣∣ b = bit_or a b

unfoldable pub r_type : (opcode rd f3 rs1 rs2 f7 : ℕ) → ℕ
r_type opcode rd f3 rs1 rs2 f7 =
    bit_and f7 0x7f <<< 25
    ∣∣ bit_and rs2 0x1f <<< 20
    ∣∣ bit_and rs1 0x1f <<< 15
    ∣∣ bit_and f3 0x7 <<< 12
    ∣∣ bit_and rd 0x1f <<< 7
    ∣∣ bit_and opcode 0x7f

unfoldable pub i_type : (opcode rd f3 rs1 imm12 : ℕ) → ℕ
i_type opcode rd f3 rs1 imm12 =
    bit_and imm12 0xfff <<< 20
    ∣∣ bit_and rs1 0x1f <<< 15
    ∣∣ bit_and f3 0x7 <<< 12
    ∣∣ bit_and rd 0x1f <<< 7
    ∣∣ bit_and opcode 0x7f

unfoldable pub s_type : (opcode f3 rs1 rs2 imm12 : ℕ) → ℕ
s_type opcode f3 rs1 rs2 imm12 =
    let hi = bit_and (imm12 >>> 5) 0x7f in
    let lo = bit_and imm12 0x1f in
    hi <<< 25
    ∣∣ bit_and rs2 0x1f <<< 20
    ∣∣ bit_and rs1 0x1f <<< 15
    ∣∣ bit_and f3 0x7 <<< 12
    ∣∣ lo <<< 7
    ∣∣ bit_and opcode 0x7f

unfoldable pub b_type : (opcode f3 rs1 rs2 imm13 : ℕ) → ℕ
b_type opcode f3 rs1 rs2 imm13 =
    let b12 = bit_and (imm13 >>> 12) 1 in
    let b11 = bit_and (imm13 >>> 11) 1 in
    let b10_5 = bit_and (imm13 >>> 5) 0x3f in
    let b4_1 = bit_and (imm13 >>> 1) 0xf in
    b12 <<< 31
    ∣∣ b10_5 <<< 25
    ∣∣ bit_and rs2 0x1f <<< 20
    ∣∣ bit_and rs1 0x1f <<< 15
    ∣∣ bit_and f3 0x7 <<< 12
    ∣∣ b4_1 <<< 8
    ∣∣ b11 <<< 7
    ∣∣ bit_and opcode 0x7f

unfoldable pub u_type : (opcode rd imm20 : ℕ) → ℕ
u_type opcode rd imm20 =
    bit_and imm20 0xfffff <<< 12 ∣∣ bit_and rd 0x1f <<< 7 ∣∣ bit_and opcode 0x7f

unfoldable pub j_type : (opcode rd imm21 : ℕ) → ℕ
j_type opcode rd imm21 =
    let b20 = bit_and (imm21 >>> 20) 1 in
    let b19_12 = bit_and (imm21 >>> 12) 0xff in
    let b11 = bit_and (imm21 >>> 11) 1 in
    let b10_1 = bit_and (imm21 >>> 1) 0x3ff in
    b20 <<< 31
    ∣∣ b10_1 <<< 21
    ∣∣ b11 <<< 20
    ∣∣ b19_12 <<< 12
    ∣∣ bit_and rd 0x1f <<< 7
    ∣∣ bit_and opcode 0x7f
