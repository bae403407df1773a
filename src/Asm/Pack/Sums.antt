-- ===== src/Asm/Pack/Sums.antt =====
-- An instruction word of tools/assembler/assemble.py as the sum of its fields.
use risc_forge.Base.{ℕ, ◌+◌, ◌*◌, ◌/◌, ◌%◌, ◌^◌, ◌≡◌, arith}
use risc_forge.Base.Bits.{bit_and_mask}
use risc_forge.Base.Fields.{or_add, field}
use risc_forge.Asm.Pack.{r_type, i_type, s_type, b_type, u_type, j_type}

pub r_type-sum :
    (opcode rd f3 rs1 rs2 f7 : ℕ)
    → r_type opcode rd f3 rs1 rs2 f7
      ≡ f7 % 2 ^ 7 * 2 ^ 25
        + rs2 % 2 ^ 5 * 2 ^ 20
        + rs1 % 2 ^ 5 * 2 ^ 15
        + f3 % 2 ^ 3 * 2 ^ 12
        + rd % 2 ^ 5 * 2 ^ 7
        + opcode % 2 ^ 7
unfolding r_type
r_type-sum opcode rd f3 rs1 rs2 f7 =
    let s1 = or_add 25 _ _ _ _ (field 25 7 f7) (field 20 5 rs2) (omega arith) (omega arith) in
    let s2 = or_add 20 _ _ _ _ s1 (field 15 5 rs1) (omega arith) (omega arith) in
    let s3 = or_add 15 _ _ _ _ s2 (field 12 3 f3) (omega arith) (omega arith) in
    let s4 = or_add 12 _ _ _ _ s3 (field 7 5 rd) (omega arith) (omega arith) in
    or_add 7 _ _ _ _ s4 (bit_and_mask 7 opcode) (omega arith) (omega arith)

pub i_type-sum :
    (opcode rd f3 rs1 imm12 : ℕ)
    → i_type opcode rd f3 rs1 imm12
      ≡ imm12 % 2 ^ 12 * 2 ^ 20
        + rs1 % 2 ^ 5 * 2 ^ 15
        + f3 % 2 ^ 3 * 2 ^ 12
        + rd % 2 ^ 5 * 2 ^ 7
        + opcode % 2 ^ 7
unfolding i_type
i_type-sum opcode rd f3 rs1 imm12 =
    let s1 = or_add 20 _ _ _ _ (field 20 12 imm12) (field 15 5 rs1) (omega arith) (omega arith) in
    let s2 = or_add 15 _ _ _ _ s1 (field 12 3 f3) (omega arith) (omega arith) in
    let s3 = or_add 12 _ _ _ _ s2 (field 7 5 rd) (omega arith) (omega arith) in
    or_add 7 _ _ _ _ s3 (bit_and_mask 7 opcode) (omega arith) (omega arith)

pub s_type-sum :
    (opcode f3 rs1 rs2 imm12 : ℕ)
    → s_type opcode f3 rs1 rs2 imm12
      ≡ imm12 / 2 ^ 5 % 2 ^ 7 * 2 ^ 25
        + rs2 % 2 ^ 5 * 2 ^ 20
        + rs1 % 2 ^ 5 * 2 ^ 15
        + f3 % 2 ^ 3 * 2 ^ 12
        + imm12 % 2 ^ 5 * 2 ^ 7
        + opcode % 2 ^ 7
unfolding s_type
s_type-sum opcode f3 rs1 rs2 imm12 =
    let s1 =
      or_add 25 _ _ _ _ (field 25 7 (imm12 / 2 ^ 5)) (field 20 5 rs2) (omega arith) (omega arith) in
    let s2 = or_add 20 _ _ _ _ s1 (field 15 5 rs1) (omega arith) (omega arith) in
    let s3 = or_add 15 _ _ _ _ s2 (field 12 3 f3) (omega arith) (omega arith) in
    let s4 = or_add 12 _ _ _ _ s3 (field 7 5 imm12) (omega arith) (omega arith) in
    or_add 7 _ _ _ _ s4 (bit_and_mask 7 opcode) (omega arith) (omega arith)

pub b_type-sum :
    (opcode f3 rs1 rs2 imm13 : ℕ)
    → b_type opcode f3 rs1 rs2 imm13
      ≡ imm13 / 2 ^ 12 % 2 * 2 ^ 31
        + imm13 / 2 ^ 5 % 2 ^ 6 * 2 ^ 25
        + rs2 % 2 ^ 5 * 2 ^ 20
        + rs1 % 2 ^ 5 * 2 ^ 15
        + f3 % 2 ^ 3 * 2 ^ 12
        + imm13 / 2 % 2 ^ 4 * 2 ^ 8
        + imm13 / 2 ^ 11 % 2 * 2 ^ 7
        + opcode % 2 ^ 7
unfolding b_type
b_type-sum opcode f3 rs1 rs2 imm13 =
    let s1 =
      or_add 31 _ _ _ _ (field 31 1 (imm13 / 2 ^ 12)) (field 25 6 (imm13 / 2 ^ 5)) (omega arith)
        (omega arith) in
    let s2 = or_add 25 _ _ _ _ s1 (field 20 5 rs2) (omega arith) (omega arith) in
    let s3 = or_add 20 _ _ _ _ s2 (field 15 5 rs1) (omega arith) (omega arith) in
    let s4 = or_add 15 _ _ _ _ s3 (field 12 3 f3) (omega arith) (omega arith) in
    let s5 = or_add 12 _ _ _ _ s4 (field 8 4 (imm13 / 2)) (omega arith) (omega arith) in
    let s6 = or_add 8 _ _ _ _ s5 (field 7 1 (imm13 / 2 ^ 11)) (omega arith) (omega arith) in
    or_add 7 _ _ _ _ s6 (bit_and_mask 7 opcode) (omega arith) (omega arith)

pub u_type-sum :
    (opcode rd imm20 : ℕ)
    → u_type opcode rd imm20 ≡ imm20 % 2 ^ 20 * 2 ^ 12 + rd % 2 ^ 5 * 2 ^ 7 + opcode % 2 ^ 7
unfolding u_type
u_type-sum opcode rd imm20 =
    let s1 = or_add 12 _ _ _ _ (field 12 20 imm20) (field 7 5 rd) (omega arith) (omega arith) in
    or_add 7 _ _ _ _ s1 (bit_and_mask 7 opcode) (omega arith) (omega arith)

pub j_type-sum :
    (opcode rd imm21 : ℕ)
    → j_type opcode rd imm21
      ≡ imm21 / 2 ^ 20 % 2 * 2 ^ 31
        + imm21 / 2 % 2 ^ 10 * 2 ^ 21
        + imm21 / 2 ^ 11 % 2 * 2 ^ 20
        + imm21 / 2 ^ 12 % 2 ^ 8 * 2 ^ 12
        + rd % 2 ^ 5 * 2 ^ 7
        + opcode % 2 ^ 7
unfolding j_type
j_type-sum opcode rd imm21 =
    let s1 =
      or_add 31 _ _ _ _ (field 31 1 (imm21 / 2 ^ 20)) (field 21 10 (imm21 / 2)) (omega arith)
        (omega arith) in
    let s2 = or_add 21 _ _ _ _ s1 (field 20 1 (imm21 / 2 ^ 11)) (omega arith) (omega arith) in
    let s3 = or_add 20 _ _ _ _ s2 (field 12 8 (imm21 / 2 ^ 12)) (omega arith) (omega arith) in
    let s4 = or_add 12 _ _ _ _ s3 (field 7 5 rd) (omega arith) (omega arith) in
    or_add 7 _ _ _ _ s4 (bit_and_mask 7 opcode) (omega arith) (omega arith)
