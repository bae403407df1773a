-- ===== src/Toolchain/Fields.antt =====
-- The fields that `step` of tools/refmodel/rv32i_emu.py takes from a word are those that the packers
-- of tools/assembler/assemble.py put in.
use risc_forge.Base.{ℕ, ◌*◌, ◌/◌, ◌%◌, ◌^◌, ◌≡◌, ◌∙◌, ap, arith}
use risc_forge.Base.Bits.{bit_and_mask}
use risc_forge.Emu.Word.{signed}
use risc_forge.Emu.Imm.{imm_i, imm_s, imm_b, imm_u, imm_j}
use risc_forge.Emu.Imm.Sums.{imm_i-sum, imm_s-sum, imm_b-sum, imm_u-sum, imm_j-sum}
use risc_forge.Emu.Step.{decode}
use risc_forge.Asm.Pack.{r_type, i_type, s_type, b_type, u_type, j_type}
use risc_forge.Asm.Pack.Sums.{
  r_type-sum, i_type-sum, s_type-sum, b_type-sum, u_type-sum, j_type-sum,
}

-- Decoding an R-type word gives back the six fields, each cut to its width.
pub decode-r_type :
    (pc opcode rd f3 rs1 rs2 f7 : ℕ)
    → let d = decode pc (r_type opcode rd f3 rs1 rs2 f7) in
      (d.opcode ≡ opcode % 2 ^ 7)
      × (d.rd ≡ rd % 2 ^ 5)
      × (d.funct3 ≡ f3 % 2 ^ 3)
      × (d.rs1 ≡ rs1 % 2 ^ 5)
      × (d.rs2 ≡ rs2 % 2 ^ 5)
      × (d.funct7 ≡ f7 % 2 ^ 7)
unfolding decode
decode-r_type pc opcode rd f3 rs1 rs2 f7 =
    let w = r_type opcode rd f3 rs1 rs2 f7 in
    let sum = r_type-sum opcode rd f3 rs1 rs2 f7 in
    (
      omega (arith, sum, bit_and_mask 7 w),
      omega (arith, sum, bit_and_mask 5 (w / 2 ^ 7)),
      omega (arith, sum, bit_and_mask 3 (w / 2 ^ 12)),
      omega (arith, sum, bit_and_mask 5 (w / 2 ^ 15)),
      omega (arith, sum, bit_and_mask 5 (w / 2 ^ 20)),
      omega (arith, sum, bit_and_mask 7 (w / 2 ^ 25)),
    )

-- An I-type word gives back its fields, and its immediate is read in two's complement.
pub decode-i_type :
    (pc opcode rd f3 rs1 imm12 : ℕ)
    → let w = i_type opcode rd f3 rs1 imm12 in
      let d = decode pc w in
      (d.opcode ≡ opcode % 2 ^ 7)
      × (d.rd ≡ rd % 2 ^ 5)
      × (d.funct3 ≡ f3 % 2 ^ 3)
      × (d.rs1 ≡ rs1 % 2 ^ 5)
      × (imm_i w ≡ signed 11 (imm12 % 2 ^ 12))
unfolding decode
decode-i_type pc opcode rd f3 rs1 imm12 =
    let w = i_type opcode rd f3 rs1 imm12 in
    let sum = i_type-sum opcode rd f3 rs1 imm12 in
    (
      omega (arith, sum, bit_and_mask 7 w),
      omega (arith, sum, bit_and_mask 5 (w / 2 ^ 7)),
      omega (arith, sum, bit_and_mask 3 (w / 2 ^ 12)),
      omega (arith, sum, bit_and_mask 5 (w / 2 ^ 15)),
      imm_i-sum w ∙ ap (signed 11) (omega (arith, sum)),
    )

-- Decoding an S-type word gives back its fields, each cut to its width, and the immediate that was
-- split over the word is put together and read in two's complement.
pub decode-s_type :
    (pc opcode f3 rs1 rs2 imm12 : ℕ)
    → let w = s_type opcode f3 rs1 rs2 imm12 in
      let d = decode pc w in
      (d.opcode ≡ opcode % 2 ^ 7)
      × (d.funct3 ≡ f3 % 2 ^ 3)
      × (d.rs1 ≡ rs1 % 2 ^ 5)
      × (d.rs2 ≡ rs2 % 2 ^ 5)
      × (imm_s w ≡ signed 11 (imm12 % 2 ^ 12))
unfolding decode
decode-s_type pc opcode f3 rs1 rs2 imm12 =
    let w = s_type opcode f3 rs1 rs2 imm12 in
    let sum = s_type-sum opcode f3 rs1 rs2 imm12 in
    (
      omega (arith, sum, bit_and_mask 7 w),
      omega (arith, sum, bit_and_mask 3 (w / 2 ^ 12)),
      omega (arith, sum, bit_and_mask 5 (w / 2 ^ 15)),
      omega (arith, sum, bit_and_mask 5 (w / 2 ^ 20)),
      imm_s-sum w ∙ ap (signed 11) (omega (arith, sum)),
    )

-- Decoding a B-type word gives back its fields, and the scattered offset is put together with bit 0
-- clear, whatever bit 0 was, and read in two's complement.
pub decode-b_type :
    (pc opcode f3 rs1 rs2 imm13 : ℕ)
    → let w = b_type opcode f3 rs1 rs2 imm13 in
      let d = decode pc w in
      (d.opcode ≡ opcode % 2 ^ 7)
      × (d.funct3 ≡ f3 % 2 ^ 3)
      × (d.rs1 ≡ rs1 % 2 ^ 5)
      × (d.rs2 ≡ rs2 % 2 ^ 5)
      × (imm_b w ≡ signed 12 (imm13 / 2 % 2 ^ 12 * 2))
unfolding decode
decode-b_type pc opcode f3 rs1 rs2 imm13 =
    let w = b_type opcode f3 rs1 rs2 imm13 in
    let sum = b_type-sum opcode f3 rs1 rs2 imm13 in
    (
      omega (arith, sum, bit_and_mask 7 w),
      omega (arith, sum, bit_and_mask 3 (w / 2 ^ 12)),
      omega (arith, sum, bit_and_mask 5 (w / 2 ^ 15)),
      omega (arith, sum, bit_and_mask 5 (w / 2 ^ 20)),
      imm_b-sum w ∙ ap (signed 12) (omega (arith, sum)),
    )

-- Decoding a U-type word gives back the register and the 20 upper bits in their place.
pub decode-u_type :
    (pc opcode rd imm20 : ℕ)
    → let w = u_type opcode rd imm20 in
      let d = decode pc w in
      (d.opcode ≡ opcode % 2 ^ 7) × (d.rd ≡ rd % 2 ^ 5) × (imm_u w ≡ imm20 % 2 ^ 20 * 2 ^ 12)
unfolding decode
decode-u_type pc opcode rd imm20 =
    let w = u_type opcode rd imm20 in
    let sum = u_type-sum opcode rd imm20 in
    (
      omega (arith, sum, bit_and_mask 7 w),
      omega (arith, sum, bit_and_mask 5 (w / 2 ^ 7)),
      omega (arith, sum, imm_u-sum w),
    )

-- Decoding a J-type word gives back the register, and the scattered offset is put together with bit 0
-- clear, whatever bit 0 was, and read in two's complement.
pub decode-j_type :
    (pc opcode rd imm21 : ℕ)
    → let w = j_type opcode rd imm21 in
      let d = decode pc w in
      (d.opcode ≡ opcode % 2 ^ 7)
      × (d.rd ≡ rd % 2 ^ 5)
      × (imm_j w ≡ signed 20 (imm21 / 2 % 2 ^ 20 * 2))
unfolding decode
decode-j_type pc opcode rd imm21 =
    let w = j_type opcode rd imm21 in
    let sum = j_type-sum opcode rd imm21 in
    (
      omega (arith, sum, bit_and_mask 7 w),
      omega (arith, sum, bit_and_mask 5 (w / 2 ^ 7)),
      imm_j-sum w ∙ ap (signed 20) (omega (arith, sum)),
    )
