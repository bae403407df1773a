-- ===== src/Tests/Package.antt =====
-- Runs of scripts/encoding_check.py.
use risc_forge.Base.{◌≡◌, ◌↔◌, refl, [], ◌∷◌, none, some}
use risc_forge.Base.Int.{pos}
use risc_forge.Base.Text.{Text, codes}
use risc_forge.Base.Scan.{split_lines}
use risc_forge.EncodingCheck.Literal.{parse_sv_int_literal}
use risc_forge.EncodingCheck.Package.{parse_sv_enum, parse_sv_localparam}
use risc_forge.EncodingCheck.Compare.{Report, check}
use risc_forge.EncodingCheck.Agree.{Agrees, check-status}

sized : parse_sv_int_literal (codes " 12'h0_F1 ") ≡ some (pos 0xf1)
unfolding parse_sv_int_literal
sized = refl

octal_digit : parse_sv_int_literal (codes "3'o8") ≡ none
unfolding parse_sv_int_literal
octal_digit = refl

plain : parse_sv_int_literal (codes "32") ≡ some (pos 32)
unfolding parse_sv_int_literal
plain = refl

leading_zero : parse_sv_int_literal (codes "012") ≡ none
unfolding parse_sv_int_literal
leading_zero = refl

abbrev drifted : Text
drifted =
    codes "  typedef enum logic {\n    MEM_B = 2'd0, // byte\n\n    MEM_H = 2'd3\n  } mem_size_e;\n"

drifted_members :
    parse_sv_enum drifted (codes "mem_size_e")
    ≡ some ((codes "MEM_B", pos 0) ∷ (codes "MEM_H", pos 3) ∷ [])
unfolding parse_sv_enum split_lines
drifted_members = refl

mask_param :
    parse_sv_localparam
      (codes "x localparam logic [6:0] F7_ALT  = 7'b0100000; // y")
      (codes "F7_ALT")
    ≡ some (pos 32)
unfolding parse_sv_localparam
mask_param = refl

-- The types and constants of rtl/pkg/riscv_pkg.sv
abbrev package_text : Text
package_text =
    codes
      "// This package is a constants library. Many of its localparams and enum\n// package, it flags every package localparam as UNUSEDPARAM \"in instance\n  localparam int XLEN = 32;\n  typedef enum logic [6:0] {\n    OP_LUI    = 7'b0110111,\n    OP_AUIPC  = 7'b0010111,\n    OP_JAL    = 7'b1101111,\n    OP_JALR   = 7'b1100111,\n    OP_BRANCH = 7'b1100011,\n    OP_LOAD   = 7'b0000011,\n    OP_STORE  = 7'b0100011,\n    OP_IMM    = 7'b0010011,\n    OP_REG    = 7'b0110011,\n    OP_FENCE  = 7'b0001111,\n    OP_SYSTEM = 7'b1110011\n  } opcode_e;\n  typedef enum logic [2:0] {\n    F3_ADD_SUB = 3'b000,\n    F3_SLL     = 3'b001,\n    F3_SLT     = 3'b010,\n    F3_SLTU    = 3'b011,\n    F3_XOR     = 3'b100,\n    F3_SR      = 3'b101,\n    F3_OR      = 3'b110,\n    F3_AND     = 3'b111\n  } funct3_op_e;\n  typedef enum logic [2:0] {\n    F3_BEQ  = 3'b000,\n    F3_BNE  = 3'b001,\n    F3_BLT  = 3'b100,\n    F3_BGE  = 3'b101,\n    F3_BLTU = 3'b110,\n    F3_BGEU = 3'b111\n  } funct3_branch_e;\n  typedef enum logic [2:0] {\n    F3_LB  = 3'b000,\n    F3_LH  = 3'b001,\n    F3_LW  = 3'b010,\n    F3_LBU = 3'b100,\n    F3_LHU = 3'b101\n  } funct3_load_e;\n  typedef enum logic [2:0] {\n    F3_SB = 3'b000,\n    F3_SH = 3'b001,\n    F3_SW = 3'b010\n  } funct3_store_e;\n  localparam logic [6:0] F7_DEFAULT = 7'b0000000; // ADD, SRL, SRLI, etc.\n  localparam logic [6:0] F7_ALT     = 7'b0100000; // SUB, SRA, SRAI\n  localparam logic [11:0] F12_ECALL  = 12'h000;\n  localparam logic [11:0] F12_EBREAK = 12'h001;\n  typedef enum logic [3:0] {\n    ALU_ADD    = 4'd0,\n    ALU_SUB    = 4'd1,\n    ALU_AND    = 4'd2,\n    ALU_OR     = 4'd3,\n    ALU_XOR    = 4'd4,\n    ALU_SLL    = 4'd5,\n    ALU_SRL    = 4'd6,\n    ALU_SRA    = 4'd7,\n    ALU_SLT    = 4'd8,\n    ALU_SLTU   = 4'd9,\n    ALU_PASS_B = 4'd10\n  } alu_op_e;\n  typedef enum logic {\n    ALU_A_RS1 = 1'b0,\n    ALU_A_PC  = 1'b1\n  } alu_src_a_e;\n  typedef enum logic {\n    ALU_B_RS2 = 1'b0,\n    ALU_B_IMM = 1'b1\n  } alu_src_b_e;\n  typedef enum logic [1:0] {\n    WB_ALU = 2'd0,\n    WB_MEM = 2'd1,\n    WB_PC4 = 2'd2\n  } wb_src_e;\n  typedef enum logic [2:0] {\n    BR_NONE = 3'd0,\n    BR_EQ   = 3'd1,\n    BR_NE   = 3'd2,\n    BR_LT   = 3'd3,\n    BR_GE   = 3'd4,\n    BR_LTU  = 3'd5,\n    BR_GEU  = 3'd6,\n    BR_JUMP = 3'd7\n  } branch_op_e;\n  typedef enum logic [1:0] {\n    MEM_B = 2'd0,\n    MEM_H = 2'd1,\n    MEM_W = 2'd2\n  } mem_size_e;\n"

package_agrees : (rep : Report) × (check package_text ≡ some rep) × (rep.status ≡ 0)
unfolding check split_lines
package_agrees = (record { errors = []; total_members = 62; status = 0 }, refl, refl)

check-status_example :
    ((rep : Report) × (check package_text ≡ some rep) × (rep.status ≡ 0)) ↔ Agrees package_text
check-status_example = check-status package_text
