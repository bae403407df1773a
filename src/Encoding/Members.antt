-- ===== src/Encoding/Members.antt =====
-- The classes of tools/refmodel/encoding.py as `for m in cls` gives them: the names of the members
-- with their numbers.
use risc_forge.Base.{ℕ, List, [], ◌∷◌}
use risc_forge.Base.Text.{Text, codes}
use risc_forge.Encoding.{
  int, Opcode, opcode_int, F3Op, f3_op_int, F3Branch, f3_branch_int, F3Load, f3_load_int, F3Store,
  f3_store_int,
}
use risc_forge.Encoding.Control.{
  AluOp, alu_op_int, AluSrcA, alu_src_a_int, AluSrcB, alu_src_b_int, WbSrc, wb_src_int, BranchOp,
  branch_op_int, MemSize, mem_size_int,
}

abbrev pub Members : Type 0
Members = List (Text × ℕ)

abbrev pub opcode_members : Members
opcode_members =
    (codes "LUI", int Opcode.lui)
    ∷ (codes "AUIPC", int Opcode.auipc)
    ∷ (codes "JAL", int Opcode.jal)
    ∷ (codes "JALR", int Opcode.jalr)
    ∷ (codes "BRANCH", int Opcode.branch)
    ∷ (codes "LOAD", int Opcode.load)
    ∷ (codes "STORE", int Opcode.store)
    ∷ (codes "IMM", int Opcode.imm)
    ∷ (codes "REG", int Opcode.reg)
    ∷ (codes "FENCE", int Opcode.fence)
    ∷ (codes "SYSTEM", int Opcode.system)
    ∷ []

abbrev pub f3_op_members : Members
f3_op_members =
    (codes "ADD_SUB", int F3Op.add_sub)
    ∷ (codes "SLL", int F3Op.sll)
    ∷ (codes "SLT", int F3Op.slt)
    ∷ (codes "SLTU", int F3Op.sltu)
    ∷ (codes "XOR", int F3Op.xor)
    ∷ (codes "SR", int F3Op.sr)
    ∷ (codes "OR", int F3Op.or)
    ∷ (codes "AND", int F3Op.and)
    ∷ []

abbrev pub f3_branch_members : Members
f3_branch_members =
    (codes "BEQ", int F3Branch.beq)
    ∷ (codes "BNE", int F3Branch.bne)
    ∷ (codes "BLT", int F3Branch.blt)
    ∷ (codes "BGE", int F3Branch.bge)
    ∷ (codes "BLTU", int F3Branch.bltu)
    ∷ (codes "BGEU", int F3Branch.bgeu)
    ∷ []

abbrev pub f3_load_members : Members
f3_load_members =
    (codes "LB", int F3Load.lb)
    ∷ (codes "LH", int F3Load.lh)
    ∷ (codes "LW", int F3Load.lw)
    ∷ (codes "LBU", int F3Load.lbu)
    ∷ (codes "LHU", int F3Load.lhu)
    ∷ []

abbrev pub f3_store_members : Members
f3_store_members =
    (codes "SB", int F3Store.sb) ∷ (codes "SH", int F3Store.sh) ∷ (codes "SW", int F3Store.sw) ∷ []

abbrev pub alu_op_members : Members
alu_op_members =
    (codes "ADD", int AluOp.add)
    ∷ (codes "SUB", int AluOp.sub)
    ∷ (codes "AND", int AluOp.and)
    ∷ (codes "OR", int AluOp.or)
    ∷ (codes "XOR", int AluOp.xor)
    ∷ (codes "SLL", int AluOp.sll)
    ∷ (codes "SRL", int AluOp.srl)
    ∷ (codes "SRA", int AluOp.sra)
    ∷ (codes "SLT", int AluOp.slt)
    ∷ (codes "SLTU", int AluOp.sltu)
    ∷ (codes "PASS_B", int AluOp.pass_b)
    ∷ []

abbrev pub alu_src_a_members : Members
alu_src_a_members = (codes "RS1", int AluSrcA.rs1) ∷ (codes "PC", int AluSrcA.pc) ∷ []

abbrev pub alu_src_b_members : Members
alu_src_b_members = (codes "RS2", int AluSrcB.rs2) ∷ (codes "IMM", int AluSrcB.imm) ∷ []

abbrev pub wb_src_members : Members
wb_src_members =
    (codes "ALU", int WbSrc.alu) ∷ (codes "MEM", int WbSrc.mem) ∷ (codes "PC4", int WbSrc.pc4) ∷ []

abbrev pub branch_op_members : Members
branch_op_members =
    (codes "NONE", int BranchOp.none)
    ∷ (codes "EQ", int BranchOp.eq)
    ∷ (codes "NE", int BranchOp.ne)
    ∷ (codes "LT", int BranchOp.lt)
    ∷ (codes "GE", int BranchOp.ge)
    ∷ (codes "LTU", int BranchOp.ltu)
    ∷ (codes "GEU", int BranchOp.geu)
    ∷ (codes "JUMP", int BranchOp.jump)
    ∷ []

abbrev pub mem_size_members : Members
mem_size_members =
    (codes "B", int MemSize.b) ∷ (codes "H", int MemSize.h) ∷ (codes "W", int MemSize.w) ∷ []
