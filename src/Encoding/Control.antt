-- ===== src/Encoding/Control.antt =====
-- The enums of tools/refmodel/encoding.py that only the hardware reads: the selectors of its control
-- bundle.
use risc_forge.Base.{ℕ}
use risc_forge.Encoding.{IntEnum}

pub data AluOp : Type 0 where
  add sub and or xor sll srl sra slt sltu pass_b : AluOp

abbrev pub alu_op_value : AluOp → ℕ
alu_op_value AluOp.add = 0
alu_op_value AluOp.sub = 1
alu_op_value AluOp.and = 2
alu_op_value AluOp.or = 3
alu_op_value AluOp.xor = 4
alu_op_value AluOp.sll = 5
alu_op_value AluOp.srl = 6
alu_op_value AluOp.sra = 7
alu_op_value AluOp.slt = 8
alu_op_value AluOp.sltu = 9
alu_op_value AluOp.pass_b = 10

instance abbrev pub alu_op_int : IntEnum AluOp
alu_op_int = record { value = alu_op_value }

pub data AluSrcA : Type 0 where
  rs1 pc : AluSrcA

abbrev pub alu_src_a_value : AluSrcA → ℕ
alu_src_a_value AluSrcA.rs1 = 0
alu_src_a_value AluSrcA.pc = 1

instance abbrev pub alu_src_a_int : IntEnum AluSrcA
alu_src_a_int = record { value = alu_src_a_value }

pub data AluSrcB : Type 0 where
  rs2 imm : AluSrcB

abbrev pub alu_src_b_value : AluSrcB → ℕ
alu_src_b_value AluSrcB.rs2 = 0
alu_src_b_value AluSrcB.imm = 1

instance abbrev pub alu_src_b_int : IntEnum AluSrcB
alu_src_b_int = record { value = alu_src_b_value }

pub data WbSrc : Type 0 where
  alu mem pc4 : WbSrc

abbrev pub wb_src_value : WbSrc → ℕ
wb_src_value WbSrc.alu = 0
wb_src_value WbSrc.mem = 1
wb_src_value WbSrc.pc4 = 2

instance abbrev pub wb_src_int : IntEnum WbSrc
wb_src_int = record { value = wb_src_value }

pub data BranchOp : Type 0 where
  none eq ne lt ge ltu geu jump : BranchOp

abbrev pub branch_op_value : BranchOp → ℕ
branch_op_value BranchOp.none = 0
branch_op_value BranchOp.eq = 1
branch_op_value BranchOp.ne = 2
branch_op_value BranchOp.lt = 3
branch_op_value BranchOp.ge = 4
branch_op_value BranchOp.ltu = 5
branch_op_value BranchOp.geu = 6
branch_op_value BranchOp.jump = 7

instance abbrev pub branch_op_int : IntEnum BranchOp
branch_op_int = record { value = branch_op_value }

pub data MemSize : Type 0 where
  b h w : MemSize

abbrev pub mem_size_value : MemSize → ℕ
mem_size_value MemSize.b = 0
mem_size_value MemSize.h = 1
mem_size_value MemSize.w = 2

instance abbrev pub mem_size_int : IntEnum MemSize
mem_size_int = record { value = mem_size_value }
