-- ===== src/Encoding.antt =====
-- tools/refmodel/encoding.py: the encoding constants that the emulator and the assembler share.
-- A class of Python's IntEnum is a data type with the number of each member.
pub mod Control
pub mod Members
use risc_forge.Base.{ℕ}

pub record IntEnum (E : Type 0) : Type 0 where
  pub value : E → ℕ

-- A member of an IntEnum compares as its number.
abbrev pub int : {E : Type 0} ⦃e : IntEnum E⦄ → E → ℕ
int ⦃e⦄ = e.value

abbrev pub xlen : ℕ
xlen = 32

-- inst[6:0]
pub data Opcode : Type 0 where
  lui auipc jal jalr branch load store imm reg fence system : Opcode

abbrev pub opcode_value : Opcode → ℕ
opcode_value Opcode.lui = 0b0110111
opcode_value Opcode.auipc = 0b0010111
opcode_value Opcode.jal = 0b1101111
opcode_value Opcode.jalr = 0b1100111
opcode_value Opcode.branch = 0b1100011
opcode_value Opcode.load = 0b0000011
opcode_value Opcode.store = 0b0100011
opcode_value Opcode.imm = 0b0010011
opcode_value Opcode.reg = 0b0110011
opcode_value Opcode.fence = 0b0001111
opcode_value Opcode.system = 0b1110011

-- funct3 for OP-IMM and OP
pub data F3Op : Type 0 where
  add_sub sll slt sltu xor sr or and : F3Op

abbrev pub f3_op_value : F3Op → ℕ
f3_op_value F3Op.add_sub = 0b000
f3_op_value F3Op.sll = 0b001
f3_op_value F3Op.slt = 0b010
f3_op_value F3Op.sltu = 0b011
f3_op_value F3Op.xor = 0b100
f3_op_value F3Op.sr = 0b101
f3_op_value F3Op.or = 0b110
f3_op_value F3Op.and = 0b111

pub data F3Branch : Type 0 where
  beq bne blt bge bltu bgeu : F3Branch

abbrev pub f3_branch_value : F3Branch → ℕ
f3_branch_value F3Branch.beq = 0b000
f3_branch_value F3Branch.bne = 0b001
f3_branch_value F3Branch.blt = 0b100
f3_branch_value F3Branch.bge = 0b101
f3_branch_value F3Branch.bltu = 0b110
f3_branch_value F3Branch.bgeu = 0b111

pub data F3Load : Type 0 where
  lb lh lw lbu lhu : F3Load

abbrev pub f3_load_value : F3Load → ℕ
f3_load_value F3Load.lb = 0b000
f3_load_value F3Load.lh = 0b001
f3_load_value F3Load.lw = 0b010
f3_load_value F3Load.lbu = 0b100
f3_load_value F3Load.lhu = 0b101

pub data F3Store : Type 0 where
  sb sh sw : F3Store

abbrev pub f3_store_value : F3Store → ℕ
f3_store_value F3Store.sb = 0b000
f3_store_value F3Store.sh = 0b001
f3_store_value F3Store.sw = 0b010

instance abbrev pub opcode_int : IntEnum Opcode
opcode_int = record { value = opcode_value }

instance abbrev pub f3_op_int : IntEnum F3Op
f3_op_int = record { value = f3_op_value }

instance abbrev pub f3_branch_int : IntEnum F3Branch
f3_branch_int = record { value = f3_branch_value }

instance abbrev pub f3_load_int : IntEnum F3Load
f3_load_int = record { value = f3_load_value }

instance abbrev pub f3_store_int : IntEnum F3Store
f3_store_int = record { value = f3_store_value }

-- funct7 distinguishers
abbrev pub f7_default : ℕ
f7_default = 0b0000000

abbrev pub f7_alt : ℕ
f7_alt = 0b0100000

-- SYSTEM funct12 values for ECALL and EBREAK
abbrev pub f12_ecall : ℕ
f12_ecall = 0x000

abbrev pub f12_ebreak : ℕ
f12_ebreak = 0x001
