-- ===== src/Asm/Tables.antt =====
-- The mnemonic tables of tools/assembler/assemble.py.
use risc_forge.Base.{ℕ, List, [], ◌∷◌}
use risc_forge.Base.Text.{Text, codes}
use risc_forge.Encoding.{
  int, F3Op, f3_op_int, F3Branch, f3_branch_int, F3Load, f3_load_int, F3Store, f3_store_int,
  f7_default, f7_alt,
}

-- mnemonic to funct3 and funct7
abbrev pub r_table : List (Text × (ℕ × ℕ))
r_table =
    (codes "add", (int F3Op.add_sub, f7_default))
    ∷ (codes "sub", (int F3Op.add_sub, f7_alt))
    ∷ (codes "sll", (int F3Op.sll, f7_default))
    ∷ (codes "slt", (int F3Op.slt, f7_default))
    ∷ (codes "sltu", (int F3Op.sltu, f7_default))
    ∷ (codes "xor", (int F3Op.xor, f7_default))
    ∷ (codes "srl", (int F3Op.sr, f7_default))
    ∷ (codes "sra", (int F3Op.sr, f7_alt))
    ∷ (codes "or", (int F3Op.or, f7_default))
    ∷ (codes "and", (int F3Op.and, f7_default))
    ∷ []

abbrev pub i_alu_table : List (Text × ℕ)
i_alu_table =
    (codes "addi", int F3Op.add_sub)
    ∷ (codes "slti", int F3Op.slt)
    ∷ (codes "sltiu", int F3Op.sltu)
    ∷ (codes "xori", int F3Op.xor)
    ∷ (codes "ori", int F3Op.or)
    ∷ (codes "andi", int F3Op.and)
    ∷ []

abbrev pub load_table : List (Text × ℕ)
load_table =
    (codes "lb", int F3Load.lb)
    ∷ (codes "lh", int F3Load.lh)
    ∷ (codes "lw", int F3Load.lw)
    ∷ (codes "lbu", int F3Load.lbu)
    ∷ (codes "lhu", int F3Load.lhu)
    ∷ []

abbrev pub store_table : List (Text × ℕ)
store_table =
    (codes "sb", int F3Store.sb) ∷ (codes "sh", int F3Store.sh) ∷ (codes "sw", int F3Store.sw) ∷ []

abbrev pub branch_table : List (Text × ℕ)
branch_table =
    (codes "beq", int F3Branch.beq)
    ∷ (codes "bne", int F3Branch.bne)
    ∷ (codes "blt", int F3Branch.blt)
    ∷ (codes "bge", int F3Branch.bge)
    ∷ (codes "bltu", int F3Branch.bltu)
    ∷ (codes "bgeu", int F3Branch.bgeu)
    ∷ []
