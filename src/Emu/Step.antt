-- ===== src/Emu/Step.antt =====
-- `step` of tools/refmodel/rv32i_emu.py: fetch, decode, execute, retire.
use risc_forge.Base.{
  ℕ, ◌+◌, Bool, true, false, ◌&&◌, ◌||◌, not, Option, none, some, bit_and, ltb, leb, ◌==◌,
  if◌then◌else◌, get_or,
}
use risc_forge.Base.Bits.{◌>>>◌}
use risc_forge.Base.Int.{pos, ◌+ℤ◌, ltb_ℤ, leb_ℤ, and_not}
use risc_forge.Encoding.{
  int, Opcode, opcode_int, F3Branch, f3_branch_int, F3Load, f3_load_int, F3Store, f3_store_int,
}
use risc_forge.Emu.Word.{u32, s32}
use risc_forge.Emu.Imm.{imm_i, imm_s, imm_b, imm_u, imm_j}
use risc_forge.Emu.State.{
  Cpu, Result, ok, raise, trap, misaligned_fetch, illegal, runtime_error, M, ◌>>=◌, reads, pure,
}
use risc_forge.Emu.Memory.{fetch, load, store}
use risc_forge.Emu.Registers.{r, wr}
use risc_forge.Emu.Alu.{alu_imm, alu_reg}
use risc_forge.Emu.System.{exec_system}

-- The address, the value and the size in bytes of a store.
pub record MemWrite : Type 0 where
  pub addr : ℕ
  pub value : ℕ
  pub size : ℕ

pub record StepTrace : Type 0 where
  pub pc : ℕ
  pub inst : ℕ
  pub rd_write : Option (ℕ × ℕ)
  pub mem_write : Option MemWrite

-- The local variables that `step` takes from the instruction.
pub record Fields : Type 0 where
  pub pc : ℕ
  pub inst : ℕ
  pub opcode : ℕ
  pub rd : ℕ
  pub funct3 : ℕ
  pub rs1 : ℕ
  pub rs2 : ℕ
  pub funct7 : ℕ
  pub next_pc : ℕ

unfoldable pub decode : ℕ → ℕ → Fields
decode pc inst = record {
  pc = pc;
  inst = inst;
  opcode = bit_and inst 0x7f;
  rd = bit_and (inst >>> 7) 0x1f;
  funct3 = bit_and (inst >>> 12) 0x7;
  rs1 = bit_and (inst >>> 15) 0x1f;
  rs2 = bit_and (inst >>> 20) 0x1f;
  funct7 = bit_and (inst >>> 25) 0x7f;
  next_pc = u32 (pos (pc + 4));
}

-- What a branch of the dispatch hands to the end of `step`.
pub record Effect : Type 0 where
  pub next_pc : ℕ
  pub mem_write : Option MemWrite

abbrev pub goto : ℕ → Effect
goto next_pc = record { next_pc = next_pc; mem_write = none }

unfoldable pub exec_lui : Fields → M Effect
exec_lui d c = (ok (goto d.next_pc), wr d.rd (imm_u d.inst) c)

unfoldable pub exec_auipc : Fields → M Effect
exec_auipc d c = (ok (goto d.next_pc), wr d.rd (u32 (pos (d.pc + imm_u d.inst))) c)

-- JAL and JALR from the target on
unfoldable pub jump : Fields → ℕ → M Effect
jump d target c =
    if not (bit_and target 0x3 == 0)
    then (raise (trap misaligned_fetch d.pc), c)
    else (ok (goto target), wr d.rd d.next_pc c)

unfoldable pub exec_jal : Fields → M Effect
unfolding jump
exec_jal d c = jump d (u32 (pos d.pc +ℤ imm_j d.inst)) c

unfoldable pub exec_jalr : Fields → M Effect
unfolding jump
exec_jalr d c = jump d (u32 (and_not (pos (r c d.rs1) +ℤ imm_i d.inst) 1)) c

unfoldable pub branch_taken : ℕ → ℕ → ℕ → ℕ → Result Bool
branch_taken funct3 a b pc =
    if funct3 == int F3Branch.beq
    then ok (a == b)
    else if funct3 == int F3Branch.bne
    then ok (not (a == b))
    else if funct3 == int F3Branch.blt
    then ok (ltb_ℤ (s32 (pos a)) (s32 (pos b)))
    else if funct3 == int F3Branch.bge
    then ok (leb_ℤ (s32 (pos b)) (s32 (pos a)))
    else if funct3 == int F3Branch.bltu
    then ok (ltb (u32 (pos a)) (u32 (pos b)))
    else if funct3 == int F3Branch.bgeu
    then ok (leb (u32 (pos b)) (u32 (pos a)))
    else raise (trap illegal pc)

unfoldable pub branch_to : Fields → Bool → Result Effect
branch_to d taken =
    let target = u32 (pos d.pc +ℤ imm_b d.inst) in
    if taken
    then if not (bit_and target 0x3 == 0)
      then raise (trap misaligned_fetch d.pc)
      else ok (goto target)
    else ok (goto d.next_pc)

unfoldable pub exec_branch : Fields → M Effect
unfolding branch_taken branch_to
exec_branch d = do
  taken ← reads (λ c. branch_taken d.funct3 (r c d.rs1) (r c d.rs2) d.pc)
  reads (λ c. branch_to d taken)

unfoldable pub load_value : ℕ → ℕ → ℕ → Cpu → Result ℕ
load_value funct3 addr pc c =
    if funct3 == int F3Load.lb
    then load addr 1 true c
    else if funct3 == int F3Load.lh
    then load addr 2 true c
    else if funct3 == int F3Load.lw
    then load addr 4 false c
    else if funct3 == int F3Load.lbu
    then load addr 1 false c
    else if funct3 == int F3Load.lhu
    then load addr 2 false c
    else raise (trap illegal pc)

unfoldable pub exec_load : Fields → M Effect
unfolding load_value
exec_load d = do
  v ← reads (λ c. load_value d.funct3 (u32 (pos (r c d.rs1) +ℤ imm_i d.inst)) d.pc c)
  λ c. (ok (goto d.next_pc), wr d.rd v c)

unfoldable pub store_size : ℕ → ℕ → Result ℕ
store_size funct3 pc =
    if funct3 == int F3Store.sb
    then ok 1
    else if funct3 == int F3Store.sh
    then ok 2
    else if funct3 == int F3Store.sw
    then ok 4
    else raise (trap illegal pc)

unfoldable pub exec_store : Fields → M Effect
unfolding store_size
exec_store d c =
    let addr = u32 (pos (r c d.rs1) +ℤ imm_s d.inst) in
    let v = r c d.rs2 in
    let body : M Effect = do
      size ← reads (λ _. store_size d.funct3 d.pc)
      _ ← store addr v size
      pure (record {
        next_pc = d.next_pc;
        mem_write = some (record { addr = addr; value = u32 (pos v); size = size });
      })
    in body c

-- OP-IMM and OP: write the result of the ALU
abbrev retire_alu : Fields → (Cpu → Result ℕ) → M Effect
retire_alu d result = do v ← reads result; λ c. (ok (goto d.next_pc), wr d.rd v c)

unfoldable pub exec_imm : Fields → M Effect
exec_imm d = retire_alu d (λ c. alu_imm d.funct3 (r c d.rs1) (imm_i d.inst) d.inst d.pc)

unfoldable pub exec_reg : Fields → M Effect
exec_reg d = retire_alu d (λ c. alu_reg d.funct3 d.funct7 (r c d.rs1) (r c d.rs2) d.pc)

unfoldable pub execute : Fields → M Effect
unfolding exec_lui exec_auipc exec_jal exec_jalr exec_branch exec_load exec_store exec_imm exec_reg
execute d =
    if d.opcode == int Opcode.lui
    then exec_lui d
    else if d.opcode == int Opcode.auipc
    then exec_auipc d
    else if d.opcode == int Opcode.jal
    then exec_jal d
    else if d.opcode == int Opcode.jalr
    then exec_jalr d
    else if d.opcode == int Opcode.branch
    then exec_branch d
    else if d.opcode == int Opcode.load
    then exec_load d
    else if d.opcode == int Opcode.store
    then exec_store d
    else if d.opcode == int Opcode.imm
    then exec_imm d
    else if d.opcode == int Opcode.reg
    then exec_reg d
    else if d.opcode == int Opcode.fence
    then pure (goto d.next_pc)
    else if d.opcode == int Opcode.system
    then ◌>>=◌ (exec_system d.pc d.inst d.rd d.funct3 d.rs1 d.next_pc) (λ next. pure (goto next))
    else λ c. (raise (trap illegal d.pc), c)

-- The opcodes whose destination register the trace records.
unfoldable pub writes_rd : ℕ → Bool
writes_rd opcode =
    opcode == int Opcode.lui
    || opcode == int Opcode.auipc
    || opcode == int Opcode.jal
    || opcode == int Opcode.jalr
    || opcode == int Opcode.load
    || opcode == int Opcode.imm
    || opcode == int Opcode.reg
    || opcode == int Opcode.system

-- The end of `step`: the trace, the new PC and the count.
unfoldable pub retire : Fields → Effect → M StepTrace
unfolding writes_rd
retire d e c =
    let rd_write =
      if not (d.rd == 0) && writes_rd d.opcode then some (d.rd, get_or c.regs d.rd 0) else none in
    (
      ok (record { pc = d.pc; inst = d.inst; rd_write = rd_write; mem_write = e.mem_write }),
      record c { pc = e.next_pc; steps = c.steps + 1 },
    )

unfoldable pub step : M StepTrace
unfolding execute retire
step c =
    let body : M StepTrace = do
      inst ← reads (fetch c.pc)
      e ← execute (decode c.pc inst)
      retire (decode c.pc inst) e
    in if c.halted then (raise runtime_error, c) else body c
