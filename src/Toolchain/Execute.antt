-- ===== src/Toolchain/Execute.antt =====
-- One step of tools/refmodel/rv32i_emu.py on the words that tools/assembler/assemble.py emits.
use risc_forge.Base.{ℕ, ◌+◌, ◌*◌, ◌%◌, ◌^◌, ◌<◌, ◌≡◌, refl, arith, bit_and, false}
use risc_forge.Base.Bits.{bit_and_mask}
use risc_forge.Base.Int.{pos, ◌+ℤ◌, and_not}
use risc_forge.Encoding.{int, Opcode, opcode_int, f3_op_int}
use risc_forge.Emu.Word.{u32, signed}
use risc_forge.Emu.State.{Cpu, Result, ok, raise}
use risc_forge.Emu.Memory.{fetch}
use risc_forge.Emu.Registers.{r, wr}
use risc_forge.Emu.Alu.{alu_imm}
use risc_forge.Emu.Step.{
  Fields, Effect, goto, decode, execute, retire, step, exec_imm, exec_lui, exec_auipc, exec_jalr,
  exec_jal, exec_branch,
}
use risc_forge.Asm.Pack.{i_type, u_type}
use risc_forge.Toolchain.Fields.{decode-i_type, decode-u_type}

-- The CPU runs and has the word `w` at `addr`.
abbrev pub Holds : Cpu → ℕ → ℕ → Type 0
Holds c addr w = fetch addr c ≡ ok w

-- The state after an instruction that left `c` and goes on at `next_pc`.
abbrev pub retired : ℕ → Cpu → Cpu
retired next_pc c = record c { pc = next_pc; steps = c.steps + 1 }

abbrev pub following : ℕ → ℕ
following pc = u32 (pos (pc + 4))

abbrev Returns {ℓ} : {A : Type ℓ} → Result A → Type 0
Returns (ok a) = Unit
Returns (raise e) = ⊥

-- One step raises nothing and leaves `c'`.
abbrev pub StepsTo : Cpu → Cpu → Type 0
StepsTo c c' = Returns (step c).0 × ((step c).1 ≡ c')

pub step_of_execute :
    (c c₁ : Cpu) (inst : ℕ) (e : Effect)
    → c.halted ≡ false
    → Holds c c.pc inst
    → execute (decode c.pc inst) c ≡ (ok e, c₁)
    → StepsTo c (retired e.next_pc c₁)
unfolding step retire
step_of_execute c c₁ inst e running holds done = simp (running, holds, done) (tt, refl)

-- The dispatch, at the opcodes that follow.
module _ (d : Fields) where
  at_lui : d.opcode ≡ int Opcode.lui → execute d ≡ exec_lui d
  unfolding execute
  at_lui e = rw e

  at_auipc : d.opcode ≡ int Opcode.auipc → execute d ≡ exec_auipc d
  unfolding execute
  at_auipc e = rw e

  at_imm : d.opcode ≡ int Opcode.imm → execute d ≡ exec_imm d
  unfolding execute
  at_imm e = rw e

  at_jalr : d.opcode ≡ int Opcode.jalr → execute d ≡ exec_jalr d
  unfolding execute
  at_jalr e = rw e

  at_jal : d.opcode ≡ int Opcode.jal → execute d ≡ exec_jal d
  unfolding execute
  at_jal e = rw e

  at_branch : d.opcode ≡ int Opcode.branch → execute d ≡ exec_branch d
  unfolding execute
  at_branch e = rw e

module _ (c : Cpu) (rd : ℕ) (running : c.halted ≡ false) (rd_fits : rd < 32) where
  pub step-lui :
      (imm20 : ℕ)
      → Holds c c.pc (u_type (int Opcode.lui) rd imm20)
      → StepsTo c (retired (following c.pc) (wr rd (imm20 % 2 ^ 20 * 2 ^ 12) c))
  unfolding decode exec_lui
  step-lui imm20 holds =
      let w = u_type (int Opcode.lui) rd imm20 in
      let d = decode c.pc w in
      let (op, rd_is, imm) = decode-u_type c.pc (int Opcode.lui) rd imm20 in
      let rd_eq : d.rd ≡ rd = omega arith in
      step_of_execute c (wr rd (imm20 % 2 ^ 20 * 2 ^ 12) c) w (goto (following c.pc)) running holds
        (rw (at_lui d op, rd_eq, imm) refl)

  pub step-auipc :
      (imm20 : ℕ)
      → Holds c c.pc (u_type (int Opcode.auipc) rd imm20)
      → StepsTo c (retired (following c.pc) (wr rd (u32 (pos (c.pc + imm20 % 2 ^ 20 * 2 ^ 12))) c))
  unfolding decode exec_auipc
  step-auipc imm20 holds =
      let w = u_type (int Opcode.auipc) rd imm20 in
      let d = decode c.pc w in
      let (op, rd_is, imm) = decode-u_type c.pc (int Opcode.auipc) rd imm20 in
      let rd_eq : d.rd ≡ rd = omega arith in
      step_of_execute c (wr rd (u32 (pos (c.pc + imm20 % 2 ^ 20 * 2 ^ 12))) c) w
        (goto (following c.pc)) running holds (rw (at_auipc d op, rd_eq, imm) refl)

  -- An OP-IMM instruction on which the ALU gives `v`.
  pub step-imm :
      (f3 rs1 imm12 v : ℕ)
      → f3 < 8
      → rs1 < 32
      → let w = i_type (int Opcode.imm) rd f3 rs1 imm12 in
        Holds c c.pc w
        → alu_imm f3 (r c rs1) (signed 11 (imm12 % 2 ^ 12)) w c.pc ≡ ok v
        → StepsTo c (retired (following c.pc) (wr rd v c))
  unfolding decode exec_imm
  step-imm f3 rs1 imm12 v f3_fits rs1_fits holds alu =
      let w = i_type (int Opcode.imm) rd f3 rs1 imm12 in
      let d = decode c.pc w in
      let (op, rd_is, f3_is, rs1_is, imm) = decode-i_type c.pc (int Opcode.imm) rd f3 rs1 imm12 in
      let rd_eq : d.rd ≡ rd = omega arith in
      let f3_eq : d.funct3 ≡ f3 = omega arith in
      let rs1_eq : d.rs1 ≡ rs1 = omega arith in
      step_of_execute c (wr rd v c) w (goto (following c.pc)) running holds
        (rw (at_imm d op, rd_eq, f3_eq, rs1_eq, imm, alu) refl)

  -- JALR to an aligned target
  pub step-jalr :
      (rs1 imm12 : ℕ)
      → rs1 < 32
      → let target = u32 (and_not (pos (r c rs1) +ℤ signed 11 (imm12 % 2 ^ 12)) 1) in
        Holds c c.pc (i_type (int Opcode.jalr) rd 0 rs1 imm12)
        → target % 4 ≡ 0
        → StepsTo c (retired target (wr rd (following c.pc) c))
  unfolding decode exec_jalr
  step-jalr rs1 imm12 rs1_fits holds aligned =
      let w = i_type (int Opcode.jalr) rd 0 rs1 imm12 in
      let d = decode c.pc w in
      let (op, rd_is, f3_is, rs1_is, imm) = decode-i_type c.pc (int Opcode.jalr) rd 0 rs1 imm12 in
      let rd_eq : d.rd ≡ rd = omega arith in
      let rs1_eq : d.rs1 ≡ rs1 = omega arith in
      let target = u32 (and_not (pos (r c rs1) +ℤ signed 11 (imm12 % 2 ^ 12)) 1) in
      let low : bit_and target 3 ≡ 0 = omega (arith, bit_and_mask 2 target) in
      step_of_execute c (wr rd (following c.pc) c) w (goto target) running holds
        (rw (at_jalr d op, rd_eq, rs1_eq, imm, low) refl)
