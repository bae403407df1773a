-- ===== src/Emu/System.antt =====
-- The SYSTEM opcode of `step` in tools/refmodel/rv32i_emu.py: ECALL, EBREAK, MRET, WFI and the
-- CSR instructions, and `_take_trap`.
use risc_forge.Base.{ℕ, some, true, bit_and, bit_or, ◌==◌, if◌then◌else◌, not}
use risc_forge.Base.Bits.{◌>>>◌, bit_clear}
use risc_forge.Base.Int.{pos}
use risc_forge.Encoding.{f12_ecall, f12_ebreak}
use risc_forge.Emu.Word.{u32}
use risc_forge.Emu.Registers.{r, wr}
use risc_forge.Emu.State.{
  Cpu, ok, raise, trap, illegal, M, csr_get, csr_set, csr_mepc, csr_mcause, csr_mtvec, f12_mret,
  f12_wfi, cause_breakpoint, cause_ecall_m, HaltReason,
}

unfoldable pub take_trap : ℕ → ℕ → Cpu → ℕ × Cpu
take_trap pc cause c =
    let c' = record c {
      csrs = csr_set csr_mcause (u32 (pos cause)) (csr_set csr_mepc (u32 (pos pc)) c.csrs);
    } in
    (u32 (pos (bit_clear (csr_get csr_mtvec c'.csrs) 0x3)), c')

-- `self.halted = True; self.halt_reason = reason`
abbrev pub halt : HaltReason → Cpu → Cpu
halt reason c = record c { halted = true; halt_reason = some reason }

-- ECALL and EBREAK: a trap, or a halt
unfoldable pub env_call : ℕ → ℕ → HaltReason → ℕ → M ℕ
unfolding take_trap
env_call pc cause reason next_pc c =
    if c.trap_on_ecall
    then (ok (take_trap pc cause c).0, (take_trap pc cause c).1)
    else (ok next_pc, halt reason c)

-- CSRRW, CSRRS and CSRRC: the new value of the CSR file
unfoldable pub csr_update : ℕ → ℕ → ℕ → ℕ → Cpu → Cpu
csr_update op csr old src_val c =
    if op == 0b01
    then record c { csrs = csr_set csr (u32 (pos src_val)) c.csrs }
    else if not (src_val == 0)
    then if op == 0b10
      then record c { csrs = csr_set csr (u32 (pos (bit_or old src_val))) c.csrs }
      else if op == 0b11
      then record c { csrs = csr_set csr (u32 (pos (bit_clear old src_val))) c.csrs }
      else c
    else c

unfoldable pub csr_access : ℕ → ℕ → ℕ → ℕ → Cpu → Cpu
unfolding csr_update
csr_access rd funct3 rs1 csr c =
    let is_imm = not (bit_and funct3 0b100 == 0) in
    let src_val = if is_imm then rs1 else r c rs1 in
    let op = bit_and funct3 0b011 in
    let old = csr_get csr c.csrs in wr rd old (csr_update op csr old src_val c)

-- The branch `opcode == Opcode.SYSTEM`, which returns the next PC.
unfoldable pub exec_system : (pc inst rd funct3 rs1 next_pc : ℕ) → M ℕ
unfolding env_call csr_access
exec_system pc inst rd funct3 rs1 next_pc c =
    let funct12 = bit_and (inst >>> 20) 0xfff in
    if funct3 == 0
    then if funct12 == f12_ecall
      then env_call pc cause_ecall_m HaltReason.ecall next_pc c
      else if funct12 == f12_ebreak
      then env_call pc cause_breakpoint HaltReason.ebreak next_pc c
      else if funct12 == f12_mret
      then (ok (u32 (pos (csr_get csr_mepc c.csrs))), c)
      else if funct12 == f12_wfi
      then (ok next_pc, c)
      else (raise (trap illegal pc), c)
    else if funct3 == 0b100
    then (raise (trap illegal pc), c)
    else (ok next_pc, csr_access rd funct3 rs1 funct12 c)
