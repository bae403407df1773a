-- ===== src/Emu/Invariant/Execute.antt =====
-- Each branch of the dispatch in `step` of tools/refmodel/rv32i_emu.py either returns, having kept
-- the state well formed, or raises before it changes anything.
use risc_forge.Base.{ℕ, refl, Bool, not, ◌==◌, if_both, if◌then◌else◌, bit_and, bit_or}
use risc_forge.Base.Bits.{◌>>>◌, bit_clear}
use risc_forge.Base.Int.{pos, ◌+ℤ◌}
use risc_forge.Encoding.{
  int, Opcode, opcode_int, f3_branch_int, f3_load_int, f3_store_int, f12_ecall, f12_ebreak,
}
use risc_forge.Emu.Word.{u32, u32-lt}
use risc_forge.Emu.Imm.{imm_s, imm_b, imm_u}
use risc_forge.Emu.State.{
  Cpu, Result, ok, M, ◌>>=◌, reads, csr_get, csr_mepc, csr_mcause, f12_mret, f12_wfi,
  cause_breakpoint, cause_ecall_m, HaltReason,
}
use risc_forge.Emu.Memory.{store}
use risc_forge.Emu.Registers.{r, wr}
use risc_forge.Emu.System.{take_trap, env_call, csr_update, csr_access, exec_system}
use risc_forge.Emu.Step.{
  Fields, Effect, goto, jump, branch_taken, branch_to, exec_branch, store_size, exec_store, execute,
}
use risc_forge.Emu.Invariant.{IsWord, Evolves, Evolves-refl, Evolves-trans, Outcome}
use risc_forge.Emu.Invariant.Parts.{
  wr-Evolves, csrs-Evolves, halt-Evolves, store-Outcome, reads-Outcome, map-Outcome, Any,
}

-- The next PC of an instruction has 32 bits.
abbrev pub GoesOn : Effect → Type 0
GoesOn e = IsWord e.next_pc

take_trap-Evolves : (pc cause : ℕ) (c : Cpu) → Evolves c (take_trap pc cause c).1
unfolding take_trap
take_trap-Evolves pc cause c =
    Evolves-trans (csrs-Evolves csr_mepc (pos pc) c) (csrs-Evolves csr_mcause (pos cause) _)

env_call-Outcome :
    (pc cause : ℕ) (reason : HaltReason) (next_pc : ℕ) (c : Cpu)
    → IsWord next_pc
    → Outcome IsWord c (env_call pc cause reason next_pc c)
unfolding env_call
env_call-Outcome pc cause reason next_pc c h =
    if_both (Outcome IsWord c) c.trap_on_ecall
      (take_trap-Evolves pc cause c, unfold take_trap in u32-lt _) (halt-Evolves reason c, h)

csr_update-Evolves : (op csr old v : ℕ) (c : Cpu) → Evolves c (csr_update op csr old v c)
unfolding csr_update
csr_update-Evolves op csr old v c = if_both (Evolves c) (op == 0b01) (csrs-Evolves csr (pos v) c) (
    if_both (Evolves c) (not (v == 0))
      (if_both (Evolves c) (op == 0b10) (csrs-Evolves csr (pos (bit_or old v)) c) (
        if_both (Evolves c) (op == 0b11) (csrs-Evolves csr (pos (bit_clear old v)) c)
          (Evolves-refl c)))
      (Evolves-refl c))

csr_access-Evolves : (rd f3 rs1 csr : ℕ) (c : Cpu) → Evolves c (csr_access rd f3 rs1 csr c)
unfolding csr_access
csr_access-Evolves rd f3 rs1 csr c =
    let src_val = if not (bit_and f3 0b100 == 0) then rs1 else r c rs1 in
    let old = csr_get csr c.csrs in
    Evolves-trans (csr_update-Evolves (bit_and f3 0b011) csr old src_val c) (wr-Evolves rd old _)

exec_system-Outcome :
    (pc inst rd f3 rs1 next_pc : ℕ) (c : Cpu)
    → IsWord next_pc
    → Outcome IsWord c (exec_system pc inst rd f3 rs1 next_pc c)
unfolding exec_system
exec_system-Outcome pc inst rd f3 rs1 next_pc c h =
    let f12 = bit_and (inst >>> 20) 0xfff in
    if_both (Outcome IsWord c) (f3 == 0)
      (if_both (Outcome IsWord c) (f12 == f12_ecall)
        (env_call-Outcome pc cause_ecall_m HaltReason.ecall next_pc c h)
        (if_both (Outcome IsWord c) (f12 == f12_ebreak)
          (env_call-Outcome pc cause_breakpoint HaltReason.ebreak next_pc c h)
          (if_both (Outcome IsWord c) (f12 == f12_mret) (Evolves-refl c, u32-lt _)
            (if_both (Outcome IsWord c) (f12 == f12_wfi) (Evolves-refl c, h) refl))))
      (if_both (Outcome IsWord c) (f3 == 0b100) refl (csr_access-Evolves rd f3 rs1 f12 c, h))

module _ (d : Fields) (next_word : IsWord d.next_pc) (c : Cpu) where
  -- The run of a method from the state `c`.
  abbrev Ends : M Effect → Type 0
  Ends m = Outcome GoesOn c (m c)

  jump-Outcome : (target : ℕ) → IsWord target → Outcome GoesOn c (jump d target c)
  unfolding jump
  jump-Outcome target h =
      if_both (Outcome GoesOn c) (not (bit_and target 0x3 == 0)) refl
        (wr-Evolves d.rd d.next_pc c, h)

  branch_to-Outcome : (taken : Bool) → Outcome GoesOn c (reads (λ _. branch_to d taken) c)
  unfolding branch_to
  branch_to-Outcome taken =
      let target = u32 (pos d.pc +ℤ imm_b d.inst) in
      if_both (λ t. Outcome GoesOn c (t, c)) taken
        (if_both (λ t. Outcome GoesOn c (t, c)) (not (bit_and target 0x3 == 0)) refl
          (Evolves-refl c, u32-lt _))
        (Evolves-refl c, next_word)

  exec_branch-Outcome : Outcome GoesOn c (exec_branch d c)
  unfolding exec_branch
  exec_branch-Outcome =
      reads-Outcome GoesOn c (branch_taken d.funct3 (r c d.rs1) (r c d.rs2) d.pc)
        (λ taken. reads (λ _. branch_to d taken)) branch_to-Outcome

  write_back-Outcome :
      (res : Result ℕ)
      → Outcome GoesOn c (◌>>=◌ (reads (λ _. res)) (λ v c'. (ok (goto d.next_pc), wr d.rd v c')) c)
  write_back-Outcome res =
      reads-Outcome GoesOn c res (λ v c'. (ok (goto d.next_pc), wr d.rd v c'))
        (λ v. (wr-Evolves d.rd v c, next_word))

  exec_store-Outcome : Outcome GoesOn c (exec_store d c)
  unfolding exec_store
  exec_store-Outcome = reads-Outcome GoesOn c (store_size d.funct3 d.pc) _ (λ size.
      map-Outcome Any GoesOn c (store (u32 (pos (r c d.rs1) +ℤ imm_s d.inst)) (r c d.rs2) size c) _
        (store-Outcome (u32 (pos (r c d.rs1) +ℤ imm_s d.inst)) (r c d.rs2) size c)
        (λ _ _. next_word))

  pub execute-Outcome : Outcome GoesOn c (execute d c)
  unfolding execute
  execute-Outcome =
      if_both Ends (d.opcode == int Opcode.lui) (wr-Evolves d.rd (imm_u d.inst) c, next_word)
        (if_both Ends (d.opcode == int Opcode.auipc) (wr-Evolves d.rd _ c, next_word)
          (if_both Ends (d.opcode == int Opcode.jal) (jump-Outcome _ (u32-lt _)) (
            if_both Ends (d.opcode == int Opcode.jalr) (jump-Outcome _ (u32-lt _)) (
              if_both Ends (d.opcode == int Opcode.branch) exec_branch-Outcome (
                if_both Ends (d.opcode == int Opcode.load) (write_back-Outcome _) (
                  if_both Ends (d.opcode == int Opcode.store) exec_store-Outcome (
                    if_both Ends (d.opcode == int Opcode.imm) (write_back-Outcome _) (
                      if_both Ends (d.opcode == int Opcode.reg) (write_back-Outcome _) (
                        if_both Ends (d.opcode == int Opcode.fence) (Evolves-refl c, next_word)
                          (if_both Ends (d.opcode == int Opcode.system)
                            (map-Outcome IsWord GoesOn c _ goto
                              (exec_system-Outcome d.pc d.inst d.rd d.funct3 d.rs1 d.next_pc c
                                next_word)
                              (λ _ h. h))
                            refl))))))))))
