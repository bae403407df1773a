-- ===== src/Emu/Invariant/Tohost.antt =====
-- The `tohost` protocol of tools/refmodel/rv32i_emu.py: what a step's trace, the halt reason and the
-- recorded value say of a store to the `tohost` address.
use risc_forge.Base.{
  ℕ, ◌≡◌, ◌≢◌, refl, sym, ap, subst, Bool, not, ◌==◌, if_both, if_cases, if◌then◌else◌, bit_and,
  Option, none, some, arith,
}
use risc_forge.Base.Bits.{◌>>>◌}
use risc_forge.Base.Int.{pos, ◌+ℤ◌, and_not}
use risc_forge.Encoding.{int, Opcode, opcode_int, f12_ecall, f12_ebreak}
use risc_forge.Emu.Word.{u32}
use risc_forge.Emu.Imm.{imm_i, imm_j, imm_s, imm_b}
use risc_forge.Emu.State.{
  Cpu, Result, ok, raise, M, ◌>>=◌, reads, csr_get, f12_mret, f12_wfi, cause_breakpoint,
  cause_ecall_m, HaltReason, tohost_pass, tohost_fail,
}
use risc_forge.Emu.Memory.{store, store_tohost, is_misaligned, mem_index, store_bytes, fetch}
use risc_forge.Emu.Registers.{r, wr}
use risc_forge.Emu.System.{take_trap, env_call, csr_update, csr_access, exec_system}
use risc_forge.Emu.Step.{
  Fields, Effect, goto, jump, branch_taken, branch_to, exec_branch, store_size, exec_store, execute,
  MemWrite, StepTrace, decode, retire, step,
}

-- The trace records a store of the value to the address.
abbrev pub StoresTo : ℕ → ℕ → Option MemWrite → Type 0
StoresTo a v none = ⊥
StoresTo a v (some w) = (w.addr ≡ a) × (w.value ≡ v)

-- The trace records no store to the address.
abbrev pub SparesFrom : ℕ → Option MemWrite → Type 0
SparesFrom a none = Unit
SparesFrom a (some w) = w.addr ≢ a

-- What a step's trace tells of `tohost` by the halt reason and the recorded value after it.
abbrev pub Told : ℕ → Option MemWrite → Option HaltReason → Option ℕ → Type 0
Told a w (some tohost_pass) v = StoresTo a 1 w × (v ≡ some 1)
Told a w (some tohost_fail) v = (x : ℕ) × StoresTo a x w × (x ≢ 1) × (v ≡ some x)
Told a w (some HaltReason.ecall) v = SparesFrom a w × (v ≡ none)
Told a w (some HaltReason.ebreak) v = SparesFrom a w × (v ≡ none)
Told a w none v = SparesFrom a w × (v ≡ none)

-- Neither a halt nor a store to `tohost` has been recorded.
abbrev pub IsUntold : Cpu → Type 0
IsUntold c = (c.halt_reason ≡ none) × (c.tohost_value ≡ none)

abbrev Tells {ℓ} : {A : Type ℓ} → (A → Option MemWrite) → ℕ → Result A × Cpu → Type 0
Tells write a (raise e, c) = Unit
Tells write a (ok x, c) = Told a (write x) c.halt_reason c.tohost_value

Untold-Told :
    (a : ℕ) (w : Option MemWrite) (c : Cpu)
    → SparesFrom a w
    → IsUntold c
    → Told a w c.halt_reason c.tohost_value
Untold-Told a w c spares h = subst (λ o. Told a w o c.tohost_value) (sym h.0) (spares, h.1)

wr-IsUntold : (idx v : ℕ) (c : Cpu) → IsUntold c → IsUntold (wr idx v c)
unfolding wr
wr-IsUntold idx v c h = if_both IsUntold (idx == 0) h h

bind-Tells {ℓ κ} :
    {A : Type ℓ} {B : Type κ} (write : B → Option MemWrite) (a : ℕ) (c : Cpu) (res : Result A)
    (f : A → M B)
    → ((x : A) → Tells write a (f x c))
    → Tells write a (◌>>=◌ (reads (λ _. res)) f c)
bind-Tells write a c (ok x) f h = h x
bind-Tells write a c (raise e) f h = tt

env_call-Tells :
    (pc cause : ℕ) (reason : HaltReason) (next_pc a : ℕ) (c : Cpu)
    → IsUntold c
    → Told a none (some reason) none
    → Tells (λ (n : ℕ). none) a (env_call pc cause reason next_pc c)
unfolding env_call take_trap
env_call-Tells pc cause reason next_pc a c h told =
    if_both (Tells (λ (n : ℕ). none) a) c.trap_on_ecall
      (Untold-Told a none (take_trap pc cause c).1 tt h)
      (subst (λ v. Told a none (some reason) v) (sym h.1) told)

csr_access-IsUntold :
    (rd f3 rs1 csr : ℕ) (c : Cpu) → IsUntold c → IsUntold (csr_access rd f3 rs1 csr c)
unfolding csr_access csr_update
csr_access-IsUntold rd f3 rs1 csr c h =
    let src_val = if not (bit_and f3 0b100 == 0) then rs1 else r c rs1 in
    let op = bit_and f3 0b011 in
    let old = csr_get csr c.csrs in
    wr-IsUntold rd old (csr_update op csr old src_val c) (
      if_both IsUntold (op == 0b01) h (
        if_both IsUntold (not (src_val == 0))
          (if_both IsUntold (op == 0b10) h (if_both IsUntold (op == 0b11) h h)) h))

exec_system-Tells :
    (pc inst rd f3 rs1 next_pc a : ℕ) (c : Cpu)
    → IsUntold c
    → Tells (λ (n : ℕ). none) a (exec_system pc inst rd f3 rs1 next_pc c)
unfolding exec_system
exec_system-Tells pc inst rd f3 rs1 next_pc a c h =
    let T : Result ℕ × Cpu → Type 0 = Tells (λ (n : ℕ). none) a in
    let f12 = bit_and (inst >>> 20) 0xfff in
    let same = Untold-Told a none c tt h in
    if_both T (f3 == 0)
      (if_both T (f12 == f12_ecall)
        (env_call-Tells pc cause_ecall_m HaltReason.ecall next_pc a c h (tt, refl))
        (if_both T (f12 == f12_ebreak)
          (env_call-Tells pc cause_breakpoint HaltReason.ebreak next_pc a c h (tt, refl))
          (if_both T (f12 == f12_mret) same (if_both T (f12 == f12_wfi) same tt))))
      (if_both T (f3 == 0b100) tt (
        Untold-Told a none (csr_access rd f3 rs1 f12 c) tt (csr_access-IsUntold rd f3 rs1 f12 c h)))

system-Tells :
    (a : ℕ) (t : Result ℕ × Cpu) (c : Cpu)
    → Tells (λ (n : ℕ). none) a t
    → Tells (λ (e : Effect). e.mem_write) a (◌>>=◌ (λ _. t) (λ next c'. (ok (goto next), c')) c)
system-Tells a (ok n, c') c h = h
system-Tells a (raise e, c') c h = tt

module _ (d : Fields) (c : Cpu) (h : IsUntold c) where
  abbrev Ends : Result Effect × Cpu → Type 0
  Ends t = Tells (λ (e : Effect). e.mem_write) c.tohost_addr t

  same : Told c.tohost_addr none c.halt_reason c.tohost_value
  same = Untold-Told c.tohost_addr none c tt h

  write_back : (idx v : ℕ) → Ends (ok (goto d.next_pc), wr idx v c)
  write_back idx v = Untold-Told c.tohost_addr none (wr idx v c) tt (wr-IsUntold idx v c h)

  jump-Tells : (target : ℕ) → Ends (jump d target c)
  unfolding jump
  jump-Tells target =
      if_both Ends (not (bit_and target 0x3 == 0)) tt
        (Untold-Told c.tohost_addr none (wr d.rd d.next_pc c) tt (wr-IsUntold d.rd d.next_pc c h))

  branch_to-Tells : (taken : Bool) → Ends (branch_to d taken, c)
  unfolding branch_to
  branch_to-Tells taken =
      let target = u32 (pos d.pc +ℤ imm_b d.inst) in
      if_both (λ t. Ends (t, c)) taken
        (if_both (λ t. Ends (t, c)) (not (bit_and target 0x3 == 0)) tt same) same

  result-Tells :
      (res : Result ℕ)
      → Ends (◌>>=◌ (reads (λ _. res)) (λ v c'. (ok (goto d.next_pc), wr d.rd v c')) c)
  result-Tells res =
      bind-Tells (λ (e : Effect). e.mem_write) c.tohost_addr c res _ (λ v. write_back d.rd v)

  abbrev stored : (addr v size next : ℕ) → Effect
  stored addr v size next = record {
    next_pc = next;
    mem_write = some (record { addr = addr; value = u32 (pos v); size = size });
  }

  -- A store, and then the effect that records it.
  abbrev Records : (addr v size next : ℕ) → Result (Unit {0}) × Cpu → Type 0
  Records addr v size next t = Ends (◌>>=◌ (λ _. t) (λ _ c'. (ok (stored addr v size next), c')) c)

  tohost-Records :
      (addr v size next : ℕ)
      → addr ≡ c.tohost_addr
      → Records addr v size next (ok tt, store_tohost v c)
  unfolding store_tohost
  tohost-Records addr v size next e =
      let w = (stored addr v size next).mem_write in
      if_cases (λ reason. Told c.tohost_addr w (some reason) (some (u32 (pos v))))
        (u32 (pos v) == 1)
        (λ one. let is_one : u32 (pos v) ≡ 1 = ground arith in ((e, is_one), ap some is_one))
        (λ other. (u32 (pos v), (e, refl), ground arith, refl))

  memory-Records :
      (addr v size next : ℕ) (res : Result ℕ)
      → addr ≢ c.tohost_addr
      → Records addr v size next (
          ◌>>=◌
            (reads (λ _. res))
            (λ i c'. (ok tt, record c' { mem = store_bytes i v size c'.mem }))
            c)
  memory-Records addr v size next (raise e) ne = tt
  memory-Records addr v size next (ok i) ne =
      Untold-Told c.tohost_addr (stored addr v size next).mem_write
        (record c { mem = store_bytes i v size c.mem }) ne h

  store-Records : (addr v size next : ℕ) → Records addr v size next (store addr v size c)
  unfolding store
  store-Records addr v size next =
      if_cases (Records addr v size next) (addr == c.tohost_addr)
        (λ e. tohost-Records addr v size next (ground arith))
        λ e.
          if_both (Records addr v size next) (is_misaligned addr size) tt
            (memory-Records addr v size next (mem_index addr size c) (ground arith))

  exec_store-Tells : Ends (exec_store d c)
  unfolding exec_store
  exec_store-Tells =
      bind-Tells (λ (e : Effect). e.mem_write) c.tohost_addr c (store_size d.funct3 d.pc) _
        λ size. store-Records (u32 (pos (r c d.rs1) +ℤ imm_s d.inst)) (r c d.rs2) size d.next_pc

  execute-Tells : Ends (execute d c)
  unfolding execute exec_branch
  execute-Tells =
      let P : M Effect → Type 0 = λ m. Ends (m c) in
      if_both P (d.opcode == int Opcode.lui) (write_back d.rd _) (
        if_both P (d.opcode == int Opcode.auipc) (write_back d.rd _) (
          if_both P (d.opcode == int Opcode.jal) (jump-Tells (u32 (pos d.pc +ℤ imm_j d.inst))) (
            if_both P (d.opcode == int Opcode.jalr)
              (jump-Tells (u32 (and_not (pos (r c d.rs1) +ℤ imm_i d.inst) 1)))
              (if_both P (d.opcode == int Opcode.branch)
                (bind-Tells (λ (e : Effect). e.mem_write) c.tohost_addr c
                  (branch_taken d.funct3 (r c d.rs1) (r c d.rs2) d.pc) _ branch_to-Tells)
                (if_both P (d.opcode == int Opcode.load) (result-Tells _) (
                  if_both P (d.opcode == int Opcode.store) exec_store-Tells (
                    if_both P (d.opcode == int Opcode.imm) (result-Tells _) (
                      if_both P (d.opcode == int Opcode.reg) (result-Tells _) (
                        if_both P (d.opcode == int Opcode.fence) same (
                          if_both P (d.opcode == int Opcode.system)
                            (system-Tells c.tohost_addr
                              (exec_system d.pc d.inst d.rd d.funct3 d.rs1 d.next_pc c) c
                              (exec_system-Tells d.pc d.inst d.rd d.funct3 d.rs1 d.next_pc
                                c.tohost_addr c h))
                            tt))))))))))

abbrev StepTells : Cpu → Result StepTrace × Cpu → Type 0
StepTells c t = Tells (λ (x : StepTrace). x.mem_write) c.tohost_addr t

retire-StepTells :
    (c : Cpu) (d : Fields) (t : Result Effect × Cpu)
    → Tells (λ (e : Effect). e.mem_write) c.tohost_addr t
    → StepTells c (◌>>=◌ (λ _. t) (retire d) c)
unfolding retire
retire-StepTells c d (ok e, c') h = h
retire-StepTells c d (raise e, c') h = tt

fetched-StepTells :
    (c : Cpu) (res : Result ℕ)
    → IsUntold c
    → StepTells c (
        ◌>>=◌
          (reads (λ _. res))
          (λ inst. ◌>>=◌ (execute (decode c.pc inst)) (retire (decode c.pc inst)))
          c)
fetched-StepTells c (ok inst) h =
    retire-StepTells c (decode c.pc inst) (execute (decode c.pc inst) c)
      (execute-Tells (decode c.pc inst) c h)
fetched-StepTells c (raise e) h = tt

step-StepTells : (c : Cpu) → IsUntold c → StepTells c (step c)
unfolding step
step-StepTells c h = if_both (StepTells c) c.halted tt (fetched-StepTells c (fetch c.pc c) h)

-- For every state in which neither a halt nor a store to `tohost` has been recorded, and every step
-- that returns: the halt reason is `tohost-pass` only if the step's trace is a store of 1 to `tohost`,
-- and the recorded value is then 1; it is `tohost-fail` only if the trace is a store of another value
-- to `tohost`, which is then the recorded one; otherwise the trace has no store to `tohost` and no
-- value is recorded.
pub step-Told :
    (c c' : Cpu) (t : StepTrace)
    → IsUntold c
    → step c ≡ (ok t, c')
    → Told c.tohost_addr t.mem_write c'.halt_reason c'.tohost_value
step-Told c c' t h e = subst (StepTells c) e (step-StepTells c h)
