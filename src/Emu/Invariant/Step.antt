-- ===== src/Emu/Invariant/Step.antt =====
-- What one call of `step` of tools/refmodel/rv32i_emu.py keeps, and what it leaves on an exception.
use risc_forge.Base.{ℕ, ◌+◌, ◌≡◌, refl, sym, ap, subst, false, if_cases}
use risc_forge.Base.Int.{pos}
use risc_forge.Emu.Word.{u32-lt}
use risc_forge.Emu.State.{Cpu, Result, ok, raise, Exn, ◌>>=◌, reads}
use risc_forge.Emu.Memory.{fetch}
use risc_forge.Emu.Step.{StepTrace, Fields, decode, Effect, execute, retire, step}
use risc_forge.Emu.Invariant.{IsWord, IsValid, SameMachine, Outcome}
use risc_forge.Emu.Invariant.Execute.{GoesOn, execute-Outcome}

-- A step that returns keeps a state well formed and the machine what it is, counts one more
-- instruction and traces the PC that it was at; one that raises has changed nothing.
abbrev pub StepEnds : Cpu → Result StepTrace × Cpu → Type 0
StepEnds c (ok t, c') =
    (IsValid c → IsValid c')
    × SameMachine c c'
    × (c'.steps ≡ c.steps + 1)
    × (t.pc ≡ c.pc)
    × (c.halted ≡ false)
StepEnds c (raise e, c') = c' ≡ c

next_pc-IsWord : (pc inst : ℕ) → IsWord (decode pc inst).next_pc
unfolding decode
next_pc-IsWord pc inst = u32-lt (pos (pc + 4))

retire-StepEnds :
    (c : Cpu) (d : Fields) (t : Result Effect × Cpu)
    → c.halted ≡ false
    → d.pc ≡ c.pc
    → Outcome GoesOn c t
    → StepEnds c (◌>>=◌ (λ _. t) (retire d) c)
unfolding retire
retire-StepEnds c d (ok e, c₁) running at_pc h = (
  λ v.
      let v₁ = h.0.keeps v in
      record {
        regs_length = v₁.regs_length;
        regs_words = v₁.regs_words;
        x0_zero = v₁.x0_zero;
        pc_word = h.1;
        mem_bytes = v₁.mem_bytes;
        csrs_words = v₁.csrs_words;
        halt_known = v₁.halt_known;
      },
  record {
    mem_size = h.0.machine.mem_size;
    mem_base = h.0.machine.mem_base;
    tohost_addr = h.0.machine.tohost_addr;
    trap_on_ecall = h.0.machine.trap_on_ecall;
  },
  ap (λ (n : ℕ). n + 1) h.0.same_steps,
  at_pc,
  running,
)
retire-StepEnds c d (raise e, c₁) running at_pc h = h

from_fetch-StepEnds :
    (c : Cpu) (res : Result ℕ)
    → c.halted ≡ false
    → StepEnds c (
        ◌>>=◌
          (reads (λ _. res))
          (λ inst. ◌>>=◌ (execute (decode c.pc inst)) (retire (decode c.pc inst)))
          c)
unfolding decode
from_fetch-StepEnds c (ok inst) running =
    retire-StepEnds c (decode c.pc inst) (execute (decode c.pc inst) c) running refl
      (execute-Outcome (decode c.pc inst) (next_pc-IsWord c.pc inst) c)
from_fetch-StepEnds c (raise e) running = refl

pub step-StepEnds : (c : Cpu) → StepEnds c (step c)
unfolding step
step-StepEnds c = if_cases (StepEnds c) c.halted (λ _. refl) (from_fetch-StepEnds c (fetch c.pc c))

ends-IsValid : (c : Cpu) (t : Result StepTrace × Cpu) → IsValid c → StepEnds c t → IsValid t.1
ends-IsValid c (ok t, c') v h = h.0 v
ends-IsValid c (raise e, c') v h = subst IsValid (sym h) v

-- A step keeps a state well formed, on every instruction word and also where it raises.
pub step-IsValid : (c : Cpu) → IsValid c → IsValid (step c).1
step-IsValid c v = ends-IsValid c (step c) v (step-StepEnds c)

-- Whatever exception a step raises, the registers, the memory, the CSRs, the PC and the counters
-- are as before the step.
pub step_atomic : (c c' : Cpu) (e : Exn) → step c ≡ (raise e, c') → c' ≡ c
step_atomic c c' e h = subst (StepEnds c) h (step-StepEnds c)

-- A step that returns has executed the instruction at the PC of a CPU that was not halted, counts
-- it, and leaves the memory's size and base, the `tohost` address and the trap mode alone.
pub step_frame :
    (c c' : Cpu) (t : StepTrace)
    → step c ≡ (ok t, c')
    → SameMachine c c' × (c'.steps ≡ c.steps + 1) × (t.pc ≡ c.pc) × (c.halted ≡ false)
step_frame c c' t h =
    let ends = subst (StepEnds c) h (step-StepEnds c) in (ends.1, ends.2, ends.3, ends.4)
