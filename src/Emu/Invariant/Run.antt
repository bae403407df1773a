-- ===== src/Emu/Invariant/Run.antt =====
-- `run` of tools/refmodel/rv32i_emu.py ends, and its reason tells how.
use risc_forge.Base.{
  ℕ, zero, suc, ◌+◌, ◌-◌, ◌≤◌, ◌<◌, ◌≡◌, refl, sym, ap, ◌∙◌, subst, false, true, not, ◌&&◌, Option,
  none, some, arith, ltb, if_cases,
}
use risc_forge.Emu.State.{Cpu, Result, ok, raise, Exn, HaltReason}
use risc_forge.Emu.Step.{StepTrace, step}
use risc_forge.Emu.Run.{
  RunReason, LoopResult, run_loop, reason_of, run, after_step, finish_run, or_halted,
}
use risc_forge.Emu.Invariant.{IsValid, is_some, SameMachine, SameMachine-refl, SameMachine-trans}
use risc_forge.Emu.Invariant.Step.{StepEnds, step-StepEnds}

-- What the text that `run` returns says of the CPU.
abbrev pub Explains : ℕ → Cpu → RunReason → Type 0
Explains max_steps c RunReason.step_limit = (c.halted ≡ false) × (max_steps ≤ c.steps)
Explains max_steps c (RunReason.stopped h) = (c.halted ≡ true) × (c.halt_reason ≡ some h)
Explains max_steps c RunReason.halted_unknown = ⊥

-- The loop left with an exception of the step at the state that it left.
abbrev pub Stuck : ℕ → Cpu → Exn → Type 0
Stuck max_steps c e = (step c ≡ (raise e, c)) × (c.halted ≡ false) × (c.steps < max_steps)

abbrev pub RunEnds : ℕ → Cpu → Option (Result RunReason × Cpu) → Type 0
RunEnds max_steps c none = ⊥
RunEnds max_steps c (some (ok reason, c')) =
    IsValid c' × SameMachine c c' × Explains max_steps c' reason
RunEnds max_steps c (some (raise e, c')) = IsValid c' × SameMachine c c' × Stuck max_steps c' e

abbrev LoopEnds : ℕ → Cpu → LoopResult → Type 0
LoopEnds max_steps c none = ⊥
LoopEnds max_steps c (some (ok _, c')) =
    IsValid c' × SameMachine c c' × ((not c'.halted && ltb c'.steps max_steps) ≡ false)
LoopEnds max_steps c (some (raise e, c')) = IsValid c' × SameMachine c c' × Stuck max_steps c' e

LoopEnds-trans :
    (max_steps : ℕ) (c c' : Cpu) (l : LoopResult)
    → SameMachine c c'
    → LoopEnds max_steps c' l
    → LoopEnds max_steps c l
LoopEnds-trans max_steps c c' none m h = h
LoopEnds-trans max_steps c c' (some (ok _, c'')) m h = (h.0, SameMachine-trans m h.1, h.2)
LoopEnds-trans max_steps c c' (some (raise e, c'')) m h = (h.0, SameMachine-trans m h.1, h.2)

after_step-LoopEnds :
    (max_steps : ℕ) (c : Cpu) (again : Cpu → LoopResult) (t : Result StepTrace × Cpu)
    → step c ≡ t
    → IsValid c
    → (not c.halted && ltb c.steps max_steps) ≡ true
    → StepEnds c t
    → ((c' : Cpu) → IsValid c' → c'.steps ≡ c.steps + 1 → LoopEnds max_steps c' (again c'))
    → LoopEnds max_steps c (after_step again t.0 t.1)
after_step-LoopEnds max_steps c again (ok t, c') e v more h rest =
    LoopEnds-trans max_steps c c' (again c') h.1 (rest c' (h.0 v) h.2)
after_step-LoopEnds max_steps c again (raise x, c') e v more h rest =
    subst (λ s. LoopEnds max_steps c (some (raise x, s))) (sym h)
      (v, SameMachine-refl c, (e ∙ ap (λ (s : Cpu). (raise x, s)) h, ground arith, ground arith))

run_loop-LoopEnds :
    (fuel max_steps : ℕ) (c : Cpu)
    → IsValid c
    → max_steps - c.steps < fuel
    → LoopEnds max_steps c (run_loop fuel max_steps c)
unfolding run_loop
run_loop-LoopEnds zero max_steps c v h = absurd (omega arith)
run_loop-LoopEnds (suc fuel) max_steps c v h =
    if_cases (LoopEnds max_steps c) (not c.halted && ltb c.steps max_steps)
      (λ more.
        after_step-LoopEnds max_steps c (run_loop fuel max_steps) (step c) refl v more
          (step-StepEnds c) (λ c' v' e. run_loop-LoopEnds fuel max_steps c' v' (ground arith)))
      (λ done. (v, SameMachine-refl c, done))

or_halted-Explains :
    (max_steps : ℕ) (c : Cpu) (o : Option HaltReason)
    → c.halt_reason ≡ o
    → c.halted ≡ is_some o
    → c.halted ≡ true
    → Explains max_steps c (or_halted o)
or_halted-Explains max_steps c none e known halted = cc
or_halted-Explains max_steps c (some h) e known halted = (halted, e)

reason_of-Explains :
    (max_steps : ℕ) (c : Cpu)
    → IsValid c
    → (not c.halted && ltb c.steps max_steps) ≡ false
    → Explains max_steps c (reason_of c)
unfolding reason_of
reason_of-Explains max_steps c v done =
    if_cases (Explains max_steps c) (not c.halted) (λ h. (ground arith, ground arith))
      (λ h. or_halted-Explains max_steps c c.halt_reason refl v.halt_known (ground arith))

finish_run-RunEnds :
    (max_steps : ℕ) (c : Cpu) (l : LoopResult)
    → LoopEnds max_steps c l
    → RunEnds max_steps c (finish_run l)
finish_run-RunEnds max_steps c none h = h
finish_run-RunEnds max_steps c (some (ok _, c')) h =
    (h.0, h.1, reason_of-Explains max_steps c' h.0 h.2)
finish_run-RunEnds max_steps c (some (raise e, c')) h = h

-- From a well-formed state `run` ends. It returns with a well-formed state of the same machine and a
-- reason that is true of it: `step-limit` if the CPU still runs and the limit is reached, otherwise
-- the recorded halt reason of a halted CPU, never the fallback; or it raises what the step at the
-- state it leaves raises, which is a running one below the limit.
pub run-RunEnds : (max_steps : ℕ) (c : Cpu) → IsValid c → RunEnds max_steps c (run max_steps c)
unfolding run
run-RunEnds max_steps c v =
    finish_run-RunEnds max_steps c _
      (run_loop-LoopEnds (suc (max_steps - c.steps)) max_steps c v (omega arith))
