-- ===== src/Emu/Run.antt =====
-- `run` of tools/refmodel/rv32i_emu.py. The loop takes one round of fuel for each step.
use risc_forge.Base.{ℕ, zero, suc, ◌-◌, ◌&&◌, not, Option, none, some, ltb, if◌then◌else◌}
use risc_forge.Emu.State.{Cpu, Result, ok, raise, HaltReason}
use risc_forge.Emu.Step.{StepTrace, step}

-- The text that `run` returns.
pub data RunReason : Type 0 where
  step_limit halted_unknown : RunReason
  stopped : HaltReason → RunReason

-- The loop's result: it raised, or it left by its test; `none` if the fuel ran out.
abbrev pub LoopResult : Type 0
LoopResult = Option (Result (Unit {0}) × Cpu)

-- An exception leaves the loop.
abbrev pub after_step : (Cpu → LoopResult) → Result StepTrace → Cpu → LoopResult
after_step again (ok _) c = again c
after_step again (raise e) c = some (raise e, c)

unfoldable pub run_loop : ℕ → ℕ → Cpu → LoopResult
run_loop zero max_steps c = none
run_loop (suc fuel) max_steps c =
    let again = run_loop fuel max_steps in
    let round = after_step again (step c).0 (step c).1 in
    if not c.halted && ltb c.steps max_steps then round else some (ok tt, c)

-- `self.halt_reason or "halted"`
abbrev pub or_halted : Option HaltReason → RunReason
or_halted none = RunReason.halted_unknown
or_halted (some h) = RunReason.stopped h

unfoldable pub reason_of : Cpu → RunReason
reason_of c = if not c.halted then RunReason.step_limit else or_halted c.halt_reason

abbrev pub finish_run : LoopResult → Option (Result RunReason × Cpu)
finish_run none = none
finish_run (some (ok _, c)) = some (ok (reason_of c), c)
finish_run (some (raise e, c)) = some (raise e, c)

unfoldable pub run : ℕ → Cpu → Option (Result RunReason × Cpu)
unfolding run_loop reason_of
run max_steps c = finish_run (run_loop (suc (max_steps - c.steps)) max_steps c)
