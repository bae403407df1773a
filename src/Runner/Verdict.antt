-- ===== src/Runner/Verdict.antt =====
-- What the verdict of `run_test` in tools/refmodel/riscv_tests_runner.py says of the emulator's run.
use risc_forge.Base.{
  ℕ, ◌/◌, ◌≡◌, ◌≢◌, ◌↔◌, refl, ap, sym, subst, ◌∙◌, List, [], ◌∷◌, Option, none, some, Bool, true,
  false, arith, All,
}
use risc_forge.Emu.State.{Cpu, Result, ok, raise, Exn, trap, HaltReason, tohost_pass, tohost_fail}
use risc_forge.Emu.Step.{step}
use risc_forge.Emu.Run.{RunReason, stopped, run}
use risc_forge.Emu.Invariant.{IsValid, IsWord}
use risc_forge.Emu.Invariant.Run.{RunEnds, run-RunEnds, Explains}
use risc_forge.Emu.Invariant.Tohost.{IsUntold}
use risc_forge.Emu.Invariant.Path.{Reaches, StoresLast, LastTold}
use risc_forge.Emu.Invariant.Ending.{run-LastTold, StoresLast-run, run-Reaches}
use risc_forge.Runner.{
  Segment, Elf, load_elf, boot, Reason, passed, no_tohost, no_segments, trapped, failed_subtest,
  other_halt, or_zero, judge, outcome, run_segments, after_boot, run_test, max_steps,
}
use risc_forge.Runner.Boot.{IsBytes, boot-IsValid, boot-IsUntold}

abbrev pub IsLoadable : Segment → Type 0
IsLoadable s = IsBytes s × IsWord s.0

-- From the booted CPU, the `n`-th step of the emulator stores 1 to the `tohost` symbol's address, within
-- the limit.
abbrev pub PassesAfter : ℕ → List Segment → Option ℕ → Type 0
PassesAfter n segments none = ⊥
PassesAfter n [] (some tohost) = ⊥
PassesAfter n (s ∷ segments) (some tohost) =
    (c : Cpu) × StoresLast tohost 1 max_steps (boot s segments tohost).1 c × (c.steps ≡ n)

-- The step at a well-formed state which still runs, and which steps have reached, raises.
abbrev pub IsStuck : Cpu → Exn → Type 0
IsStuck c₀ e = (c : Cpu) × Reaches c₀ c × IsValid c × (step c ≡ (raise e, c)) × (c.halted ≡ false)

-- A reason that is no store to `tohost`.
abbrev pub IsOther : RunReason → Type 0
IsOther (stopped tohost_pass) = ⊥
IsOther (stopped tohost_fail) = ⊥
IsOther reason = Unit

-- What a result tells of the run from `c₀`: a pass is a store of 1 to `tohost`, a failing subtest one
-- of another value; a reported trap is raised by a step, any other halt explains the state at the
-- end; and an exception that is not caught is raised by a step and is no `Trap`.
abbrev pub EndsRun : Cpu → ℕ → Option (Result (Bool × Reason)) → Type 0
EndsRun c₀ a none = ⊥
EndsRun c₀ a (some (raise (trap kind pc))) = ⊥
EndsRun c₀ a (some (raise Exn.runtime_error)) = IsStuck c₀ Exn.runtime_error
EndsRun c₀ a (some (raise Exn.value_error)) = IsStuck c₀ Exn.value_error
EndsRun c₀ a (some (ok (true, passed n))) =
    (c : Cpu) × StoresLast a 1 max_steps c₀ c × (c.steps ≡ n)
EndsRun c₀ a (some (ok (false, trapped kind pc))) = IsStuck c₀ (trap kind pc)
EndsRun c₀ a (some (ok (false, failed_subtest v subtest))) =
    (c : Cpu) × StoresLast a v max_steps c₀ c × (v ≢ 1) × (subtest ≡ v / 2)
EndsRun c₀ a (some (ok (false, other_halt reason pc n))) =
    (c : Cpu) × Reaches c₀ c
    × IsOther reason
    × Explains max_steps c reason
    × (c.pc ≡ pc)
    × (c.steps ≡ n)
EndsRun c₀ a (some (ok v)) = ⊥

-- The result of `run_test` for the segments and the `tohost` symbol of a binary.
abbrev pub IsVerdict : List Segment → Option ℕ → Option (Result (Bool × Reason)) → Type 0
IsVerdict segments none res = res ≡ some (ok (false, no_tohost))
IsVerdict [] (some tohost) res = res ≡ some (ok (false, no_segments))
IsVerdict (s ∷ segments) (some tohost) res = EndsRun (boot s segments tohost).1 tohost res

All-first :
    (s : Segment) (segments : List Segment)
    → All IsLoadable (s ∷ segments)
    → All IsBytes (s ∷ segments)
All-first s [] h = (h.0.0, tt)
All-first s (s' ∷ segments) h = (h.0.0, All-first s' segments h.1)

-- A state from which a test is run.
record IsStart (c : Cpu) (a : ℕ) : Type 0 where
  valid : IsValid c
  untold : IsUntold c
  at_tohost : c.tohost_addr ≡ a
  at_zero : c.steps ≡ 0

boot-IsStart :
    (s : Segment) (segments : List Segment) (tohost : ℕ)
    → All IsLoadable (s ∷ segments)
    → IsStart (boot s segments tohost).1 tohost
boot-IsStart s segments tohost h =
    let (untold, addr, zero_steps) = boot-IsUntold s segments tohost in
    record {
      valid = (boot-IsValid s segments tohost (All-first s segments h) h.0.1).1;
      untold = untold;
      at_tohost = addr;
      at_zero = zero_steps;
    }

stopped-LastTold :
    (a : ℕ) (c c' : Cpu) (h : HaltReason)
    → IsStart c a
    → run max_steps c ≡ some (ok (stopped h), c')
    → LastTold max_steps c c' (some h)
stopped-LastTold a c c' h s e =
    run-LastTold max_steps c c' h s.valid s.untold (omega (arith, s.at_zero)) e

failed-EndsRun :
    (a : ℕ) (c c' : Cpu)
    → IsStart c a
    → run max_steps c ≡ some (ok (stopped tohost_fail), c')
    → EndsRun c a (some (ok (judge (stopped tohost_fail) c')))
unfolding judge
failed-EndsRun a c c' s e =
    let (x, stores, other, value) = stopped-LastTold a c c' tohost_fail s e in
    let same : or_zero c'.tohost_value ≡ x = ap or_zero value in
    (
      c',
      subst (λ v. StoresLast a v max_steps c c') (sym same)
          (subst (λ b. StoresLast b x max_steps c c') s.at_tohost stores),
      λ one. other (sym same ∙ one),
      refl,
    )

passed-StoresLast :
    (a : ℕ) (c c' : Cpu)
    → IsStart c a
    → run max_steps c ≡ some (ok (stopped tohost_pass), c')
    → StoresLast a 1 max_steps c c'
passed-StoresLast a c c' s e =
    subst (λ b. StoresLast b 1 max_steps c c') s.at_tohost (stopped-LastTold a c c' tohost_pass s e)

reached :
    (a : ℕ) (c c' : Cpu) (res : Result RunReason)
    → IsStart c a
    → run max_steps c ≡ some (res, c')
    → Reaches c c'
reached a c c' res s e = run-Reaches max_steps c c' res (omega (arith, s.at_zero)) e

outcome-EndsRun :
    (a : ℕ) (c : Cpu) (o : Option (Result RunReason × Cpu))
    → IsStart c a
    → run max_steps c ≡ o
    → RunEnds max_steps c o
    → EndsRun c a (outcome o)
unfolding outcome judge
outcome-EndsRun a c none s e h = h
outcome-EndsRun a c (some (ok (stopped tohost_pass), c')) s e h =
    (c', passed-StoresLast a c c' s e, refl)
outcome-EndsRun a c (some (ok (stopped tohost_fail), c')) s e h = failed-EndsRun a c c' s e
outcome-EndsRun a c (some (ok (stopped HaltReason.ecall), c')) s e h =
    (c', reached a c c' _ s e, tt, h.2, refl, refl)
outcome-EndsRun a c (some (ok (stopped HaltReason.ebreak), c')) s e h =
    (c', reached a c c' _ s e, tt, h.2, refl, refl)
outcome-EndsRun a c (some (ok RunReason.step_limit, c')) s e h =
    (c', reached a c c' _ s e, tt, h.2, refl, refl)
outcome-EndsRun a c (some (ok RunReason.halted_unknown, c')) s e h = absurd h.2
outcome-EndsRun a c (some (raise (trap kind pc), c')) s e h =
    (c', reached a c c' _ s e, h.0, h.2.0, h.2.1)
outcome-EndsRun a c (some (raise Exn.runtime_error, c')) s e h =
    (c', reached a c c' _ s e, h.0, h.2.0, h.2.1)
outcome-EndsRun a c (some (raise Exn.value_error, c')) s e h =
    (c', reached a c c' _ s e, h.0, h.2.0, h.2.1)

judge-passed :
    (reason : RunReason) (c : Cpu) (n : ℕ)
    → (judge reason c ≡ (true, passed n)) ↔ ((reason ≡ stopped tohost_pass) × (c.steps ≡ n))
unfolding judge
judge-passed (stopped tohost_pass) c n = ground arith
judge-passed (stopped tohost_fail) c n = ground arith
judge-passed (stopped HaltReason.ecall) c n = ground arith
judge-passed (stopped HaltReason.ebreak) c n = ground arith
judge-passed RunReason.step_limit c n = ground arith
judge-passed RunReason.halted_unknown c n = ground arith

abbrev EndsPassed : ℕ → Option (Result RunReason × Cpu) → Type 0
EndsPassed n o = (c : Cpu) × (o ≡ some (ok (stopped tohost_pass), c)) × (c.steps ≡ n)

outcome-passed :
    (n : ℕ) (o : Option (Result RunReason × Cpu))
    → (outcome o ≡ some (ok (true, passed n))) ↔ EndsPassed n o
unfolding outcome
outcome-passed n none = (λ h. absurd (ground arith), λ h. absurd (ground arith))
outcome-passed n (some (ok reason, c)) =
    let same = judge-passed reason c n in
    (
      λ h. let j = same.0 (ground arith) in (c, ap (λ (x : RunReason). some (ok x, c)) j.0, j.1),
      λ (c', e, steps).
          let j : judge reason c ≡ (true, passed n) = same.1 (ground arith, ground arith) in
          rw j refl,
    )
outcome-passed n (some (raise (trap kind pc), c)) =
    (λ h. absurd (ground arith), λ h. absurd (ground arith))
outcome-passed n (some (raise Exn.runtime_error, c)) =
    (λ h. absurd (ground arith), λ h. absurd (ground arith))
outcome-passed n (some (raise Exn.value_error, c)) =
    (λ h. absurd (ground arith), λ h. absurd (ground arith))

after_boot-ok :
    (r : Result (Unit {0}) × Cpu) → r.0 ≡ ok tt → after_boot r ≡ outcome (run max_steps r.1)
after_boot-ok (ok u, c) h = refl
after_boot-ok (raise e, c) h = absurd (ground arith)

run_segments-IsVerdict :
    (segments : List Segment) (tohost : Option ℕ)
    → All IsLoadable segments
    → IsVerdict segments tohost (run_segments segments tohost)
run_segments-IsVerdict segments none h = refl
run_segments-IsVerdict [] (some tohost) h = refl
run_segments-IsVerdict (s ∷ segments) (some tohost) h =
    let b = boot s segments tohost in
    let ready = boot-IsValid s segments tohost (All-first s segments h) h.0.1 in
    rw (after_boot-ok b ready.0) (
      outcome-EndsRun tohost b.1 (run max_steps b.1) (boot-IsStart s segments tohost h) refl
        (run-RunEnds max_steps b.1 ready.1))

EndsPassed-StoresLast :
    (a n : ℕ) (c : Cpu)
    → IsStart c a
    → EndsPassed n (run max_steps c) ↔ ((c' : Cpu) × StoresLast a 1 max_steps c c' × (c'.steps ≡ n))
EndsPassed-StoresLast a n c s = (
  λ (c', e, steps). (c', passed-StoresLast a c c' s e, steps),
  λ (c', stores, steps). (
    c',
    StoresLast-run max_steps c c' s.valid s.untold (omega (arith, s.at_zero))
        (subst (λ b. StoresLast b 1 max_steps c c') (sym s.at_tohost) stores),
    steps,
  ),
)

run_segments-passes :
    (segments : List Segment) (tohost : Option ℕ) (n : ℕ)
    → All IsLoadable segments
    → (run_segments segments tohost ≡ some (ok (true, passed n))) ↔ PassesAfter n segments tohost
run_segments-passes segments none n h = (λ e. absurd (ground arith), λ e. absurd e)
run_segments-passes [] (some tohost) n h = (λ e. absurd (ground arith), λ e. absurd e)
run_segments-passes (s ∷ segments) (some tohost) n h =
    let b = boot s segments tohost in
    let ready = boot-IsValid s segments tohost (All-first s segments h) h.0.1 in
    let first = outcome-passed n (run max_steps b.1) in
    let second = EndsPassed-StoresLast tohost n b.1 (boot-IsStart s segments tohost h) in
    rw (after_boot-ok b ready.0) (λ e. second.0 (first.0 e), λ e. first.1 (second.1 e))

-- For every binary whose segments hold bytes and start below 2 ^ 32: `run_test` ends, and loading a
-- segment never raises. Without a `tohost` symbol or without a segment it reports that. Otherwise it
-- reports a pass only after a step of the emulator that stores 1 to `tohost`, a failing subtest only
-- after one that stores another value, whose half is the subtest, a trap that a step at a reached
-- state raises, or another end of the run, whose reason is neither `tohost-pass` nor `tohost-fail` and is
-- true of the reached state at the end; or it raises what such a step raises, which is no `Trap`.
pub run_test-IsVerdict :
    (elf : Elf)
    → All IsLoadable (load_elf elf).0
    → IsVerdict (load_elf elf).0 (load_elf elf).1 (run_test elf)
unfolding run_test
run_test-IsVerdict elf h = run_segments-IsVerdict (load_elf elf).0 (load_elf elf).1 h

-- For every binary whose segments hold bytes and start below 2 ^ 32, and every `n`: `run_test` reports
-- a pass after `n` steps exactly when the binary has a `tohost` symbol and a segment, and the `n`-th
-- step of the emulator from the loaded segments, with `n` at most MAX_STEPS, is traced as a store of 1
-- to the symbol's address.
pub run_test-passes :
    (elf : Elf) (n : ℕ)
    → All IsLoadable (load_elf elf).0
    → (run_test elf ≡ some (ok (true, passed n))) ↔ PassesAfter n (load_elf elf).0 (load_elf elf).1
unfolding run_test
run_test-passes elf n h = run_segments-passes (load_elf elf).0 (load_elf elf).1 n h
