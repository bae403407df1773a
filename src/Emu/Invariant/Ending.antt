-- ===== src/Emu/Invariant/Ending.antt =====
-- How the loop of `run` in tools/refmodel/rv32i_emu.py ends, as a sequence of steps.
use risc_forge.Base.{
  ℕ, zero, suc, ◌-◌, ◌≤◌, ◌<◌, ◌≡◌, refl, sym, ap, ◌∙◌, subst, false, true, not, ◌&&◌, Option, none,
  some, arith, ltb, if_cases,
}
use risc_forge.Emu.State.{Cpu, Result, ok, raise, HaltReason, tohost_pass, tohost_fail}
use risc_forge.Emu.Step.{MemWrite, StepTrace, step}
use risc_forge.Emu.Run.{
  RunReason, LoopResult, run_loop, reason_of, run, after_step, finish_run, stopped, or_halted,
}
use risc_forge.Emu.Invariant.{IsValid, is_some}
use risc_forge.Emu.Invariant.Step.{step_frame, step_atomic}
use risc_forge.Emu.Invariant.Tohost.{StoresTo, Told, IsUntold}
use risc_forge.Emu.Invariant.Path.{
  Reaches, StoresLast, next-IsReady, Reaches-IsReady, LastTold, step-Told_from, Reaches-LastTold,
}

-- The loop's end is reached by steps.
abbrev LoopReaches : ℕ → Cpu → LoopResult → Type 0
LoopReaches max_steps c none = Unit
LoopReaches max_steps c (some (res, c')) = Reaches c c' × (c'.steps ≤ max_steps)

after_step-LoopReaches :
    (max_steps : ℕ) (c₀ c : Cpu) (again : Cpu → LoopResult) (t : Result StepTrace × Cpu)
    → step c ≡ t
    → Reaches c₀ c
    → c.steps < max_steps
    → ((c' : Cpu) → Reaches c₀ c' → c'.steps ≤ max_steps → LoopReaches max_steps c₀ (again c'))
    → LoopReaches max_steps c₀ (after_step again t.0 t.1)
after_step-LoopReaches max_steps c₀ c again (ok t, c') e r small rest =
    let frame = step_frame c c' t e in rest c' (Reaches.next r e) (omega (arith, frame.1))
after_step-LoopReaches max_steps c₀ c again (raise x, c') e r small rest =
    let same : c' ≡ c = step_atomic c c' x e in
    subst (λ s. Reaches c₀ s × (s.steps ≤ max_steps)) (sym same) (r, omega arith)

run_loop-LoopReaches :
    (fuel max_steps : ℕ) (c₀ c : Cpu)
    → Reaches c₀ c
    → c.steps ≤ max_steps
    → LoopReaches max_steps c₀ (run_loop fuel max_steps c)
unfolding run_loop
run_loop-LoopReaches zero max_steps c₀ c r small = tt
run_loop-LoopReaches (suc fuel) max_steps c₀ c r small =
    if_cases (LoopReaches max_steps c₀) (not c.halted && ltb c.steps max_steps)
      (λ more.
        after_step-LoopReaches max_steps c₀ c (run_loop fuel max_steps) (step c) refl r
          (ground arith) (λ c' r' s. run_loop-LoopReaches fuel max_steps c₀ c' r' s))
      (λ done. (r, small))

run_loop-step :
    (fuel max_steps : ℕ) (c c' : Cpu) (t : StepTrace)
    → step c ≡ (ok t, c')
    → c.halted ≡ false
    → c.steps < max_steps
    → run_loop (suc fuel) max_steps c ≡ run_loop fuel max_steps c'
unfolding run_loop
run_loop-step fuel max_steps c c' t e running small =
    if_cases (λ x. x ≡ run_loop fuel max_steps c') (not c.halted && ltb c.steps max_steps)
      (λ _. ap (λ x. after_step (run_loop fuel max_steps) x.0 x.1) e) (λ f. absurd (ground arith))

run_loop-halted :
    (fuel max_steps : ℕ) (c : Cpu)
    → c.halted ≡ true
    → 0 < fuel
    → run_loop fuel max_steps c ≡ some (ok tt, c)
unfolding run_loop
run_loop-halted zero max_steps c h p = absurd (omega arith)
run_loop-halted (suc fuel) max_steps c h p =
    if_cases (λ x. x ≡ some (ok tt, c)) (not c.halted && ltb c.steps max_steps)
      (λ f. absurd (ground arith)) (λ _. refl)

-- The loop goes the way of the steps.
abbrev GoesTo : (fuel max_steps : ℕ) → Cpu → Cpu → Type 0
GoesTo fuel max_steps c c' =
    (left : ℕ) × (run_loop fuel max_steps c ≡ run_loop left max_steps c')
    × (max_steps - c'.steps < left)

next-GoesTo :
    (fuel max_steps : ℕ) (c c' c'' : Cpu) (t : StepTrace)
    → step c' ≡ (ok t, c'')
    → c''.steps ≤ max_steps
    → GoesTo fuel max_steps c c'
    → GoesTo fuel max_steps c c''
next-GoesTo fuel max_steps c c' c'' t e small (zero, same, room) = absurd (omega arith)
next-GoesTo fuel max_steps c c' c'' t e small (suc left, same, room) =
    let frame = step_frame c' c'' t e in
    (
      left,
      same ∙ run_loop-step left max_steps c' c'' t e frame.3 (omega (arith, frame.1)),
      omega (arith, frame.1),
    )

Reaches-GoesTo :
    (fuel max_steps : ℕ) {c c' : Cpu}
    → max_steps - c.steps < fuel
    → c'.steps ≤ max_steps
    → Reaches c c'
    → GoesTo fuel max_steps c c'
Reaches-GoesTo fuel max_steps room small Reaches.here = (fuel, refl, room)
Reaches-GoesTo fuel max_steps {c = c} room small (Reaches.next {c' = a} {c'' = b} {t = t} r e) =
    let frame = step_frame a b t e in
    next-GoesTo fuel max_steps c a b t e small
      (Reaches-GoesTo fuel max_steps room (omega (arith, frame.1)) r)

-- Whatever the loop returns, the end of a run in the sense of `run`.
finish_run-stopped :
    (h : HaltReason) (l : LoopResult) (c : Cpu)
    → finish_run l ≡ some (ok (stopped h), c)
    → (l ≡ some (ok tt, c)) × (reason_of c ≡ stopped h)
finish_run-stopped h none c e = absurd (ground arith)
finish_run-stopped h (some (raise x, c')) c e = absurd (ground arith)
finish_run-stopped h (some (ok u, c')) c e =
    let same : c' ≡ c = ground arith in
    let reason : reason_of c' ≡ stopped h = ground arith in
    (ap (λ s. some (ok tt, s)) same, subst (λ s. reason_of s ≡ stopped h) same reason)

or_halted-stopped : (h : HaltReason) (o : Option HaltReason) → or_halted o ≡ stopped h → o ≡ some h
or_halted-stopped h none e = absurd (ground arith)
or_halted-stopped h (some x) e = ground arith

reason_of-stopped : (h : HaltReason) (c : Cpu) → reason_of c ≡ stopped h → c.halt_reason ≡ some h
unfolding reason_of
reason_of-stopped h c =
    if_cases (λ x. x ≡ stopped h → c.halt_reason ≡ some h) (not c.halted)
      (λ b e. absurd (ground arith)) (λ b e. or_halted-stopped h c.halt_reason e)

-- If `run` returns a halt reason, the last step has stored what the reason says.
pub run-LastTold :
    (max_steps : ℕ) (c c' : Cpu) (h : HaltReason)
    → IsValid c
    → IsUntold c
    → c.steps ≤ max_steps
    → run max_steps c ≡ some (ok (stopped h), c')
    → LastTold max_steps c c' (some h)
unfolding run
run-LastTold max_steps c c' h valid untold small e =
    let fuel = suc (max_steps - c.steps) in
    let (loop, reason) = finish_run-stopped h (run_loop fuel max_steps c) c' e in
    let (reached, bound) =
      subst (LoopReaches max_steps c) loop
        (run_loop-LoopReaches fuel max_steps c c Reaches.here small) in
    subst (LastTold max_steps c c') (reason_of-stopped h c' reason)
      (Reaches-LastTold max_steps valid untold bound reached)

Told-passed :
    (a : ℕ) (w : Option MemWrite) (o : Option HaltReason) (v : Option ℕ)
    → Told a w o v
    → StoresTo a 1 w
    → o ≡ some tohost_pass
Told-passed a none o v h stores = absurd stores
Told-passed a (some w) (some tohost_pass) v h stores = refl
Told-passed a (some w) (some tohost_fail) v (x, at_x, other, value) stores =
    absurd (other (sym at_x.1 ∙ stores.1))
Told-passed a (some w) (some HaltReason.ecall) v h stores = absurd (h.0 stores.0)
Told-passed a (some w) (some HaltReason.ebreak) v h stores = absurd (h.0 stores.0)
Told-passed a (some w) none v h stores = absurd (h.0 stores.0)

passed-halted : (c : Cpu) → IsValid c → c.halt_reason ≡ some tohost_pass → c.halted ≡ true
passed-halted c valid e = valid.halt_known ∙ ap is_some e

reason_of-passed :
    (c : Cpu)
    → c.halted ≡ true
    → c.halt_reason ≡ some tohost_pass
    → reason_of c ≡ stopped tohost_pass
unfolding reason_of
reason_of-passed c h e =
    if_cases (λ x. x ≡ stopped tohost_pass) (not c.halted) (λ b. absurd (ground arith))
      (λ b. ap or_halted e)

-- A store of 1 in a step that is still within the limit ends the run.
pub StoresLast-run :
    (max_steps : ℕ) (c c' : Cpu)
    → IsValid c
    → IsUntold c
    → c.steps ≤ max_steps
    → StoresLast c.tohost_addr 1 max_steps c c'
    → run max_steps c ≡ some (ok (stopped tohost_pass), c')
unfolding run
StoresLast-run max_steps c c' valid untold small (last, t, r, e, stores, bound) =
    let ready = Reaches-IsReady valid untold r in
    let reason =
      Told-passed c.tohost_addr t.mem_write c'.halt_reason c'.tohost_value
        (step-Told_from c last c' t ready e) stores in
    let halted = passed-halted c' (next-IsReady c last c' t ready e).0 reason in
    let (left, same, room) =
      Reaches-GoesTo (suc (max_steps - c.steps)) max_steps (omega arith) bound (Reaches.next r e) in
    ap finish_run (same ∙ run_loop-halted left max_steps c' halted (omega arith))
    ∙ ap (λ x. some (ok x, c')) (reason_of-passed c' halted reason)

abbrev RunReaches : ℕ → Cpu → Option (Result RunReason × Cpu) → Type 0
RunReaches max_steps c none = Unit
RunReaches max_steps c (some (res, c')) = Reaches c c' × (c'.steps ≤ max_steps)

finish_run-RunReaches :
    (max_steps : ℕ) (c : Cpu) (l : LoopResult)
    → LoopReaches max_steps c l
    → RunReaches max_steps c (finish_run l)
finish_run-RunReaches max_steps c none h = tt
finish_run-RunReaches max_steps c (some (ok u, c')) h = h
finish_run-RunReaches max_steps c (some (raise e, c')) h = h

-- The state in which a run ends is reached by steps.
pub run-Reaches :
    (max_steps : ℕ) (c c' : Cpu) (res : Result RunReason)
    → c.steps ≤ max_steps
    → run max_steps c ≡ some (res, c')
    → Reaches c c'
unfolding run
run-Reaches max_steps c c' res small e =
    let fuel = suc (max_steps - c.steps) in
    let ends =
      finish_run-RunReaches max_steps c (run_loop fuel max_steps c)
        (run_loop-LoopReaches fuel max_steps c c Reaches.here small) in
    (subst (RunReaches max_steps c) e ends).0
