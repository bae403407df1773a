-- ===== src/Runner/Suite/Tallies.antt =====
-- The loop of `main` in tools/refmodel/riscv_tests_runner.py counts each test once, and records a
-- failure exactly for those that fail.
use mathlib.Core.List.{◌++◌}
use risc_forge.Base.{
  ℕ, suc, ◌+◌, ◌≡◌, ◌≢◌, ◌↔◌, ◌⊎◌, inl, inr, refl, ◌∙◌, sym, Bool, true, false, List, [], ◌∷◌,
  Option, none, some, length, length-append, All, arith, if_both, if_cases,
}
use risc_forge.Base.Text.{Text}
use risc_forge.Emu.State.{Result, ok, raise}
use risc_forge.Runner.{Reason}
use risc_forge.Runner.Suite.{Entry, is_known_skip, Tally, Runs, count_result, on_result, run_all}

-- The test is skipped, or its run returns a pass.
abbrev pub Succeeds : Runs → Entry → Type 0
Succeeds runs e =
    (is_known_skip e.name ≡ true) ⊎ ((r : Reason) × (runs e.elf ≡ some (ok (true, r))))

unfoldable pub total : Tally → ℕ
total t = t.passes + length t.fails + length t.skips

abbrev pub Counts : ℕ → Tally → Option (Result Tally) → Type 0
Counts n t none = Unit
Counts n t (some (raise e)) = Unit
Counts n t (some (ok t')) = total t' ≡ total t + n

Counts-suc :
    (n : ℕ) (t t' : Tally) (r : Option (Result Tally))
    → total t' ≡ total t + 1
    → Counts n t' r
    → Counts (suc n) t r
Counts-suc n t t' none e h = tt
Counts-suc n t t' (some (raise x)) e h = tt
Counts-suc n t t' (some (ok t'')) e h = omega (arith, e, h)

count_result-total :
    (name : Text) (v : Bool × Reason) (t : Tally) → total (count_result name v t) ≡ total t + 1
unfolding total
count_result-total name (true, r) t = omega arith
count_result-total name (false, r) t = omega (arith, length-append t.fails ((name, r) ∷ []))

skip-total :
    (name : Text) (t : Tally) → total (record t { skips = t.skips ++ name ∷ [] }) ≡ total t + 1
unfolding total
skip-total name t = omega (arith, length-append t.skips (name ∷ []))

on_result-Counts :
    (n : ℕ) (name : Text) (t : Tally) (r : Option (Result (Bool × Reason)))
    (next : Tally → Option (Result Tally))
    → ((t' : Tally) → Counts n t' (next t'))
    → Counts (suc n) t (on_result name t r next)
on_result-Counts n name t none next h = tt
on_result-Counts n name t (some (raise e)) next h = tt
on_result-Counts n name t (some (ok v)) next h =
    let t' = count_result name v t in
    Counts-suc n t t' (next t') (count_result-total name v t) (h t')

-- Each test is counted once.
pub run_all-Counts :
    (runs : Runs) (tests : List Entry) (t : Tally) → Counts (length tests) t (run_all runs tests t)
unfolding run_all
run_all-Counts runs [] t = omega arith
run_all-Counts runs (e ∷ tests) t =
    let skipped = record t { skips = t.skips ++ e.name ∷ [] } in
    if_both (Counts (length (e ∷ tests)) t) (is_known_skip e.name)
      (Counts-suc (length tests) t skipped (run_all runs tests skipped) (skip-total e.name t)
        (run_all-Counts runs tests skipped))
      (on_result-Counts (length tests) e.name t (runs e.elf) (run_all runs tests)
        (λ t'. run_all-Counts runs tests t'))

-- No failure is recorded exactly when there was none and all these tests succeed.
abbrev pub Fails : Runs → List Entry → Tally → Option (Result Tally) → Type 0
Fails runs tests t none = Unit
Fails runs tests t (some (raise e)) = Unit
Fails runs tests t (some (ok t')) = (t'.fails ≡ []) ↔ ((t.fails ≡ []) × All (Succeeds runs) tests)

Fails-success :
    (runs : Runs) (e : Entry) (tests : List Entry) (t t' : Tally) (r : Option (Result Tally))
    → t'.fails ≡ t.fails
    → Succeeds runs e
    → Fails runs tests t' r
    → Fails runs (e ∷ tests) t r
Fails-success runs e tests t t' none same s h = tt
Fails-success runs e tests t t' (some (raise x)) same s h = tt
Fails-success runs e tests t t' (some (ok t'')) same s h = (
  λ clean. let p = h.0 clean in (sym same ∙ p.0, (s, p.1)),
  λ (p, (_, rest)). h.1 (same ∙ p, rest),
)

Fails-failure :
    (runs : Runs) (e : Entry) (tests : List Entry) (t t' : Tally) (r : Option (Result Tally))
    → t'.fails ≢ []
    → ¬ Succeeds runs e
    → Fails runs tests t' r
    → Fails runs (e ∷ tests) t r
Fails-failure runs e tests t t' none bad s h = tt
Fails-failure runs e tests t t' (some (raise x)) bad s h = tt
Fails-failure runs e tests t t' (some (ok t'')) bad s h =
    (λ clean. absurd (bad (h.0 clean).0), λ (p, (good, rest)). absurd (s good))

append-ne-nil : (xs : List (Text × Reason)) (x : Text × Reason) → xs ++ x ∷ [] ≢ []
append-ne-nil [] x h = absurd (ground arith)
append-ne-nil (y ∷ xs) x h = absurd (ground arith)

not-Succeeds :
    (runs : Runs) (e : Entry) (r : Reason)
    → is_known_skip e.name ≡ false
    → runs e.elf ≡ some (ok (false, r))
    → ¬ Succeeds runs e
not-Succeeds runs e r go same (inl skip) = cc
not-Succeeds runs e r go same (inr (r', pass)) = absurd (ground arith)

on_result-Fails :
    (runs : Runs) (e : Entry) (tests : List Entry) (t : Tally) (r : Option (Result (Bool × Reason)))
    → is_known_skip e.name ≡ false
    → runs e.elf ≡ r
    → ((t' : Tally) → Fails runs tests t' (run_all runs tests t'))
    → Fails runs (e ∷ tests) t (on_result e.name t r (run_all runs tests))
on_result-Fails runs e tests t none go same h = tt
on_result-Fails runs e tests t (some (raise x)) go same h = tt
on_result-Fails runs e tests t (some (ok (true, r))) go same h =
    let t' = count_result e.name (true, r) t in
    Fails-success runs e tests t t' (run_all runs tests t') refl (inr (r, same)) (h t')
on_result-Fails runs e tests t (some (ok (false, r))) go same h =
    let t' = count_result e.name (false, r) t in
    Fails-failure runs e tests t t' (run_all runs tests t') (append-ne-nil t.fails (e.name, r))
      (not-Succeeds runs e r go same) (h t')

pub run_all-Fails :
    (runs : Runs) (tests : List Entry) (t : Tally) → Fails runs tests t (run_all runs tests t)
unfolding run_all
run_all-Fails runs [] t = (λ h. (h, tt), λ h. h.0)
run_all-Fails runs (e ∷ tests) t =
    let skipped = record t { skips = t.skips ++ e.name ∷ [] } in
    if_cases (Fails runs (e ∷ tests) t) (is_known_skip e.name)
      (λ skip.
        Fails-success runs e tests t skipped (run_all runs tests skipped) refl (inl skip)
          (run_all-Fails runs tests skipped))
      (λ go.
        on_result-Fails runs e tests t (runs e.elf) go refl (λ t'. run_all-Fails runs tests t'))
