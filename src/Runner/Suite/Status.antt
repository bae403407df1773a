-- ===== src/Runner/Suite/Status.antt =====
-- What the exit status and the figures of `main` in tools/refmodel/riscv_tests_runner.py say of the
-- tests.
use risc_forge.Base.{
  ◌+◌, ◌-◌, ◌≡◌, ◌≢◌, ◌↔◌, inl, inr, refl, Bool, true, List, [], ◌∷◌, Option, none, some, length,
  All, arith, subst, Bool-cases,
}
use risc_forge.Base.Text.{Text}
use risc_forge.Emu.State.{Result, ok, raise}
use risc_forge.Runner.{Reason}
use risc_forge.Runner.Suite.{
  Entry, keep, is_test, insert_sorted, text_lt, sort_entries, matches_any, Tally, Runs, run_all,
  Report, nothing_to_run, report, run_tests, select, main_with, no_tally, status_of,
}
use risc_forge.Runner.Suite.Tallies.{Succeeds, total, Counts, run_all-Counts, Fails, run_all-Fails}

-- The command line asks for the test.
abbrev pub IsSelected : List Text → Entry → Type 0
IsSelected [] e = is_test e ≡ true
IsSelected (f ∷ filters) e = (is_test e ≡ true) × (matches_any (f ∷ filters) e.name ≡ true)

All-keep :
    (P : Entry → Type 0) (test : Entry → Bool) (xs : List Entry)
    → All P (keep test xs) ↔ All (λ x. test x ≡ true → P x) xs
unfolding keep
All-keep P test [] = (λ h. h, λ h. h)
All-keep P test (x ∷ xs) =
    let ih = All-keep P test xs in
    elim (Bool-cases (test x)) [
      | inl e ↦ rw e (λ (p, ps). (λ _. p, ih.0 ps), λ (p, ps). (p refl, ih.1 ps))
      | inr e ↦ rw e (λ ps. (λ h. absurd (ground arith), ih.0 ps), λ (p, ps). ih.1 ps)
    ]

All-insert_sorted :
    (P : Entry → Type 0) (e : Entry) (xs : List Entry)
    → All P (insert_sorted e xs) ↔ (P e × All P xs)
unfolding insert_sorted
All-insert_sorted P e [] = (λ h. h, λ h. h)
All-insert_sorted P e (x ∷ xs) =
    let ih = All-insert_sorted P e xs in
    elim (Bool-cases (text_lt x.name e.name)) [
      | inl h ↦
          rw h (λ (p, ps). let q = ih.0 ps in (q.0, (p, q.1)), λ (p, (q, ps)). (q, ih.1 (p, ps)))
      | inr h ↦ rw h (λ h'. h', λ h'. h')
    ]

All-sort_entries : (P : Entry → Type 0) (xs : List Entry) → All P (sort_entries xs) ↔ All P xs
unfolding sort_entries
All-sort_entries P [] = (λ h. h, λ h. h)
All-sort_entries P (x ∷ xs) =
    let ih = All-sort_entries P xs in
    let put = All-insert_sorted P x (sort_entries xs) in
    (λ h. let q = put.0 h in (q.0, ih.0 q.1), λ (p, ps). put.1 (p, ih.1 ps))

All-curry :
    (P Q R : Entry → Type 0) (xs : List Entry)
    → All (λ x. P x → Q x → R x) xs ↔ All (λ x. (P x × Q x) → R x) xs
All-curry P Q R [] = (λ h. h, λ h. h)
All-curry P Q R (x ∷ xs) =
    let ih = All-curry P Q R xs in
    (λ (h, hs). (λ (p, q). h p q, ih.0 hs), λ (h, hs). (λ p q. h (p, q), ih.1 hs))

-- What holds of all the tests that are run holds of the entries that the command line asks for.
All-select :
    (P : Entry → Type 0) (filters : List Text) (entries : List Entry)
    → All P (select filters entries) ↔ All (λ e. IsSelected filters e → P e) entries
unfolding select
All-select P [] entries =
    let sorted = All-sort_entries P (keep is_test entries) in
    let kept = All-keep P is_test entries in (λ h. kept.0 (sorted.0 h), λ h. sorted.1 (kept.1 h))
All-select P (f ∷ filters) entries =
    let m = λ (e : Entry). matches_any (f ∷ filters) e.name in
    let Q = λ (e : Entry). m e ≡ true → P e in
    let matched = All-keep P m (sort_entries (keep is_test entries)) in
    let sorted = All-sort_entries Q (keep is_test entries) in
    let kept = All-keep Q is_test entries in
    let both = All-curry (λ e. is_test e ≡ true) (λ e. m e ≡ true) P entries in
    (λ h. both.0 (kept.0 (sorted.0 (matched.0 h))), λ h. matched.1 (sorted.1 (kept.1 (both.1 h))))

abbrev pub Tells : Runs → List Entry → Report → Type 0
Tells runs tests rep =
    ((rep.status ≡ 0) ↔ ((tests ≢ []) × All (Succeeds runs) tests))
    × (rep.tally.passes + length rep.tally.fails + length rep.tally.skips ≡ length tests)
    × (rep.counted ≡ rep.tally.passes + length rep.tally.fails)

same_report : (a b : Report) → ◌≡◌ {A = Option (Result Report)} (some (ok a)) (some (ok b)) → a ≡ b
same_report a b h = cc

status_of_iff : (fails : List (Text × Reason)) → (status_of fails ≡ 0) ↔ (fails ≡ [])
status_of_iff [] = (λ _. refl, λ _. refl)
status_of_iff (x ∷ fails) = ground arith

report-Tells :
    (runs : Runs) (e : Entry) (tests : List Entry) (o : Option (Result Tally)) (rep : Report)
    → Counts (length (e ∷ tests)) no_tally o
    → Fails runs (e ∷ tests) no_tally o
    → report (e ∷ tests) o ≡ some (ok rep)
    → Tells runs (e ∷ tests) rep
unfolding total
report-Tells runs e tests none rep c f h = absurd (ground arith)
report-Tells runs e tests (some (raise x)) rep c f h = absurd (ground arith)
report-Tells runs e tests (some (ok t)) rep c f h =
    let made : Report = record {
      status = status_of t.fails;
      tally = t;
      counted = length (e ∷ tests) - length t.skips;
    } in
    let zero = status_of_iff t.fails in
    subst (Tells runs (e ∷ tests)) (same_report made rep h) (
      (
        λ clean. (λ bad. absurd (ground arith), (f.0 (zero.0 clean)).1),
        λ (_, all). zero.1 (f.1 (refl, all)),
      ),
      omega (arith, c),
      omega (arith, c),
    )

run_tests-Tells :
    (runs : Runs) (tests : List Entry) (rep : Report)
    → run_tests runs tests ≡ some (ok rep)
    → Tells runs tests rep
run_tests-Tells runs [] rep h =
    subst (Tells runs []) (same_report nothing_to_run rep h)
      ((λ two. absurd (omega arith), λ (some_test, _). absurd (some_test refl)), refl, refl)
run_tests-Tells runs (e ∷ tests) rep h =
    report-Tells runs e tests (run_all runs (e ∷ tests) no_tally) rep
      (run_all-Counts runs (e ∷ tests) no_tally) (run_all-Fails runs (e ∷ tests) no_tally) h

-- For every runner of one test, all filters and entries: if `main` returns, its status is 0 exactly
-- when there is a test to run and each entry that is a test and is asked for by the filters is a
-- known skip or passes; its passes, failures and skips add up to the number of tests that were
-- selected, and the number it reports as counted is that of the passes and failures.
pub main_with-status :
    (runs : Runs) (filters : List Text) (entries : List Entry) (rep : Report)
    → main_with runs filters entries ≡ some (ok rep)
    → ((rep.status ≡ 0) ↔ (
        (select filters entries ≢ []) × All (λ e. IsSelected filters e → Succeeds runs e) entries))
      × (rep.tally.passes + length rep.tally.fails + length rep.tally.skips
          ≡ length (select filters entries))
      × (rep.counted ≡ rep.tally.passes + length rep.tally.fails)
unfolding main_with
main_with-status runs filters entries rep h =
    let (exit, sum, counted) = run_tests-Tells runs (select filters entries) rep h in
    let all = All-select (Succeeds runs) filters entries in
    (
      (
        λ z. let q = exit.0 z in (q.0, all.0 q.1),
        λ (some_test, each). exit.1 (some_test, all.1 each),
      ),
      sum,
      counted,
    )
