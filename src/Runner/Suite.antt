-- ===== src/Runner/Suite.antt =====
-- `main` of tools/refmodel/riscv_tests_runner.py on the entries of the directory of tests. What is
-- printed is left out, but for the figures and names in it.
pub mod Tallies
pub mod Status
use mathlib.Core.List.{reverse, ◌++◌}
use risc_forge.Base.{
  ℕ, ◌+◌, ◌-◌, Bool, true, false, ◌&&◌, ◌||◌, not, List, [], ◌∷◌, Option, none, some, ltb, ◌==◌,
  length, if◌then◌else◌,
}
use risc_forge.Base.Text.{Text, codes, ◌is◌, starts_with}
use risc_forge.Emu.State.{Result, ok, raise}
use risc_forge.Runner.{Elf, Reason, run_test}

-- A path of `TESTS_DIR.iterdir()`
pub record Entry : Type 0 where
  pub name : Text
  pub is_file : Bool
  pub elf : Elf

unfoldable pub keep {ℓ} : {A : Type ℓ} → (A → Bool) → List A → List A
keep test [] = []
keep test (x ∷ xs) = let rest = keep test xs in if test x then x ∷ rest else rest

abbrev ends_with : Text → Text → Bool
ends_with suffix s = starts_with (reverse suffix) (reverse s)

unfoldable pub is_test : Entry → Bool
is_test e =
    e.is_file && not (ends_with (codes ".dump") e.name) && not (starts_with (codes ".") e.name)

-- `s < t`
unfoldable pub text_lt : Text → Text → Bool
text_lt s [] = false
text_lt [] (c ∷ t) = true
text_lt (a ∷ s) (c ∷ t) = ltb a c || (a == c && text_lt s t)

unfoldable pub insert_sorted : Entry → List Entry → List Entry
unfolding text_lt
insert_sorted e [] = e ∷ []
insert_sorted e (f ∷ entries) =
    let rest = insert_sorted e entries in
    if text_lt f.name e.name then f ∷ rest else e ∷ f ∷ entries

-- `sorted`, of paths in one directory
unfoldable pub sort_entries : List Entry → List Entry
unfolding insert_sorted
sort_entries [] = []
sort_entries (e ∷ entries) = insert_sorted e (sort_entries entries)

-- `f in name`
unfoldable pub contains_text : Text → Text → Bool
contains_text f [] = starts_with f []
contains_text f (c ∷ s) = starts_with f (c ∷ s) || contains_text f s

unfoldable pub matches_any : List Text → Text → Bool
unfolding contains_text
matches_any [] name = false
matches_any (f ∷ filters) name = contains_text f name || matches_any filters name

-- `KNOWN_SKIPS`
abbrev pub is_known_skip : Text → Bool
is_known_skip name = name is "rv32ui-p-ma_data"

pub record Tally : Type 0 where
  pub passes : ℕ
  pub fails : List (Text × Reason)
  pub skips : List Text

abbrev pub Runs : Type 0
Runs = Elf → Option (Result (Bool × Reason))

abbrev pub count_result : Text → Bool × Reason → Tally → Tally
count_result name (true, reason) t = record t { passes = t.passes + 1 }
count_result name (false, reason) t = record t { fails = t.fails ++ (name, reason) ∷ [] }

-- The loop's result is an exception that `run_test` did not catch, or the tally.
abbrev pub on_result :
    Text
    → Tally
    → Option (Result (Bool × Reason))
    → (Tally → Option (Result Tally))
    → Option (Result Tally)
on_result name t none next = none
on_result name t (some (raise e)) next = some (raise e)
on_result name t (some (ok v)) next = next (count_result name v t)

unfoldable pub run_all : Runs → List Entry → Tally → Option (Result Tally)
run_all runs [] t = some (ok t)
run_all runs (e ∷ tests) t =
    let skipped = run_all runs tests (record t { skips = t.skips ++ e.name ∷ [] }) in
    let next = run_all runs tests in
    if is_known_skip e.name then skipped else on_result e.name t (runs e.elf) next

pub record Report : Type 0 where
  pub status : ℕ
  pub tally : Tally
  pub counted : ℕ

abbrev pub no_tally : Tally
no_tally = record { passes = 0; fails = []; skips = [] }

abbrev pub status_of : List (Text × Reason) → ℕ
status_of [] = 0
status_of (_ ∷ _) = 1

abbrev pub nothing_to_run : Report
nothing_to_run = record { status = 2; tally = no_tally; counted = 0 }

abbrev pub report : List Entry → Option (Result Tally) → Option (Result Report)
report tests none = none
report tests (some (raise e)) = some (raise e)
report tests (some (ok t)) =
    some (
      ok
        (record { status = status_of t.fails; tally = t; counted = length tests - length t.skips }))

abbrev pub run_tests : Runs → List Entry → Option (Result Report)
run_tests runs [] = some (ok nothing_to_run)
run_tests runs (e ∷ tests) = report (e ∷ tests) (run_all runs (e ∷ tests) no_tally)

-- `argv[1:]` restricts the tests, if it is not empty.
abbrev pub apply_filters : List Text → List Entry → List Entry
apply_filters [] tests = tests
apply_filters (f ∷ filters) tests = keep (λ e. matches_any (f ∷ filters) e.name) tests

unfoldable pub select : List Text → List Entry → List Entry
unfolding sort_entries keep is_test matches_any
select filters entries = apply_filters filters (sort_entries (keep is_test entries))

-- `main`, with the runner of one test as an argument; a directory that is missing has no entries.
unfoldable pub main_with : Runs → List Text → List Entry → Option (Result Report)
unfolding select run_all
main_with runs filters entries = run_tests runs (select filters entries)

unfoldable pub main : List Text → List Entry → Option (Result Report)
unfolding main_with
main filters entries = main_with run_test filters entries
