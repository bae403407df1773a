-- ===== src/Asm/Layout/Bases.antt =====
-- The two layouts of tools/assembler/assemble.py, that of `pass1` and that of `assemble`, which
-- counts from 0, agree on the text section when its base is aligned as far as `.align` can ask.
use risc_forge.Base.{
  ℕ, ◌+◌, ◌*◌, ◌%◌, ◌^◌, ◌≡◌, refl, List, [], ◌∷◌, Option, none, some, arith, subst, if_cases, Bool,
  true, false, if◌then◌else◌, leb, length,
}
use risc_forge.Base.Text.{Text, ◌is◌}
use risc_forge.Base.Int.{ℤ, pos, negsuc}
use risc_forge.Asm.Error.{Result, ok, fail, ◌>>=◌}
use risc_forge.Asm.Operand.{parse_int}
use risc_forge.Asm.Line.{Line, Syms, Section}
use risc_forge.Asm.Layout.{instruction_size}
use risc_forge.Asm.Layout.Sections.{Sections, here, move_to, switch, start, align_up}
use risc_forge.Asm.Layout.Pass.{
  Pass1, pass1_align, pass1_values, pass1_op, pass1_opt, pass1_lines, pass1, align_power, pad,
  define, contribute,
}
use risc_forge.Asm.Layout.SizePass.{
  size_align, size_op, size_opt, size_lines, section_sizes, shift_one,
}
use risc_forge.Asm.Layout.InStep.{InStep, advance-InStep, align-InStep}

-- A result of `pass1` on a line is one of the size pass, in step with it.
abbrev Follows : ℕ → Result (Line × Sections) → Result Sections → Type 0
Follows base (ok (_, s)) (ok z) = InStep base s z
Follows base (ok _) (fail e) = ⊥
Follows base (fail e) r = Unit

values-Follows :
    (base width : ℕ) (args : List Text) (ln : Line) (s z : Sections)
    → InStep base s z
    → Follows base (pass1_values width args ln s) (ok (move_to (here z + width * length args) z))
unfolding pass1_values
values-Follows base width [] ln s z h = tt
values-Follows base width (a ∷ args) ln s z h =
    advance-InStep base (width * length (a ∷ args)) s z h

bytes-Follows :
    (base : ℕ) (ln : Line) (s z : Sections)
    → InStep base s z
    → Follows base (pass1_values 1 ln.args ln s) (ok (move_to (here z + length ln.args) z))
bytes-Follows base ln s z h =
    let one : 1 * length ln.args ≡ length ln.args = omega arith in
    subst (λ n. Follows base (pass1_values 1 ln.args ln s) (ok (move_to (here z + n) z))) one
      (values-Follows base 1 ln.args ln s z h)

-- Each value that follows a value does so after one more step.
bind-Follows {ℓ} :
    {A : Type ℓ} (base : ℕ) (r : Result A) (f : A → Result (Line × Sections))
    (g : A → Result Sections)
    → ((a : A) → Follows base (f a) (g a))
    → Follows base (r >>= f) (r >>= g)
bind-Follows base (ok a) f g h = h a
bind-Follows base (fail e) f g h = tt

pad-Follows :
    (base : ℕ) (ln : Line) (s z : Sections) (v : ℤ)
    → base % 2 ^ 12 ≡ 0
    → InStep base s z
    → Follows base
        (align_power v ln.lineno >>= λ n. ok (pad ln s n))
        (shift_one v >>= λ b. ok (move_to (align_up (here z) b) z))
pad-Follows base ln s z (pos n) aligned h =
    if_cases
      (λ r. Follows base (r >>= λ n. ok (pad ln s n)) (ok (move_to (align_up (here z) (2 ^ n)) z)))
      (leb n 12) (λ e. align-InStep base n s z (ground arith) aligned h) (λ e. tt)
pad-Follows base ln s z (negsuc n) aligned h = tt

align-Follows :
    (base : ℕ) (args : List Text) (ln : Line) (s z : Sections)
    → base % 2 ^ 12 ≡ 0
    → InStep base s z
    → Follows base (pass1_align args ln s) (size_align ln.lineno args z)
unfolding pass1_align size_align
align-Follows base [] ln s z aligned h = tt
align-Follows base (a ∷ []) ln s z aligned h =
    bind-Follows base (parse_int a ln.lineno)
      (λ v. align_power v ln.lineno >>= λ n. ok (pad ln s n))
      (λ v. shift_one v >>= λ b. ok (move_to (align_up (here z) b) z))
      (λ v. pad-Follows base ln s z v aligned h)
align-Follows base (a ∷ (b ∷ args)) ln s z aligned h = tt

-- Both passes ask the same of a mnemonic.
if_Follows :
    (base : ℕ) (b : Bool) (p q : Result (Line × Sections)) (x y : Result Sections)
    → Follows base p x
    → Follows base q y
    → Follows base (if b then p else q) (if b then x else y)
if_Follows base true p q x y h k = h
if_Follows base false p q x y h k = k

switch-InStep :
    (base : ℕ) (c : Section) (s z : Sections)
    → InStep base s z
    → InStep base (switch c s) (switch c z)
switch-InStep base c s z h = record { text = h.text; current = refl }

op-Follows :
    (base : ℕ) (op : Text) (ln : Line) (s z : Sections)
    → base % 2 ^ 12 ≡ 0
    → InStep base s z
    → Follows base (pass1_op op ln s) (size_op op ln z)
unfolding pass1_op size_op
op-Follows base op ln s z aligned h =
    if_Follows base (op is ".text") _ _ _ _ (switch-InStep base Section.text s z h) (
      if_Follows base (op is ".data") _ _ _ _ (switch-InStep base Section.data_section s z h) (
        if_Follows base (op is ".align") _ _ _ _ (align-Follows base ln.args ln s z aligned h) (
          if_Follows base (op is ".word") _ _ _ _ (values-Follows base 4 ln.args ln s z h) (
            if_Follows base (op is ".byte") _ (ok (contribute (instruction_size op) ln s)) _
              (ok (move_to (here z + instruction_size op) z)) (bytes-Follows base ln s z h)
              (advance-InStep base (instruction_size op) s z h)))))

opt-Follows :
    (base : ℕ) (op : Option Text) (ln : Line) (s z : Sections)
    → base % 2 ^ 12 ≡ 0
    → InStep base s z
    → Follows base (pass1_opt op ln s) (size_opt op ln z)
opt-Follows base none ln s z aligned h = h
opt-Follows base (some op) ln s z aligned h = op-Follows base op ln s z aligned h

-- A result of `pass1` on lines is one of the size pass, in step with it.
abbrev AllFollow : ℕ → Result Pass1 → Result Sections → Type 0
AllFollow base (ok (_, _, s)) (ok z) = InStep base s z
AllFollow base (ok _) (fail e) = ⊥
AllFollow base (fail e) r = Unit

then-AllFollow :
    (base : ℕ) (r : Result (Line × Sections)) (t : Result Sections)
    (f : Line × Sections → Result Pass1) (g : Sections → Result Sections)
    → Follows base r t
    → ((ln : Line) (s z : Sections) → InStep base s z → AllFollow base (f (ln, s)) (g z))
    → AllFollow base (r >>= f) (t >>= g)
then-AllFollow base (ok (ln, s)) (ok z) f g h k = k ln s z h
then-AllFollow base (ok (ln, s)) (fail e) f g h k = absurd h
then-AllFollow base (fail e) t f g h k = tt

cons-AllFollow :
    (base : ℕ) (ln : Line) (r : Result Pass1) (t : Result Sections)
    → AllFollow base r t
    → AllFollow base (r >>= λ x. ok (ln ∷ x.0, x.1, x.2)) t
cons-AllFollow base ln (ok x) (ok z) h = h
cons-AllFollow base ln (ok x) (fail e) h = h
cons-AllFollow base ln (fail e) t h = tt

-- One line, before lines that follow.
line-AllFollow :
    (base : ℕ) (ln : Line) (lines : List Line) (s z : Sections) (r : Result Syms)
    → base % 2 ^ 12 ≡ 0
    → InStep base s z
    → ((syms : Syms) (s' z' : Sections)
        → InStep base s' z'
        → AllFollow base (pass1_lines lines syms s') (size_lines lines z'))
    → AllFollow base
        (r >>= λ syms. pass1_opt ln.op ln s >>= λ x.
          pass1_lines lines syms x.1 >>= λ y. ok (x.0 ∷ y.0, y.1, y.2))
        (size_opt ln.op ln z >>= λ z'. size_lines lines z')
line-AllFollow base ln lines s z (fail e) aligned h rest = tt
line-AllFollow base ln lines s z (ok syms) aligned h rest =
    then-AllFollow base (pass1_opt ln.op ln s) (size_opt ln.op ln z)
      (λ x. pass1_lines lines syms x.1 >>= λ y. ok (x.0 ∷ y.0, y.1, y.2)) (size_lines lines)
      (opt-Follows base ln.op ln s z aligned h)
      (λ ln' s' z' k.
        cons-AllFollow base ln' (pass1_lines lines syms s') (size_lines lines z')
          (rest syms s' z' k))

lines-AllFollow :
    (base : ℕ) (lines : List Line) (syms : Syms) (s z : Sections)
    → base % 2 ^ 12 ≡ 0
    → InStep base s z
    → AllFollow base (pass1_lines lines syms s) (size_lines lines z)
unfolding pass1_lines size_lines
lines-AllFollow base [] syms s z aligned h = h
lines-AllFollow base (ln ∷ lines) syms s z aligned h =
    line-AllFollow base ln lines s z (define ln.label ln.lineno s syms) aligned h
      (λ syms' s' z' k. lines-AllFollow base lines syms' s' z' aligned k)

-- For all lines, every text base that is a multiple of 2 ^ 12 and every data base: if `pass1`
-- returns, with the counters `s` at its end, then the size pass of `assemble` returns sizes too, and
-- the text section of `pass1` ends at the text base plus the text size of the size pass.
pub pass1-section_sizes :
    (lines : List Line) (text_base data_base : ℕ) (laid : List Line) (syms : Syms) (s : Sections)
    → text_base % 2 ^ 12 ≡ 0
    → pass1 lines text_base data_base ≡ ok (laid, syms, s)
    → (z : Sections) × (section_sizes lines ≡ ok z) × (s.text_at ≡ text_base + z.text_at)
unfolding pass1 section_sizes
pass1-section_sizes lines text_base data_base laid syms s aligned e =
    found (size_lines lines (start 0 0)) (
      subst (λ r. AllFollow text_base r (size_lines lines (start 0 0))) e
        (lines-AllFollow text_base lines [] (start text_base data_base) (start 0 0) aligned
          at_start))
  where
    at_start : InStep text_base (start text_base data_base) (start 0 0)
    at_start = record { text = omega arith; current = refl }

    found :
        (r : Result Sections)
        → AllFollow text_base (ok (laid, syms, s)) r
        → (z : Sections) × (r ≡ ok z) × (s.text_at ≡ text_base + z.text_at)
    found (ok z) h = (z, refl, h.text)
    found (fail e') h = absurd h
