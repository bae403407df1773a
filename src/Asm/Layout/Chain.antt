-- ===== src/Asm/Layout/Chain.antt =====
-- The lines that pass 1 of tools/assembler/assemble.py lays out stand one behind the other.
use risc_forge.Base.{ℕ, ◌+◌, ◌≤◌, ◌≡◌, List, [], ◌∷◌, arith, All, subst}
use risc_forge.Asm.Error.{Result, ok, fail, ◌>>=◌}
use risc_forge.Asm.Line.{Line, Syms, Section}
use risc_forge.Asm.Layout.Sections.{Sections}
use risc_forge.Asm.Layout.Pass.{define, pass1_opt, pass1_lines, Pass1}
use risc_forge.Asm.Layout.Places.{
  Inside, Between, Grows, HasRoom, TakesPart, Places, reserved_opt, opt-Places,
}

-- Each line has its part behind the lines before it, and room for its bytes.
abbrev pub Chain : Sections → List Line → Sections → Type 0
Chain s [] e = Unit
Chain s (ln ∷ lines) e =
    (s' : Sections) × TakesPart s s' ln
    × HasRoom ln
    × Grows s' e
    × All (Between s' e) lines
    × Chain s' lines e

abbrev Placed : Sections → Result Pass1 → Type 0
Placed s (fail e) = Unit
Placed s (ok (laid, syms, e)) = Grows s e × All (Between s e) laid × Chain s laid e

-- The part before the counters grow, and after.
Inside-wider :
    (c : Section) (t t' u d d' v low high : ℕ)
    → t ≤ t'
    → d ≤ d'
    → t' ≤ u
    → d' ≤ v
    → (Inside c t' u d' v low high → Inside c t u d v low high)
      × (Inside c t t' d d' low high → Inside c t u d v low high)
Inside-wider Section.text t t' u d d' v low high p q p' q' =
    (λ h. (omega arith, omega arith), λ h. (omega arith, omega arith))
Inside-wider Section.data_section t t' u d d' v low high p q p' q' =
    (λ h. (omega arith, omega arith), λ h. (omega arith, omega arith))

Between-wider :
    (s s' e : Sections) (ln : Line)
    → Grows s s'
    → Grows s' e
    → (Between s' e ln → Between s e ln) × (Between s s' ln → Between s e ln)
Between-wider s s' e ln (p, q) (p', q') =
    Inside-wider ln.section s.text_at s'.text_at e.text_at s.data_at s'.data_at e.data_at ln.pc
      (ln.pc + ln.size) p q p' q'

All-later :
    (s s' e : Sections) (lines : List Line)
    → Grows s s'
    → Grows s' e
    → All (Between s' e) lines
    → All (Between s e) lines
All-later s s' e [] p q h = tt
All-later s s' e (ln ∷ lines) p q (h, rest) =
    ((Between-wider s s' e ln p q).0 h, All-later s s' e lines p q rest)

cons-Placed :
    (ln ln' : Line) (s s' : Sections) (r : Result Pass1)
    → Places (reserved_opt ln.op ln.args) ln s (ok (ln', s'))
    → Placed s' r
    → Placed s (r >>= λ x. ok (ln' ∷ x.0, x.1, x.2))
cons-Placed ln ln' s s' (fail f) h k = tt
cons-Placed ln ln' s s' (ok (lines, syms, e)) (part, room, op, args) (grows, within, chain) =
    let fits : HasRoom ln' = rw (op, args) room in
    let here' = (Between-wider s s' e ln' part.0 grows).1 part.1 in
    (
      (omega arith, omega arith),
      (here', All-later s s' e lines part.0 grows within),
      (s', part, fits, grows, within, chain),
    )

then-Placed :
    (ln : Line) (s : Sections) (r : Result (Line × Sections)) (f : Line × Sections → Result Pass1)
    → Places (reserved_opt ln.op ln.args) ln s r
    → ((ln' : Line) (s' : Sections)
        → Places (reserved_opt ln.op ln.args) ln s (ok (ln', s'))
        → Placed s (f (ln', s')))
    → Placed s (r >>= f)
then-Placed ln s (fail e) f h k = tt
then-Placed ln s (ok (ln', s')) f h k = k ln' s' h

syms-Placed :
    (s : Sections) (r : Result Syms) (f : Syms → Result Pass1)
    → ((syms : Syms) → Placed s (f syms))
    → Placed s (r >>= f)
syms-Placed s (fail e) f h = tt
syms-Placed s (ok syms) f h = h syms

lines-Placed :
    (lines : List Line) (syms : Syms) (s : Sections) → Placed s (pass1_lines lines syms s)
unfolding pass1_lines
lines-Placed [] syms s = ((omega arith, omega arith), tt, tt)
lines-Placed (ln ∷ lines) syms s = syms-Placed s (define ln.label ln.lineno s syms) _ λ syms'.
    then-Placed ln s (pass1_opt ln.op ln s) _ (opt-Places ln.op ln s) λ ln' s' h.
      cons-Placed ln ln' s s' (pass1_lines lines syms' s') h (lines-Placed lines syms' s')

-- The lines that are laid out from counters on.
pub pass1_lines-Chain :
    (lines : List Line) (syms syms' : Syms) (s e : Sections) (laid : List Line)
    → pass1_lines lines syms s ≡ ok (laid, syms', e)
    → Grows s e × All (Between s e) laid × Chain s laid e
pass1_lines-Chain lines syms syms' s e laid h = subst (Placed s) h (lines-Placed lines syms s)
