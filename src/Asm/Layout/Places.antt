-- ===== src/Asm/Layout/Places.antt =====
-- The addresses that pass 1 of tools/assembler/assemble.py gives to the lines: each line has a part of
-- its section, behind the lines before it, and room for what pass 2 emits for it.
use risc_forge.Base.{
  ℕ, ◌+◌, ◌*◌, ◌^◌, ◌≤◌, ◌≡◌, refl, List, [], ◌∷◌, Option, none, some, arith, length, if_cases,
  subst, ◌-◌, ◌||◌, if◌then◌else◌,
}
use risc_forge.Base.Text.{Text, ◌is◌}
use risc_forge.Asm.Error.{Result, ok, fail, ◌>>=◌}
use risc_forge.Asm.Operand.{parse_int}
use risc_forge.Asm.Encode.Real.{one_arg}
use risc_forge.Asm.Line.{Line, Section}
use risc_forge.Asm.Layout.{instruction_size}
use risc_forge.Asm.Layout.Aligned.{align_up-ge}
use risc_forge.Asm.Layout.Sections.{Sections, here, move_to, switch, align_up}
use risc_forge.Asm.Layout.Pass.{
  place, contribute, align_power, pad, pass1_align, pass1_values, pass1_op, pass1_opt,
}

-- The part from an address of a section to another, in the section of the line, has the line.
abbrev pub Inside : Section → ℕ → ℕ → ℕ → ℕ → ℕ → ℕ → Type 0
Inside Section.text t t' d d' low high = (t ≤ low) × (high ≤ t')
Inside Section.data_section t t' d d' low high = (d ≤ low) × (high ≤ d')

abbrev pub Between : Sections → Sections → Line → Type 0
Between s s' ln =
    Inside ln.section s.text_at s'.text_at s.data_at s'.data_at ln.pc (ln.pc + ln.size)

abbrev pub Grows : Sections → Sections → Type 0
Grows s s' = (s.text_at ≤ s'.text_at) × (s.data_at ≤ s'.data_at)

-- The bytes that pass 1 reserves for a line, up to the padding.
abbrev pub reserved : Text → List Text → ℕ
reserved op args =
    if op is ".text" || op is ".data" || op is ".align"
    then 0
    else if op is ".word"
    then 4 * length args
    else if op is ".byte"
    then 1 * length args
    else instruction_size op

abbrev pub reserved_opt : Option Text → List Text → ℕ
reserved_opt none args = 0
reserved_opt (some op) args = reserved op args

abbrev pub HasRoom : Line → Type 0
HasRoom ln = reserved_opt ln.op ln.args ≤ ln.size

-- One line takes the part of its section between the counters before and after it.
abbrev pub TakesPart : Sections → Sections → Line → Type 0
TakesPart s s' ln = Grows s s' × Between s s' ln

moved_in :
    (t d n m : ℕ) (c : Section) (ln : Line)
    → let s : Sections = record { text_at = t; data_at = d; current = c } in
      here s + n ≤ m → TakesPart s (move_to m s) (place s n ln)
moved_in t d n m Section.text ln h = ((omega arith, omega arith), (omega arith, omega arith))
moved_in t d n m Section.data_section ln h =
    ((omega arith, omega arith), (omega arith, omega arith))

moved-TakesPart :
    (n m : ℕ) (ln : Line) (s : Sections) → here s + n ≤ m → TakesPart s (move_to m s) (place s n ln)
moved-TakesPart n m ln s h = moved_in s.text_at s.data_at n m s.current ln h

stays_in :
    (t d : ℕ) (c c' : Section) (ln : Line)
    → TakesPart
        (record { text_at = t; data_at = d; current = c })
        (record { text_at = t; data_at = d; current = c' })
        (place (record { text_at = t; data_at = d; current = c' }) 0 ln)
stays_in t d c Section.text ln = ((omega arith, omega arith), (omega arith, omega arith))
stays_in t d c Section.data_section ln = ((omega arith, omega arith), (omega arith, omega arith))

-- A result of `pass1` on the line takes its part, and has room for `need` bytes.
-- Its operation and operands are the line's.
abbrev pub Places : ℕ → Line → Sections → Result (Line × Sections) → Type 0
Places need ln s (fail e) = Unit
Places need ln s (ok (ln', s')) =
    TakesPart s s' ln' × (need ≤ ln'.size) × (ln'.op ≡ ln.op) × (ln'.args ≡ ln.args)

switch-Places :
    (c : Section) (ln : Line) (s : Sections)
    → Places 0 ln s (ok (place (switch c s) 0 ln, switch c s))
switch-Places c ln s = (stays_in s.text_at s.data_at s.current c ln, omega arith, refl, refl)

contribute-Places : (n : ℕ) (ln : Line) (s : Sections) → Places n ln s (ok (contribute n ln s))
contribute-Places n ln s =
    (moved-TakesPart n (here s + n) ln s (omega arith), omega arith, refl, refl)

values-Places :
    (width : ℕ) (args : List Text) (ln : Line) (s : Sections)
    → Places (width * length args) ln s (pass1_values width args ln s)
unfolding pass1_values
values-Places width [] ln s = tt
values-Places width (a ∷ args) ln s = contribute-Places (width * length (a ∷ args)) ln s

pad-Places : (ln : Line) (s : Sections) (n : ℕ) → Places 0 ln s (ok (pad ln s n))
pad-Places ln s n =
    let up = align_up (here s) (2 ^ n) in
    (
      moved-TakesPart (up - here s) up ln s (omega (arith, align_up-ge n (here s))),
      omega arith,
      refl,
      refl,
    )

bind-Places {ℓ} :
    {A : Type ℓ} (need : ℕ) (ln : Line) (s : Sections) (r : Result A)
    (f : A → Result (Line × Sections))
    → ((a : A) → Places need ln s (f a))
    → Places need ln s (r >>= f)
bind-Places need ln s (ok a) f h = h a
bind-Places need ln s (fail e) f h = tt

align-Places : (args : List Text) (ln : Line) (s : Sections) → Places 0 ln s (pass1_align args ln s)
unfolding pass1_align
align-Places args ln s = bind-Places 0 ln s (one_arg ln.lineno args) _ λ a.
    bind-Places 0 ln s (parse_int a ln.lineno) _
      λ v. bind-Places 0 ln s (align_power v ln.lineno) _ λ n. pad-Places ln s n

needs :
    (m n : ℕ) (ln : Line) (s : Sections) (r : Result (Line × Sections))
    → n ≡ m
    → Places n ln s r
    → Places m ln s r
needs m n ln s r e h = subst (λ k. Places k ln s r) e h

op-Places :
    (op : Text) (ln : Line) (s : Sections) → Places (reserved op ln.args) ln s (pass1_op op ln s)
unfolding pass1_op
op-Places op ln s =
    let P : Result (Line × Sections) → Type 0 = Places (reserved op ln.args) ln s in
    if_cases P (op is ".text")
      (λ e.
        needs (reserved op ln.args) 0 ln s
          (ok (place (switch Section.text s) 0 ln, switch Section.text s)) (ground arith)
          (switch-Places Section.text ln s))
      λ t.
        if_cases P (op is ".data")
          (λ e.
            needs (reserved op ln.args) 0 ln s
              (ok (place (switch Section.data_section s) 0 ln, switch Section.data_section s))
              (ground arith) (switch-Places Section.data_section ln s))
          λ d.
            if_cases P (op is ".align")
              (λ e. needs (reserved op ln.args) 0 ln s _ (ground arith) (align-Places ln.args ln s))
              λ a.
                if_cases P (op is ".word")
                  (λ e.
                    needs (reserved op ln.args) (4 * length ln.args) ln s _ (ground arith)
                      (values-Places 4 ln.args ln s))
                  λ w.
                    if_cases P (op is ".byte")
                      (λ e.
                        needs (reserved op ln.args) (1 * length ln.args) ln s _ (ground arith)
                          (values-Places 1 ln.args ln s))
                      λ b.
                        needs (reserved op ln.args) (instruction_size op) ln s
                          (ok (contribute (instruction_size op) ln s)) (ground arith)
                          (contribute-Places (instruction_size op) ln s)

pub opt-Places :
    (op : Option Text) (ln : Line) (s : Sections)
    → Places (reserved_opt op ln.args) ln s (pass1_opt op ln s)
opt-Places none ln s =
    (stays_in s.text_at s.data_at s.current s.current ln, omega arith, refl, refl)
opt-Places (some op) ln s = op-Places op ln s
