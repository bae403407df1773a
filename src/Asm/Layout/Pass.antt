-- ===== src/Asm/Layout/Pass.antt =====
-- Pass 1 of tools/assembler/assemble.py: `pass1`. Python's `pass1` fills in the lines that it is
-- given; here it returns them. Addresses are natural numbers: a negative base is left out.
use risc_forge.Base.{
  ℕ, ◌+◌, ◌-◌, ◌*◌, ◌^◌, List, [], ◌∷◌, Option, none, some, length, leb, if◌then◌else◌,
}
use risc_forge.Base.Int.{ℤ, pos, negsuc}
use risc_forge.Base.Text.{Text, lookup, ◌is◌}
use risc_forge.Asm.Error.{Result, ok, fail, asm_error, ◌>>=◌}
use risc_forge.Asm.Operand.{parse_int}
use risc_forge.Asm.Line.{Line, Syms, Section}
use risc_forge.Asm.Encode.Real.{one_arg}
use risc_forge.Asm.Layout.{instruction_size}
use risc_forge.Asm.Layout.Sections.{Sections, here, move_to, switch, start, align_up}

-- A line with the section, the address and the size that pass 1 fills in.
abbrev pub place : Sections → ℕ → Line → Line
place s size ln = record ln { section = s.current; pc = here s; size = size }

-- The line takes `size` bytes of the section that is active.
abbrev pub contribute : ℕ → Line → Sections → Line × Sections
contribute size ln s = (place s size ln, move_to (here s + size) s)

abbrev pub define : Option Text → ℕ → Sections → Syms → Result Syms
define none lineno s syms = ok syms
define (some label) lineno s syms = elim (lookup label syms) [
  | some _ ↦ fail (asm_error lineno)
  | none ↦ ok ((label, here s) ∷ syms)
]

-- `0 <= n <= 12`
abbrev pub align_power : ℤ → ℕ → Result ℕ
align_power (pos n) lineno = if leb n 12 then ok n else fail (asm_error lineno)
align_power (negsuc n) lineno = fail (asm_error lineno)

-- The line's padding up to a boundary of 2 ^ n.
abbrev pub pad : Line → Sections → ℕ → Line × Sections
pad ln s n =
    let padded = align_up (here s) (2 ^ n) in (place s (padded - here s) ln, move_to padded s)

unfoldable pub pass1_align : List Text → Line → Sections → Result (Line × Sections)
pass1_align args ln s = do
  a ← one_arg ln.lineno args
  v ← parse_int a ln.lineno
  n ← align_power v ln.lineno
  ok (pad ln s n)

-- `.word` and `.byte`, with the bytes for each value
unfoldable pub pass1_values : ℕ → List Text → Line → Sections → Result (Line × Sections)
pass1_values width [] ln s = fail (asm_error ln.lineno)
pass1_values width (a ∷ args) ln s = ok (contribute (width * length (a ∷ args)) ln s)

unfoldable pub pass1_op : Text → Line → Sections → Result (Line × Sections)
unfolding pass1_align pass1_values
pass1_op op ln s =
    if op is ".text"
    then ok (place (switch Section.text s) 0 ln, switch Section.text s)
    else if op is ".data"
    then ok (place (switch Section.data_section s) 0 ln, switch Section.data_section s)
    else if op is ".align"
    then pass1_align ln.args ln s
    else if op is ".word"
    then pass1_values 4 ln.args ln s
    else if op is ".byte"
    then pass1_values 1 ln.args ln s
    else ok (contribute (instruction_size op) ln s)

abbrev pub pass1_opt : Option Text → Line → Sections → Result (Line × Sections)
pass1_opt none ln s = ok (place s 0 ln, s)
pass1_opt (some op) ln s = pass1_op op ln s

-- What pass 1 has after some lines: these lines, the symbols and the counters.
abbrev pub Pass1 : Type 0
Pass1 = List Line × Syms × Sections

unfoldable pub pass1_lines : List Line → Syms → Sections → Result Pass1
unfolding pass1_op
pass1_lines [] syms s = ok ([], syms, s)
pass1_lines (ln ∷ lines) syms s = do
  syms' ← define ln.label ln.lineno s syms
  (ln', s') ← pass1_opt ln.op ln s
  (lines', syms'', s'') ← pass1_lines lines syms' s'
  ok (ln' ∷ lines', syms'', s'')

unfoldable pub pass1 : List Line → ℕ → ℕ → Result Pass1
unfolding pass1_lines
pass1 lines text_base data_base = pass1_lines lines [] (start text_base data_base)
