-- ===== src/Asm/Layout/SizePass.antt =====
-- The layout pass of `assemble` in tools/assembler/assemble.py, which sums the sizes of the two
-- sections before the address of the data section is known.
use risc_forge.Base.{ℕ, ◌+◌, ◌*◌, ◌^◌, List, [], ◌∷◌, Option, none, some, length, if◌then◌else◌}
use risc_forge.Base.Int.{ℤ, pos, negsuc}
use risc_forge.Base.Text.{Text, ◌is◌}
use risc_forge.Asm.Error.{Result, ok, fail, value_error, ◌>>=◌}
use risc_forge.Asm.Operand.{parse_int}
use risc_forge.Asm.Line.{Line, Section}
use risc_forge.Asm.Layout.{instruction_size}
use risc_forge.Asm.Layout.Sections.{Sections, here, move_to, switch, start, align_up}

-- `1 << n`, which has a ValueError for a negative `n`
abbrev pub shift_one : ℤ → Result ℕ
shift_one (pos n) = ok (2 ^ n)
shift_one (negsuc n) = fail value_error

unfoldable pub size_align : ℕ → List Text → Sections → Result Sections
size_align lineno [] s = ok s
size_align lineno (a ∷ _) s = do
  v ← parse_int a lineno
  boundary ← shift_one v
  ok (move_to (align_up (here s) boundary) s)

unfoldable pub size_op : Text → Line → Sections → Result Sections
unfolding size_align
size_op op ln s =
    if op is ".text"
    then ok (switch Section.text s)
    else if op is ".data"
    then ok (switch Section.data_section s)
    else if op is ".align"
    then size_align ln.lineno ln.args s
    else if op is ".word"
    then ok (move_to (here s + 4 * length ln.args) s)
    else if op is ".byte"
    then ok (move_to (here s + length ln.args) s)
    else ok (move_to (here s + instruction_size op) s)

abbrev pub size_opt : Option Text → Line → Sections → Result Sections
size_opt none ln s = ok s
size_opt (some op) ln s = size_op op ln s

unfoldable pub size_lines : List Line → Sections → Result Sections
unfolding size_op
size_lines [] s = ok s
size_lines (ln ∷ lines) s = do s' ← size_opt ln.op ln s; size_lines lines s'

unfoldable pub section_sizes : List Line → Result Sections
unfolding size_lines
section_sizes lines = size_lines lines (start 0 0)
