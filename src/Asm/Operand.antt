-- ===== src/Asm/Operand.antt =====
-- Registers and integer literals: `parse_reg` and `parse_int` of tools/assembler/assemble.py.
use Prim.Native.String.{String}
use mathlib.Core.Option.{map as option_map}
use risc_forge.Base.{
  drop, ℕ, Bool, ◌||◌, List, [], ◌∷◌, Option, none, some, leb, ◌==◌, if◌then◌else◌,
}
use risc_forge.Base.Int.{ℤ}
use risc_forge.Base.Text.{Text, codes, lookup, lower, strip, remove_char, starts_with}
use risc_forge.Base.Numerals.{digits, negate, int_of_text}
use risc_forge.Asm.Error.{Result, ok, fail, asm_error}

-- `_REG_ALIASES`
abbrev pub reg_aliases : List (Text × ℕ)
reg_aliases =
    (codes "zero", 0)
    ∷ (codes "ra", 1)
    ∷ (codes "sp", 2)
    ∷ (codes "gp", 3)
    ∷ (codes "tp", 4)
    ∷ (codes "t0", 5)
    ∷ (codes "t1", 6)
    ∷ (codes "t2", 7)
    ∷ (codes "s0", 8)
    ∷ (codes "fp", 8)
    ∷ (codes "s1", 9)
    ∷ (codes "a0", 10)
    ∷ (codes "a1", 11)
    ∷ (codes "a2", 12)
    ∷ (codes "a3", 13)
    ∷ (codes "a4", 14)
    ∷ (codes "a5", 15)
    ∷ (codes "a6", 16)
    ∷ (codes "a7", 17)
    ∷ (codes "s2", 18)
    ∷ (codes "s3", 19)
    ∷ (codes "s4", 20)
    ∷ (codes "s5", 21)
    ∷ (codes "s6", 22)
    ∷ (codes "s7", 23)
    ∷ (codes "s8", 24)
    ∷ (codes "s9", 25)
    ∷ (codes "s10", 26)
    ∷ (codes "s11", 27)
    ∷ (codes "t3", 28)
    ∷ (codes "t4", 29)
    ∷ (codes "t5", 30)
    ∷ (codes "t6", 31)
    ∷ []

-- `re.fullmatch(r"x([0-9]+)", t)`, and the number of the group
unfoldable pub match_x : Text → Option ℕ
unfolding digits
match_x [] = none
match_x (c ∷ s) = if c == b'x' then digits 10 s else none

reg_in_range : ℕ → Option ℕ → Result ℕ
reg_in_range lineno none = fail (asm_error lineno)
reg_in_range lineno (some n) = if leb n 31 then ok n else fail (asm_error lineno)

unfoldable pub parse_reg : Text → ℕ → Result ℕ
unfolding match_x reg_in_range
parse_reg tok lineno =
    let t = lower (strip tok) in
    elim (lookup t reg_aliases) [ some n ↦ ok n | none ↦ reg_in_range lineno (match_x t) ]

abbrev pub either_prefix : Text → String → String → Bool
either_prefix t a b = starts_with (codes a) t || starts_with (codes b) t

unfoldable pub int_of_literal : Text → Option ℤ
unfolding int_of_text
int_of_literal t =
    if either_prefix t "-0x" "-0X"
    then option_map negate (int_of_text (drop 3 t) 16)
    else if either_prefix t "0x" "0X"
    then int_of_text (drop 2 t) 16
    else if either_prefix t "-0b" "-0B"
    then option_map negate (int_of_text (drop 3 t) 2)
    else if either_prefix t "0b" "0B"
    then int_of_text (drop 2 t) 2
    else if either_prefix t "-0o" "-0O"
    then option_map negate (int_of_text (drop 3 t) 8)
    else if either_prefix t "0o" "0O"
    then int_of_text (drop 2 t) 8
    else int_of_text t 10

unfoldable pub parse_int : Text → ℕ → Result ℤ
unfolding int_of_literal
parse_int tok lineno = elim (int_of_literal (remove_char b'_' (strip tok))) [
  | some v ↦ ok v
  | none ↦ fail (asm_error lineno)
]
