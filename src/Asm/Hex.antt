-- ===== src/Asm/Hex.antt =====
-- What tools/assembler/assemble.py writes: `to_hex_lines`, and `_cli` on its arguments as they are
-- parsed.
pub mod Laws
pub mod Command
use risc_forge.Base.{
  ℕ, zero, suc, ◌+◌, ◌-◌, ◌/◌, ◌%◌, ◌==◌, ltb, List, [], ◌∷◌, Option, none, some, length,
  if◌then◌else◌,
}
use mathlib.Core.List.{◌++◌}
use risc_forge.Base.Text.{Text}
use risc_forge.Asm.Error.{Result, ok, fail, Failure, asm_error, value_error}
use risc_forge.Asm.Token.{assemble}

-- A digit of `f"{w:x}"`
abbrev pub hex_digit : ℕ → ℕ
hex_digit d = if ltb d 10 then b'0' + d else b'a' + (d - 10)

-- The digits that are left after the padded ones: at most as many as the number.
unfoldable pub hex_rest : ℕ → ℕ → Text → Text
hex_rest zero w s = s
hex_rest (suc fuel) w s =
    let rest = hex_rest fuel (w / 16) (hex_digit (w % 16) ∷ s) in if w == 0 then s else rest

-- `f"{w:0nx}"`, before the digits `s`: at least `n` digits
unfoldable pub hex_padded : ℕ → ℕ → Text → Text
unfolding hex_rest
hex_padded zero w s = hex_rest w w s
hex_padded (suc n) w s = hex_padded n (w / 16) (hex_digit (w % 16) ∷ s)

unfoldable pub to_hex_lines : List ℕ → Text
unfolding hex_padded
to_hex_lines [] = []
to_hex_lines (w ∷ words) = hex_padded 8 w [] ++ b'\n' ∷ to_hex_lines words

-- The status of `_cli`, and what it writes to the output file, if anything
pub record Outcome : Type 0 where
  pub status : ℕ
  pub written : Option Text

abbrev pub finish : Result (List ℕ) → Result Outcome
finish (ok words) = ok (record { status = 0; written = some (to_hex_lines words) })
finish (fail (asm_error lineno)) = ok (record { status = 1; written = none })
finish (fail value_error) = fail value_error

-- `_cli`, on the text of the source file, or `none` if it cannot be read
unfoldable pub cli : Option Text → ℕ → Result Outcome
unfolding to_hex_lines
cli none base = ok (record { status = 2; written = none })
cli (some text) base = finish (assemble text base none)
