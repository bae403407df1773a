-- ===== src/Base/Scan.antt =====
-- Python's `str.splitlines`, and spans of characters, for texts as lists of code points.
use risc_forge.Base.Tests.{leb, ◌==◌, if◌then◌else◌}
use Prim.Native.Nat.{ℕ}
use mathlib.Core.Bool.{Bool, false, ◌&&◌, ◌||◌}
use mathlib.Core.List.{List, [], ◌∷◌, reverse}
use risc_forge.Base.Text.{Text}

abbrev pub is_break : ℕ → Bool
is_break c = (leb 10 c && leb c 13) || (leb 28 c && leb c 30)

abbrev pub last_line : Text → List Text
last_line [] = []
last_line (c ∷ acc) = reverse (c ∷ acc) ∷ []

-- The lines of a text, after a part of a line (`acc`, reversed) and perhaps a carriage return.
abbrev pub lines_onto : Bool → Text → Text → List Text
lines_onto after_cr acc [] = last_line acc
lines_onto after_cr acc (c ∷ s) =
    let rest = lines_onto (c == 13) (if is_break c then [] else c ∷ acc) s in
    if after_cr && c == 10 then rest else if is_break c then reverse acc ∷ rest else rest

-- `str.splitlines`
unfoldable pub split_lines : Text → List Text
split_lines s = lines_onto false [] s

abbrev pub take_while : (ℕ → Bool) → Text → Text
take_while p [] = []
take_while p (c ∷ s) = let rest = take_while p s in if p c then c ∷ rest else []

abbrev pub drop_while : (ℕ → Bool) → Text → Text
drop_while p [] = []
drop_while p (c ∷ s) = let rest = drop_while p s in if p c then rest else c ∷ s
