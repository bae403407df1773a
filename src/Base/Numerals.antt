-- ===== src/Base/Numerals.antt =====
-- Python's `int(text, base)`, for the assembler and for the check of the encodings.
use mathlib.Core.Option.{map as option_map}
use risc_forge.Base.Tests.{ltb, leb, ◌==◌, if◌then◌else◌}
use Prim.Native.Nat.{ℕ, ◌+◌, ◌-◌, ◌*◌}
use mathlib.Core.Bool.{◌&&◌, ◌||◌, not}
use mathlib.Core.Option.{Option, none, some}
use mathlib.Core.List.{[], ◌∷◌}
use risc_forge.Base.Int.{ℤ, pos, ◌-ℤ◌}
use risc_forge.Base.Text.{Text, is_digit, strip}

-- The value of a digit in a base, for `int(text, base)`.
abbrev pub digit_value : ℕ → ℕ
digit_value c =
    if is_digit c
    then c - b'0'
    else if leb b'a' c && leb c b'z'
    then c - b'a' + 10
    else if leb b'A' c && leb c b'Z'
    then c - b'A' + 10
    else 99

-- The digits of a number, most significant first, read onto the number before them.
unfoldable pub digits_onto : ℕ → ℕ → Text → Option ℕ
digits_onto base acc [] = some acc
digits_onto base acc (c ∷ s) =
    let rest = digits_onto base (base * acc + digit_value c) s in
    if ltb (digit_value c) base then rest else none

-- At least one digit.
unfoldable pub digits : ℕ → Text → Option ℕ
unfolding digits_onto
digits base [] = none
digits base (c ∷ s) = digits_onto base 0 (c ∷ s)

-- The base's own prefix, which `int(text, base)` skips once: a zero and one of two letters. Base 10 has
-- none, which is 0 here.
abbrev pub base_letter : ℕ → ℕ
base_letter base =
    if base == 16 then b'x' else if base == 2 then b'b' else if base == 8 then b'o' else 0

abbrev pub skip_prefix : ℕ → Text → Text
skip_prefix base (z ∷ (l ∷ s)) =
    if z == b'0'
      && not (base_letter base == 0)
      && (l == base_letter base || l + 32 == base_letter base)
    then s
    else z ∷ (l ∷ s)
skip_prefix base s = s

abbrev pub negate : ℤ → ℤ
negate v = pos 0 -ℤ v

abbrev pub signed_digits : ℕ → Text → Option ℤ
signed_digits base [] = none
signed_digits base (c ∷ s) =
    let plain : ℕ → ℤ = pos in
    let minus : ℕ → ℤ = λ n. negate (pos n) in
    if c == b'-'
    then option_map minus (digits base (skip_prefix base s))
    else if c == b'+'
    then option_map plain (digits base (skip_prefix base s))
    else option_map plain (digits base (skip_prefix base (c ∷ s)))

-- Python's `int(text, base)` on a text with no underscore; `none` is its ValueError.
unfoldable pub int_of_text : Text → ℕ → Option ℤ
unfolding digits ◌-ℤ◌
int_of_text s base = signed_digits base (strip s)
