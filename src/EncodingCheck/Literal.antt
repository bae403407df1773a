-- ===== src/EncodingCheck/Literal.antt =====
-- `parse_sv_int_literal` of scripts/encoding_check.py. `none` is Python's ValueError.
use mathlib.Core.Option.{map as option_map}
use risc_forge.Base.{ℕ, ◌&&◌, ◌||◌, Bool, [], ◌∷◌, Option, none, some, leb, ◌==◌, if◌then◌else◌}
use risc_forge.Base.Int.{ℤ, pos}
use risc_forge.Base.Text.{Text, is_digit, strip, remove_char, lower_char}
use risc_forge.Base.Numerals.{int_of_text, digits, negate}
use risc_forge.Base.Scan.{drop_while}

-- `{"b": 2, "d": 10, "h": 16, "o": 8}[c.lower()]`
abbrev pub base_of : ℕ → Option ℕ
base_of c =
    let l = lower_char c in
    if l == b'b'
    then some 2
    else if l == b'd'
    then some 10
    else if l == b'h'
    then some 16
    else if l == b'o'
    then some 8
    else none

abbrev is_hex_char : ℕ → Bool
is_hex_char c = is_digit c || (leb b'a' c && leb c b'f') || (leb b'A' c && leb c b'F') || c == b'_'

abbrev sized_number : Option ℕ → Text → Option (ℕ × Text)
sized_number none s = none
sized_number (some base) [] = none
sized_number (some base) (c ∷ s) = elim (drop_while is_hex_char (c ∷ s)) [
  | [] ↦ some (base, c ∷ s)
  | _ ∷ _ ↦ none
]

abbrev after_width : Text → Option (ℕ × Text)
after_width (q ∷ (b ∷ s)) = if q == b'\'' then sized_number (base_of b) s else none
after_width s = none

-- `_INT_LITERAL.fullmatch(s)`, as the base and the digits
unfoldable pub match_literal : Text → Option (ℕ × Text)
match_literal [] = none
match_literal (c ∷ s) = if is_digit c then after_width (drop_while is_digit (c ∷ s)) else none

-- A decimal numeral of `int(text, 0)`: a zero may stand first only in a numeral that is zero.
abbrev decimal : Text → Option ℕ
decimal [] = none
decimal (c ∷ s) = elim (digits 10 (c ∷ s)) [
  | none ↦ none
  | some n ↦ if c == b'0' then (if n == 0 then some 0 else none) else some n
]

-- A numeral of `int(text, 0)` without its sign
unfoldable pub auto_digits : Text → Option ℕ
auto_digits (z ∷ (l ∷ s)) =
    let k = lower_char l in
    if z == b'0' && k == b'x'
    then digits 16 s
    else if z == b'0' && k == b'b'
    then digits 2 s
    else if z == b'0' && k == b'o'
    then digits 8 s
    else decimal (z ∷ (l ∷ s))
auto_digits s = decimal s

abbrev signed_auto : Text → Option ℤ
signed_auto [] = none
signed_auto (c ∷ s) =
    let plain : ℕ → ℤ = pos in
    let minus : ℕ → ℤ = λ n. negate (pos n) in
    if c == b'-'
    then option_map minus (auto_digits s)
    else if c == b'+'
    then option_map plain (auto_digits s)
    else option_map plain (auto_digits (c ∷ s))

-- `int(s, 0)`, on a text with no underscore
unfoldable pub int_auto : Text → Option ℤ
unfolding auto_digits
int_auto s = signed_auto (strip s)

abbrev number_of : Option (ℕ × Text) → Text → Option ℤ
number_of (some (base, s)) _ = int_of_text s base
number_of none s = int_auto s

unfoldable pub parse_sv_int_literal : Text → Option ℤ
unfolding match_literal int_auto int_of_text
parse_sv_int_literal text = let s = remove_char b'_' (strip text) in number_of (match_literal s) s
