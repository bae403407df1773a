-- ===== src/EncodingCheck/Package.antt =====
-- The scans of scripts/encoding_check.py over the SystemVerilog package: `parse_sv_enum` and
-- `parse_sv_localparam`, with the regular expressions written out. `none` is Python's ValueError.
use risc_forge.Base.{
  ℕ, Bool, true, false, ◌&&◌, ◌||◌, not, List, [], ◌∷◌, Option, none, some, ◌==◌, if◌then◌else◌,
}
use mathlib.Core.List.{reverse}
use risc_forge.Base.Int.{ℤ}
use risc_forge.Base.Text.{
  Text, codes, text_eq, is_digit, is_alpha, is_space, strip, lstrip, starts_with,
}
use risc_forge.Base.Scan.{split_lines, take_while, drop_while}
use risc_forge.EncodingCheck.Literal.{parse_sv_int_literal}

-- The text after a prefix.
abbrev pub after_prefix : Text → Text → Option Text
after_prefix [] s = some s
after_prefix (p ∷ prefix) [] = none
after_prefix (p ∷ prefix) (c ∷ s) =
    let rest = after_prefix prefix s in if p == c then rest else none

abbrev pub and_then {ℓ κ} : {A : Type ℓ} {B : Type κ} → Option A → (A → Option B) → Option B
and_then none f = none
and_then (some a) f = f a

abbrev is_present {ℓ} : {A : Type ℓ} → Option A → Bool
is_present none = false
is_present (some a) = true

-- At least one blank, and the text after the blanks
abbrev after_blanks : Text → Option Text
after_blanks [] = none
after_blanks (c ∷ s) = if is_space c then some (lstrip s) else none

-- `^\s*\}\s*NAME\s*;`
unfoldable pub is_close : Text → Text → Bool
is_close name line = is_present (
    and_then (after_prefix (codes "}") (lstrip line))
      λ s. and_then (after_prefix name (lstrip s)) λ t. after_prefix (codes ";") (lstrip t))

abbrev is_word_char : ℕ → Bool
is_word_char c = is_alpha c || is_digit c || c == b'_'

abbrev at_boundary : Text → Bool
at_boundary [] = true
at_boundary (c ∷ s) = not (is_word_char c)

abbrev boundary_after : Option Text → Bool
boundary_after none = false
boundary_after (some s) = at_boundary s

-- `^\s*typedef\s+enum\b`
unfoldable pub is_open : Text → Bool
is_open line = boundary_after (
    and_then (after_prefix (codes "typedef") (lstrip line))
      λ s. and_then (after_blanks s) λ t. after_prefix (codes "enum") t)

-- The lines above the first closing line, the last of them first.
unfoldable pub above_close : Text → List Text → List Text → Option (List Text)
above_close name above [] = none
above_close name above (line ∷ lines) =
    let rest = above_close name (line ∷ above) lines in
    if is_close name line then some above else rest

-- Back to the nearest opening line: the lines between, in their order.
unfoldable pub below_open : List Text → List Text → Option (List Text)
below_open between [] = none
below_open between (line ∷ above) =
    let rest = below_open (line ∷ between) above in if is_open line then some between else rest

-- `re.sub(r"//.*", "", raw)`
unfoldable pub strip_slashes : Text → Text
strip_slashes [] = []
strip_slashes (c ∷ s) =
    let rest = strip_slashes s in if c == b'/' && starts_with (codes "/") s then [] else c ∷ rest

abbrev is_comma : ℕ → Bool
is_comma c = c == b','

-- `s.rstrip(",")`
abbrev pub rstrip_commas : Text → Text
rstrip_commas s = reverse (drop_while is_comma (reverse s))

-- `line.partition("=")`, if there is a separator
unfoldable pub partition_eq : Text → Option (Text × Text)
partition_eq [] = none
partition_eq (c ∷ s) =
    let rest = and_then (partition_eq s) λ p. some (c ∷ p.0, p.1) in
    if c == b'=' then some ([], s) else rest

-- A dict from names to numbers, in the order of insertion.
abbrev pub Dict : Type 0
Dict = List (Text × ℤ)

-- `d[k] = v`
unfoldable pub dict_set : Text → ℤ → Dict → Dict
dict_set k v [] = (k, v) ∷ []
dict_set k v ((j, w) ∷ d) =
    let rest = dict_set k v d in if text_eq j k then (j, v) ∷ d else (j, w) ∷ rest

abbrev pub member_of : Text × Text → Dict → Option Dict
member_of (name, val) members =
    and_then (parse_sv_int_literal (strip val)) λ v. some (dict_set (strip name) v members)

-- One line between the braces, without its comment, its blanks and the commas at its end.
unfoldable pub add_member : Text → Dict → Option Dict
unfolding partition_eq dict_set parse_sv_int_literal
add_member [] members = some members
add_member (c ∷ s) members = and_then (partition_eq (c ∷ s)) λ p. member_of p members

unfoldable pub parse_members : List Text → Dict → Option Dict
unfolding strip_slashes add_member
parse_members [] members = some members
parse_members (raw ∷ lines) members =
    and_then (add_member (strip (rstrip_commas (strip (strip_slashes raw)))) members)
      (parse_members lines)

unfoldable pub parse_sv_enum : Text → Text → Option Dict
unfolding above_close below_open is_close is_open parse_members
parse_sv_enum sv_text typedef_name =
    and_then (above_close typedef_name [] (split_lines sv_text))
      λ above. and_then (below_open [] above) λ between. parse_members between []

abbrev not_bracket : ℕ → Bool
not_bracket c = not (c == b']')

abbrev not_semicolon : ℕ → Bool
not_semicolon c = not (c == b';')

abbrev nonempty : Text → Option Text
nonempty [] = none
nonempty (c ∷ s) = some (c ∷ s)

-- `logic\s*\[[^\]]+\]\s+`
abbrev after_logic : Text → Option Text
after_logic s = and_then (after_prefix (codes "logic") s) λ t.
    and_then (after_prefix (codes "[") (lstrip t)) λ u.
      and_then (nonempty (take_while not_bracket u))
        λ _. and_then (after_prefix (codes "]") (drop_while not_bracket u)) after_blanks

-- `int\s+`
abbrev after_int : Text → Option Text
after_int s = and_then (after_prefix (codes "int") s) after_blanks

-- `NAME\s*=\s*([^;]+);`, and what the group holds, up to blanks around it
abbrev param_value : Text → Text → Option Text
param_value name s = and_then (after_prefix name s) λ t.
    and_then (after_prefix (codes "=") (lstrip t)) λ u.
      and_then (nonempty (take_while not_semicolon u))
        λ v. and_then (after_prefix (codes ";") (drop_while not_semicolon u)) λ _. some v

abbrev pub or_else {ℓ} : {A : Type ℓ} → Option A → Option A → Option A
or_else none b = b
or_else (some a) b = some a

-- The match of the whole pattern at one place: the optional type first, then without it.
unfoldable pub param_here : Text → Text → Option Text
param_here name s = and_then (after_prefix (codes "localparam") s) λ t.
    and_then (after_blanks t) λ u.
      or_else (and_then (or_else (after_logic u) (after_int u)) (param_value name))
        (param_value name u)

-- `pat.search(sv_text)`: the first place with a match
unfoldable pub search_param : Text → Text → Option Text
unfolding param_here
search_param name [] = none
search_param name (c ∷ s) = or_else (param_here name (c ∷ s)) (search_param name s)

unfoldable pub parse_sv_localparam : Text → Text → Option ℤ
unfolding search_param parse_sv_int_literal
parse_sv_localparam sv_text name =
    and_then (search_param name sv_text) λ v. parse_sv_int_literal (strip v)
