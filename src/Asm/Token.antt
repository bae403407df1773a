-- ===== src/Asm/Token.antt =====
-- `tokenize` and `_split_args` of tools/assembler/assemble.py, and `assemble` from the text on. The
-- regular expressions are written out as scans. A source text is taken to be ASCII.
pub mod Wellformed
use risc_forge.Base.{
  ℕ, ◌+◌, Bool, true, false, ◌&&◌, ◌||◌, List, [], ◌∷◌, Option, none, some, leb, ◌==◌,
  if◌then◌else◌,
}
use mathlib.Core.List.{reverse, ◌++◌}
use mathlib.Core.Option.{get_or}
use risc_forge.Base.Text.{
  Text, codes, is_space, is_digit, is_alpha, lower, lstrip, strip, starts_with,
}
use risc_forge.Base.Scan.{split_lines, take_while, drop_while}
use risc_forge.Asm.Error.{Result}
use risc_forge.Asm.Line.{Line, Section}
use risc_forge.Asm.Image.{assemble_lines}

-- `_COMMENT_RE.sub("", raw)`: what stands before the first `#` or `//`
unfoldable pub strip_comment : Text → Text
strip_comment [] = []
strip_comment (c ∷ s) =
    let rest = strip_comment s in
    if c == b'#' || (c == b'/' && starts_with (codes "/") s) then [] else c ∷ rest

abbrev is_label_start : ℕ → Bool
is_label_start c = is_alpha c || c == b'_' || c == b'.'

abbrev is_label_char : ℕ → Bool
is_label_char c = is_label_start c || is_digit c || c == b'$'

abbrev after_colon : Text → Text → Option (Text × Text)
after_colon name [] = none
after_colon name (c ∷ s) = if c == b':' then some (name, lstrip s) else none

-- `_LABEL_RE.match(line)`, and its two groups
unfoldable pub match_label : Text → Option (Text × Text)
match_label [] = none
match_label (c ∷ s) =
    if is_label_start c
    then after_colon (take_while is_label_char (c ∷ s)) (lstrip (drop_while is_label_char (c ∷ s)))
    else none

abbrev last_char : Text → Text
last_char [] = []
last_char (c ∷ []) = c ∷ []
last_char (c ∷ (d ∷ s)) = last_char (d ∷ s)

-- The group between parentheses: without the blanks around it, of which one stays if all are blank.
abbrev group_of : Text → Text
group_of inner = elim (strip inner) [ [] ↦ last_char inner | c ∷ s ↦ c ∷ s ]

-- The text since an open parenthesis, reversed, when a character comes.
abbrev next_open : Option Text → ℕ → Option Text
next_open none c = if c == b'(' then some [] else none
next_open (some acc) c = if c == b'(' then some [] else if c == b')' then none else some (c ∷ acc)

-- `(inner)` becomes `, inner`, and `()` stays.
abbrev close : Text → Text
close [] = codes "()"
close (c ∷ acc) = codes ", " ++ group_of (reverse (c ∷ acc))

-- What is put out when a character comes.
abbrev put_out : Option Text → ℕ → Text
put_out none c = if c == b'(' then [] else c ∷ []
put_out (some acc) c = if c == b'(' then b'(' ∷ reverse acc else if c == b')' then close acc else []

abbrev normalize_onto : Option Text → Text → Text
normalize_onto none [] = []
normalize_onto (some acc) [] = b'(' ∷ reverse acc
normalize_onto st (c ∷ s) = put_out st c ++ normalize_onto (next_open st c) s

-- `re.sub(r"\(\s*([^()]+?)\s*\)", r", \1", rest)`
unfoldable pub normalize : Text → Text
normalize rest = normalize_onto none rest

abbrev split_onto : Text → Text → List Text
split_onto acc [] = reverse acc ∷ []
split_onto acc (c ∷ s) =
    let rest = split_onto (if c == b',' then [] else c ∷ acc) s in
    if c == b',' then reverse acc ∷ rest else rest

abbrev cons_nonempty : Text → List Text → List Text
cons_nonempty [] args = args
cons_nonempty (c ∷ a) args = (c ∷ a) ∷ args

abbrev strip_all : List Text → List Text
strip_all [] = []
strip_all (a ∷ args) = cons_nonempty (strip a) (strip_all args)

-- `_split_args`
unfoldable pub split_args : Text → List Text
unfolding normalize
split_args rest = elim (strip rest) [
  | [] ↦ []
  | c ∷ s ↦ strip_all (split_onto [] (normalize (c ∷ s)))
]

abbrev not_space : ℕ → Bool
not_space c = if is_space c then false else true

-- The line of a label, if any, and the text after it.
abbrev token_of : ℕ → Option Text → Text → Line
token_of lineno label [] = record {
  lineno = lineno;
  label = label;
  op = none;
  args = [];
  section = Section.text;
  pc = 0;
  size = 0;
}
token_of lineno label (c ∷ s) = record {
  lineno = lineno;
  label = label;
  op = some (lower (take_while not_space (c ∷ s)));
  args = split_args (lstrip (drop_while not_space (c ∷ s)));
  section = Section.text;
  pc = 0;
  size = 0;
}

abbrev with_label : ℕ → Text → Option (Text × Text) → Line
with_label lineno line none = token_of lineno none line
with_label lineno line (some (label, rest)) = token_of lineno (some label) (strip rest)

abbrev tokens_from : ℕ → List Text → List Line
tokens_from lineno [] = []
tokens_from lineno (raw ∷ raws) =
    let rest = tokens_from (lineno + 1) raws in
    elim (strip (strip_comment raw)) [
      | [] ↦ rest
      | c ∷ s ↦ with_label lineno (c ∷ s) (match_label (c ∷ s)) ∷ rest
    ]

unfoldable pub tokenize : Text → List Line
unfolding split_lines
tokenize source = tokens_from 1 (split_lines source)

unfoldable pub assemble : Text → ℕ → Option ℕ → Result (List ℕ)
unfolding tokenize
assemble source text_base data_base = assemble_lines (tokenize source) text_base data_base
