-- ===== src/Asm/Token/Wellformed.antt =====
-- What `tokenize` of tools/assembler/assemble.py returns, on every text.
use risc_forge.Base.{ℕ, ◌+◌, ◌≤◌, ◌≡◌, List, [], ◌∷◌, Option, none, some, All, arith, refl, subst}
use risc_forge.Base.Text.{Text, strip, lstrip}
use risc_forge.Base.Scan.{split_lines, drop_while}
use risc_forge.Asm.Line.{Line}
use risc_forge.Asm.Token.{
  split_args, split_onto, normalize, strip_all, cons_nonempty, strip_comment, match_label, token_of,
  with_label, tokens_from, tokenize, not_space,
}

abbrev pub IsNonempty : Text → Type 0
IsNonempty [] = ⊥
IsNonempty (c ∷ s) = Unit

-- A line has a mnemonic or a label.
abbrev pub HasContent : Option Text → Option Text → Type 0
HasContent none none = ⊥
HasContent none (some op) = Unit
HasContent (some label) op = Unit

-- Lines with growing numbers, from `n` on, which have content and no empty operand.
abbrev pub AreTokens : ℕ → List Line → Type 0
AreTokens n [] = Unit
AreTokens n (ln ∷ lines) =
    (n ≤ ln.lineno)
    × All IsNonempty ln.args
    × HasContent ln.label ln.op
    × AreTokens (ln.lineno + 1) lines

cons_nonempty-All :
    (a : Text) (args : List Text) → All IsNonempty args → All IsNonempty (cons_nonempty a args)
cons_nonempty-All [] args h = h
cons_nonempty-All (c ∷ a) args h = (tt, h)

strip_all-All : (args : List Text) → All IsNonempty (strip_all args)
strip_all-All [] = tt
strip_all-All (a ∷ args) = cons_nonempty-All (strip a) (strip_all args) (strip_all-All args)

split_args-All : (rest : Text) → All IsNonempty (split_args rest)
unfolding split_args
split_args-All rest =
    elim (strip rest)
      as (λ t.
        All IsNonempty
          (elim t [ [] ↦ [] | c ∷ s ↦ strip_all (split_onto [] (normalize (c ∷ s))) ])) [
            | [] ↦ tt
            | c ∷ s ↦ strip_all-All (split_onto [] (normalize (c ∷ s)))
          ]

AreTokens-earlier : (n : ℕ) (lines : List Line) → AreTokens (n + 1) lines → AreTokens n lines
AreTokens-earlier n [] h = tt
AreTokens-earlier n (ln ∷ lines) (h, args, content, rest) = (omega arith, args, content, rest)

-- What is said of one line.
abbrev IsToken : ℕ → Line → Type 0
IsToken n ln = (n ≡ ln.lineno) × All IsNonempty ln.args × HasContent ln.label ln.op

token_of-IsToken : (n : ℕ) (label : Text) (rest : Text) → IsToken n (token_of n (some label) rest)
token_of-IsToken n label [] = (refl, tt, tt)
token_of-IsToken n label (c ∷ s) =
    (refl, split_args-All (lstrip (drop_while not_space (c ∷ s))), tt)

with_label-IsToken :
    (n c : ℕ) (s : Text) (m : Option (Text × Text)) → IsToken n (with_label n (c ∷ s) m)
with_label-IsToken n c s none = (refl, split_args-All (lstrip (drop_while not_space (c ∷ s))), tt)
with_label-IsToken n c s (some (label, rest)) = token_of-IsToken n label (strip rest)

cons-AreTokens :
    (n : ℕ) (ln : Line) (lines : List Line)
    → IsToken n ln
    → AreTokens (n + 1) lines
    → AreTokens n (ln ∷ lines)
cons-AreTokens n ln lines (number, args, content) rest =
    (omega (arith, number), args, content, subst (λ k. AreTokens (k + 1) lines) number rest)

-- The text of one line, before the others.
line-AreTokens :
    (n : ℕ) (line : Text) (rest : List Line)
    → AreTokens (n + 1) rest
    → AreTokens n
        (elim line [ [] ↦ rest | c ∷ s ↦ with_label n (c ∷ s) (match_label (c ∷ s)) ∷ rest ])
line-AreTokens n [] rest h = AreTokens-earlier n rest h
line-AreTokens n (c ∷ s) rest h =
    cons-AreTokens n (with_label n (c ∷ s) (match_label (c ∷ s))) rest
      (with_label-IsToken n c s (match_label (c ∷ s))) h

tokens_from-AreTokens : (n : ℕ) (raws : List Text) → AreTokens n (tokens_from n raws)
tokens_from-AreTokens n [] = tt
tokens_from-AreTokens n (raw ∷ raws) =
    line-AreTokens n (strip (strip_comment raw)) (tokens_from (n + 1) raws)
      (tokens_from-AreTokens (n + 1) raws)

-- For every text, the lines that `tokenize` returns have growing line numbers, from 1 on, each has
-- a mnemonic or a label, and no operand is empty.
pub tokenize-AreTokens : (source : Text) → AreTokens 1 (tokenize source)
unfolding tokenize
tokenize-AreTokens source = tokens_from-AreTokens 1 (split_lines source)
