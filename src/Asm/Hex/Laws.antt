-- ===== src/Asm/Hex/Laws.antt =====
-- The hex file of tools/assembler/assemble.py, read as `$readmemh` reads it, gives the words back.
use native.Mathlib.Nat.{pow-suc, mul_comm, mul_assoc}
use risc_forge.Base.{
  ℕ, zero, suc, ◌+◌, ◌*◌, ◌/◌, ◌%◌, ◌^◌, ◌<◌, ◌≡◌, ◌==◌, refl, ap, ap₂, Bool-cases, inl, inr,
  if_cases, ◌∙◌, List, [], ◌∷◌, Option, none, some, arith, All, ltb, if◌then◌else◌,
}
use mathlib.Core.List.{◌++◌}
use risc_forge.Base.Text.{Text}
use risc_forge.Base.Numerals.{digit_value}
use risc_forge.Asm.Hex.{hex_digit, hex_rest, hex_padded, to_hex_lines}

abbrev and_cons : ℕ → Option (List ℕ) → Option (List ℕ)
and_cons w none = none
and_cons w (some ws) = some (w ∷ ws)

-- A file with one hexadecimal number on each line, after `n` digits of a line, which are `v`.
abbrev pub read_hex : ℕ → ℕ → Text → Option (List ℕ)
read_hex n v [] = if n == 0 then some [] else none
read_hex n v (c ∷ s) =
    let next = and_cons v (read_hex 0 0 s) in
    let on = read_hex (n + 1) (16 * v + digit_value c) s in
    if c == b'\n'
    then (if n == 0 then none else next)
    else if ltb (digit_value c) 16
    then on
    else none

digit_value-hex_digit : (d : ℕ) → d < 16 → digit_value (hex_digit d) ≡ d
digit_value-hex_digit d h = ground arith

hex_digit_visible : (d : ℕ) → b'\n' < hex_digit d
hex_digit_visible d = ground arith

-- A digit is read onto the number before it.
read_hex-digit :
    (n v d : ℕ) (s : Text)
    → d < 16
    → read_hex n v (hex_digit d ∷ s) ≡ read_hex (n + 1) (16 * v + d) s
read_hex-digit n v d s h =
    let same = digit_value-hex_digit d h in
    let visible = hex_digit_visible d in
    if_cases (λ r. r ≡ read_hex (n + 1) (16 * v + d) s) (hex_digit d == b'\n')
      (λ e. absurd (ground arith))
      λ e.
        if_cases (λ r. r ≡ read_hex (n + 1) (16 * v + d) s) (ltb (digit_value (hex_digit d)) 16)
          (λ f. ap (λ (x : ℕ). read_hex (n + 1) (16 * v + x) s) same) (λ f. absurd (ground arith))

append-hex_rest : (fuel w : ℕ) (s t : Text) → hex_rest fuel w s ++ t ≡ hex_rest fuel w (s ++ t)
unfolding hex_rest
append-hex_rest zero w s t = refl
append-hex_rest (suc fuel) w s t = elim (Bool-cases (w == 0)) [
  | inl e ↦ rw e refl
  | inr e ↦ rw e (append-hex_rest fuel (w / 16) (hex_digit (w % 16) ∷ s) t)
]

append-hex_padded : (n w : ℕ) (s t : Text) → hex_padded n w s ++ t ≡ hex_padded n w (s ++ t)
unfolding hex_padded
append-hex_padded zero w s t = append-hex_rest w w s t
append-hex_padded (suc n) w s t = append-hex_padded n (w / 16) (hex_digit (w % 16) ∷ s) t

scaled : (k v : ℕ) → 16 ^ suc k * v ≡ 16 * (16 ^ k * v)
scaled k v = ap (λ (p : ℕ). p * v) (pow-suc 16 k ∙ mul_comm (16 ^ k) 16) ∙ mul_assoc 16 (16 ^ k) v

read_hex-hex_padded :
    (k w n v : ℕ) (s : Text)
    → w < 16 ^ k
    → read_hex n v (hex_padded k w s) ≡ read_hex (n + k) (16 ^ k * v + w) s
unfolding hex_padded hex_rest
read_hex-hex_padded zero w n v s h =
    let none_left : w ≡ 0 = omega arith in
    ap (λ (x : ℕ). read_hex n v (hex_rest x x s)) none_left
    ∙ ap₂ (λ (m x : ℕ). read_hex m x s) (omega arith) (omega arith)
read_hex-hex_padded (suc k) w n v s h =
    read_hex-hex_padded k (w / 16) n v (hex_digit (w % 16) ∷ s) (omega (arith, pow-suc 16 k))
    ∙ read_hex-digit (n + k) (16 ^ k * v + w / 16) (w % 16) s (omega arith)
    ∙ ap₂ (λ (m x : ℕ). read_hex m x s) (omega arith) (omega (arith, scaled k v))

-- For all words less than 2 ^ 32: the file that `to_hex_lines` makes of them is read as these words.
pub read_hex-to_hex_lines :
    (words : List ℕ) → All (λ w. w < 2 ^ 32) words → read_hex 0 0 (to_hex_lines words) ≡ some words
unfolding to_hex_lines
read_hex-to_hex_lines [] h = refl
read_hex-to_hex_lines (w ∷ words) (small, rest) =
    ap (read_hex 0 0) (append-hex_padded 8 w [] (b'\n' ∷ to_hex_lines words))
    ∙ read_hex-hex_padded 8 w 0 0 (b'\n' ∷ to_hex_lines words) (omega arith)
    ∙ ap₂ and_cons (omega arith) (read_hex-to_hex_lines words rest)
