-- ===== src/Asm/Image/Extent.antt =====
-- Pass 2 of tools/assembler/assemble.py puts no more bytes into the image than pass 1 has reserved,
-- and each is one.
use risc_forge.Base.{
  ℕ, ◌*◌, ◌^◌, ◌<◌, ◌≤◌, ◌≡◌, refl, List, [], ◌∷◌, true, arith, length, All, if_cases, subst, suc,
}
use risc_forge.Base.Text.{Text, ◌is◌}
use risc_forge.Asm.Error.{Result, ok, fail, ◌>>=◌}
use risc_forge.Asm.Line.{Line, Syms}
use risc_forge.Asm.Encode.Real.{resolve}
use risc_forge.Asm.Encode.{encode_values, encode_instruction, encode_op, is_layout}
use risc_forge.Base.Int.{and_mask}
use risc_forge.Asm.Layout.{instruction_size}
use risc_forge.Asm.Layout.Agree.{encode_instruction-size}
use risc_forge.Asm.Layout.Places.{reserved}
use risc_forge.Asm.Layout.Sizes.{IsInstructionWord}
use risc_forge.Asm.Image.Bytes.{words_bytes, low_bytes, line_bytes}

length-words_bytes : (words : List ℕ) → length (words_bytes words) ≡ 4 * length words
length-words_bytes [] = refl
length-words_bytes (w ∷ words) = omega (arith, length-words_bytes words)

length-low_bytes : (bytes : List ℕ) → length (low_bytes bytes) ≡ length bytes
length-low_bytes [] = refl
length-low_bytes (b ∷ bytes) = omega (arith, length-low_bytes bytes)

length-line_bytes : (op : Text) (out : List ℕ) → length (line_bytes op out) ≤ 4 * length out
length-line_bytes op out =
    if_cases (λ bytes. length bytes ≤ 4 * length out) (op is ".byte")
      (λ e. omega (arith, length-low_bytes out)) (λ e. omega (arith, length-words_bytes out))

-- A result has `n` values.
abbrev HasCount : ℕ → Result (List ℕ) → Type 0
HasCount n (fail e) = Unit
HasCount n (ok out) = length out ≡ n

bind-HasCount {ℓ} :
    {A : Type ℓ} (n : ℕ) (r : Result A) (f : A → Result (List ℕ))
    → ((a : A) → HasCount n (f a))
    → HasCount n (r >>= f)
bind-HasCount n (fail e) f h = tt
bind-HasCount n (ok a) f h = h a

cons-HasCount :
    (n x : ℕ) (r : Result (List ℕ)) → HasCount n r → HasCount (suc n) (r >>= λ out. ok (x ∷ out))
cons-HasCount n x (fail e) h = tt
cons-HasCount n x (ok out) h = omega arith

encode_values-HasCount :
    (mask : ℕ) (args : List Text) (syms : Syms) (lineno : ℕ)
    → HasCount (length args) (encode_values mask args syms lineno)
unfolding encode_values
encode_values-HasCount mask [] syms lineno = refl
encode_values-HasCount mask (a ∷ args) syms lineno =
    bind-HasCount (length (a ∷ args)) (resolve a syms lineno) _ λ v.
      cons-HasCount (length args) (and_mask v mask) (encode_values mask args syms lineno)
        (encode_values-HasCount mask args syms lineno)

-- The bytes of a result have room in `n` bytes.
abbrev pub FitsIn : ℕ → Text → Result (List ℕ) → Type 0
FitsIn n op (fail e) = Unit
FitsIn n op (ok out) = length (line_bytes op out) ≤ n

instruction-FitsIn :
    (op : Text) (ln : Line) (syms : Syms)
    → FitsIn (instruction_size op) op (encode_instruction op ln syms)
instruction-FitsIn op ln syms =
    known (encode_instruction op ln syms) (encode_instruction-size op ln syms)
  where
    known :
        (r : Result (List ℕ))
        → ((ws : List ℕ)
            → r ≡ ok ws
            → (instruction_size op ≡ 4 * length ws) × All IsInstructionWord ws)
        → FitsIn (instruction_size op) op r
    known (fail e) h = tt
    known (ok ws) h = omega (arith, (h ws refl).0, length-line_bytes op ws)

word-FitsIn : (n : ℕ) (op : Text) (r : Result (List ℕ)) → HasCount n r → FitsIn (4 * n) op r
word-FitsIn n op (fail e) h = tt
word-FitsIn n op (ok out) h = omega (arith, length-line_bytes op out)

byte-FitsIn :
    (n : ℕ) (op : Text) (r : Result (List ℕ))
    → (op is ".byte") ≡ true
    → HasCount n r
    → FitsIn (1 * n) op r
byte-FitsIn n op (fail e) b h = tt
byte-FitsIn n op (ok out) b h = rw b (omega (arith, length-low_bytes out))

FitsIn-at : (m n : ℕ) (op : Text) (r : Result (List ℕ)) → n ≡ m → FitsIn n op r → FitsIn m op r
FitsIn-at m n op r e h = subst (λ k. FitsIn k op r) e h

none-FitsIn : (n : ℕ) (op : Text) → FitsIn n op (ok [])
none-FitsIn n op =
    if_cases (λ bytes. length bytes ≤ n) (op is ".byte") (λ e. omega arith) (λ e. omega arith)

pub encode_op-FitsIn :
    (op : Text) (ln : Line) (syms : Syms) → FitsIn (reserved op ln.args) op (encode_op op ln syms)
unfolding encode_op
encode_op-FitsIn op ln syms =
    let need = reserved op ln.args in
    let words = encode_values 0xffffffff ln.args syms ln.lineno in
    let bytes = encode_values 0xff ln.args syms ln.lineno in
    let others = encode_instruction op ln syms in
    let n = length ln.args in
    if_cases (FitsIn need op) (is_layout op) (λ e. none-FitsIn need op)
      λ l.
        if_cases (FitsIn need op) (op is ".word")
          (λ e.
            FitsIn-at need (4 * n) op words (ground arith)
              (word-FitsIn n op words (encode_values-HasCount 0xffffffff ln.args syms ln.lineno)))
          λ w.
            if_cases (FitsIn need op) (op is ".byte")
              (λ e.
                FitsIn-at need (1 * n) op bytes (ground arith)
                  (byte-FitsIn n op bytes e (encode_values-HasCount 0xff ln.args syms ln.lineno)))
              λ b.
                FitsIn-at need (instruction_size op) op others (ground arith)
                  (instruction-FitsIn op ln syms)

abbrev pub IsByte : ℕ → Type 0
IsByte b = b < 2 ^ 8

low_bytes-IsByte : (bytes : List ℕ) → All IsByte (low_bytes bytes)
low_bytes-IsByte [] = tt
low_bytes-IsByte (b ∷ bytes) = (omega arith, low_bytes-IsByte bytes)

words_bytes-IsByte : (words : List ℕ) → All IsByte (words_bytes words)
words_bytes-IsByte [] = tt
words_bytes-IsByte (w ∷ words) =
    (omega arith, (omega arith, (omega arith, (omega arith, words_bytes-IsByte words))))

pub line_bytes-IsByte : (op : Text) (out : List ℕ) → All IsByte (line_bytes op out)
line_bytes-IsByte op out =
    if_cases (All IsByte) (op is ".byte") (λ e. low_bytes-IsByte out) (λ e. words_bytes-IsByte out)
