-- ===== src/Asm/Hex/Command.antt =====
-- What `_cli` of tools/assembler/assemble.py returns and writes.
use risc_forge.Base.{
  ℕ, zero, suc, ◌+◌, ◌-◌, ◌/◌, ◌^◌, ◌<◌, ◌≡◌, refl, sym, subst, List, [], ◌∷◌, Option, none, some,
  arith, All, bit_and,
}
use risc_forge.Base.Text.{Text}
use risc_forge.Asm.Error.{Result, ok, fail, asm_error, value_error, ◌>>=◌}
use risc_forge.Asm.Line.{Line, Syms}
use risc_forge.Asm.Encode.{encode_line}
use risc_forge.Asm.Layout.Sections.{align_up}
use risc_forge.Asm.Layout.Pass.{pass1}
use risc_forge.Asm.Layout.SizePass.{section_sizes}
use risc_forge.Asm.Image.{
  Image, image_get, emit_opt, emit_lines, word_at, words_from, pack, data_base_or, assemble_lines,
  min_key, max_key,
}
use risc_forge.Asm.Image.Words.{word_at-bytes}
use risc_forge.Asm.Image.Bytes.{line_bytes, emit_out-put}
use risc_forge.Asm.Image.Extent.{IsByte, line_bytes-IsByte}
use risc_forge.Asm.Image.Emission.{IsBytes, put-IsBytes}
use risc_forge.Asm.Image.Packed.{image_get-IsByte}
use risc_forge.Asm.Token.{tokenize, assemble}
use risc_forge.Asm.Hex.{Outcome, finish, cli}
use risc_forge.Asm.Hex.Laws.{read_hex, read_hex-to_hex_lines}

-- A value that is returned satisfies `P`.
abbrev Ensures {ℓ} : {A : Type ℓ} → (A → Type 0) → Result A → Type 0
Ensures P (ok a) = P a
Ensures P (fail e) = Unit

bind-Ensures {ℓ κ} :
    {A : Type ℓ} {B : Type κ} (P : A → Type 0) (Q : B → Type 0) (r : Result A) (f : A → Result B)
    → Ensures P r
    → ((a : A) → P a → Ensures Q (f a))
    → Ensures Q (r >>= f)
bind-Ensures P Q (ok a) f h k = k a h
bind-Ensures P Q (fail e) f h k = tt

anything {ℓ} : {A : Type ℓ} (r : Result A) → Ensures (λ a. Unit) r
anything (ok a) = tt
anything (fail e) = tt

emit_opt-IsBytes :
    (op : Option Text) (ln : Line) (syms : Syms) (image : Image)
    → IsBytes image
    → Ensures IsBytes (emit_opt op ln syms image)
emit_opt-IsBytes none ln syms image h = h
emit_opt-IsBytes (some op) ln syms image h =
    bind-Ensures (λ out. Unit) IsBytes (encode_line ln syms) _ (anything (encode_line ln syms))
      λ out _.
        subst IsBytes (sym (emit_out-put op image ln.pc out))
          (put-IsBytes image ln.pc (line_bytes op out) h (line_bytes-IsByte op out))

emit_lines-IsBytes :
    (lines : List Line) (syms : Syms) (image : Image)
    → IsBytes image
    → Ensures IsBytes (emit_lines lines syms image)
unfolding emit_lines
emit_lines-IsBytes [] syms image h = h
emit_lines-IsBytes (ln ∷ lines) syms image h =
    bind-Ensures IsBytes IsBytes (emit_opt ln.op ln syms image) _
      (emit_opt-IsBytes ln.op ln syms image h) λ image' h'. emit_lines-IsBytes lines syms image' h'

abbrev pub AreWords : List ℕ → Type 0
AreWords words = All (λ w. w < 2 ^ 32) words

word_at-lt : (image : Image) (addr : ℕ) → IsBytes image → word_at image addr < 2 ^ 32
word_at-lt image addr h =
    let byte : (k : ℕ) → IsByte (image_get image k) = λ k. image_get-IsByte image k h in
    let whole =
      word_at-bytes image addr (image_get image (addr + 0)) (image_get image (addr + 1))
        (image_get image (addr + 2)) (image_get image (addr + 3)) refl refl refl refl
        (byte (addr + 0)) (byte (addr + 1)) (byte (addr + 2)) (byte (addr + 3)) in
    omega (arith, whole, byte (addr + 0), byte (addr + 1), byte (addr + 2), byte (addr + 3))

words_from-AreWords :
    (n : ℕ) (image : Image) (addr : ℕ) → IsBytes image → AreWords (words_from n image addr)
unfolding words_from
words_from-AreWords zero image addr h = tt
words_from-AreWords (suc n) image addr h =
    (word_at-lt image addr h, words_from-AreWords n image (addr + 4) h)

pack-AreWords : (image : Image) → IsBytes image → AreWords (pack image)
unfolding pack
pack-AreWords [] h = tt
pack-AreWords ((a, b) ∷ image) h =
    let least = min_key a image in
    let lo = least - bit_and least 3 in
    let hi = align_up (max_key a image + 1) 4 in
    words_from-AreWords ((hi - lo) / 4) ((a, b) ∷ image) lo h

assemble_lines-AreWords :
    (lines : List Line) (text_base : ℕ) (data_base : Option ℕ)
    → Ensures AreWords (assemble_lines lines text_base data_base)
unfolding assemble_lines
assemble_lines-AreWords lines text_base data_base =
    bind-Ensures (λ z. Unit) AreWords (section_sizes lines) _ (anything (section_sizes lines))
      λ sizes _.
        let laid = pass1 lines text_base (data_base_or data_base text_base sizes) in
        bind-Ensures (λ z. Unit) AreWords laid _ (anything laid)
          λ x _.
            bind-Ensures IsBytes AreWords (emit_lines x.0 x.1 []) _
              (emit_lines-IsBytes x.0 x.1 [] tt) λ image h. pack-AreWords image h

-- The file that `_cli` has written has the words, and nothing else.
abbrev pub HasFile : List ℕ → Option Text → Type 0
HasFile words none = ⊥
HasFile words (some file) = read_hex 0 0 file ≡ some words

-- How `_cli` ends when the assembler has returned words or raised.
abbrev pub Ends : Result (List ℕ) → Result Outcome → Type 0
Ends (ok words) (ok o) = (o.status ≡ 0) × HasFile words o.written
Ends (fail (asm_error n)) (ok o) = (o.status ≡ 1) × (o.written ≡ none)
Ends (fail value_error) (fail e) = e ≡ value_error
Ends r s = ⊥

finish-Ends : (r : Result (List ℕ)) → Ensures AreWords r → Ends r (finish r)
finish-Ends (ok words) h = (refl, read_hex-to_hex_lines words h)
finish-Ends (fail (asm_error n)) h = (refl, refl)
finish-Ends (fail value_error) h = refl

-- For every source text and base address: when `assemble` returns words, `_cli` returns 0 and has
-- written a file that reads back as these words; when it raises an AsmError, `_cli` returns 1 and
-- writes nothing; when it raises a ValueError, so does `_cli`.
pub cli-Ends : (text : Text) (base : ℕ) → Ends (assemble text base none) (cli (some text) base)
unfolding cli assemble
cli-Ends text base =
    finish-Ends (assemble text base none) (assemble_lines-AreWords (tokenize text) base none)
