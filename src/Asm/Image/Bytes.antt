-- ===== src/Asm/Image/Bytes.antt =====
-- The bytes that the image writer of tools/assembler/assemble.py takes from a line, one by one.
use risc_forge.Base.{
  ℕ, zero, suc, ◌+◌, ◌/◌, ◌%◌, ◌^◌, ◌<◌, ◌≤◌, ◌≡◌, ◌⊎◌, inl, refl, bit_and, List, [], ◌∷◌, arith,
  length, get_or, reads, reads-get_or, reads_agree, ap, ◌∙◌, sym, if◌then◌else◌,
}
use mathlib.Core.List.{◌++◌}
use risc_forge.Base.Text.{Text, ◌is◌}
use risc_forge.Base.Bits.{bit_and_mask}
use risc_forge.Asm.Image.{Image, image_get, emit_word, emit_words, emit_bytes, emit_out}
use risc_forge.Asm.Image.Words.{byte_of-mod}

-- A word's four bytes, the lowest first.
abbrev pub le_bytes : ℕ → List ℕ
le_bytes w = w % 2 ^ 8 ∷ w / 2 ^ 8 % 2 ^ 8 ∷ w / 2 ^ 16 % 2 ^ 8 ∷ w / 2 ^ 24 % 2 ^ 8 ∷ []

abbrev pub words_bytes : List ℕ → List ℕ
words_bytes [] = []
words_bytes (w ∷ words) = le_bytes w ++ words_bytes words

abbrev pub low_bytes : List ℕ → List ℕ
low_bytes [] = []
low_bytes (b ∷ bytes) = b % 2 ^ 8 ∷ low_bytes bytes

-- What a line with this mnemonic puts into the image when `encode_line` gives `out` for it.
abbrev pub line_bytes : Text → List ℕ → List ℕ
line_bytes op out = if op is ".byte" then low_bytes out else words_bytes out

-- Bytes written one after the other.
abbrev pub put : Image → ℕ → List ℕ → Image
put image addr [] = image
put image addr (b ∷ bytes) = put ((addr, b) ∷ image) (addr + 1) bytes

put-append :
    (image : Image) (addr : ℕ) (xs ys : List ℕ)
    → put image addr (xs ++ ys) ≡ put (put image addr xs) (addr + length xs) ys
put-append image addr [] ys = ap (λ (a : ℕ). put image a ys) (omega arith)
put-append image addr (x ∷ xs) ys =
    put-append ((addr, x) ∷ image) (addr + 1) xs ys
    ∙ ap (λ (a : ℕ). put (put ((addr, x) ∷ image) (addr + 1) xs) a ys) (omega arith)

cons_at : (a a' b b' : ℕ) (i i' : Image) → a ≡ a' → b ≡ b' → i ≡ i' → ((a, b) ∷ i) ≡ ((a', b') ∷ i')
cons_at a a' b b' i i' p q r = cc

emit_word-put : (image : Image) (addr w : ℕ) → emit_word image addr w ≡ put image addr (le_bytes w)
unfolding emit_word
emit_word-put image addr w = cons_at _ _ _ _ _ _ (omega arith) (omega (arith, byte_of-mod w 24)) (
    cons_at _ _ _ _ _ _ (omega arith) (omega (arith, byte_of-mod w 16)) (
      cons_at _ _ _ _ _ _ (omega arith) (omega (arith, byte_of-mod w 8)) (
        cons_at _ _ _ _ _ _ (omega arith)
          (omega (arith, bit_and_mask 8 (bit_and w 0xffffffff), bit_and_mask 32 w)) refl)))

emit_words-put :
    (image : Image) (addr : ℕ) (words : List ℕ)
    → emit_words image addr words ≡ put image addr (words_bytes words)
unfolding emit_words
emit_words-put image addr [] = refl
emit_words-put image addr (w ∷ words) =
    emit_words-put (emit_word image addr w) (addr + 4) words
    ∙ ap (λ (i : Image). put i (addr + 4) (words_bytes words)) (emit_word-put image addr w)
    ∙ sym (put-append image addr (le_bytes w) (words_bytes words))

emit_bytes-put :
    (image : Image) (addr : ℕ) (bytes : List ℕ)
    → emit_bytes image addr bytes ≡ put image addr (low_bytes bytes)
unfolding emit_bytes
emit_bytes-put image addr [] = refl
emit_bytes-put image addr (b ∷ bytes) =
    rw (bit_and_mask 8 b) (emit_bytes-put ((addr, b % 2 ^ 8) ∷ image) (addr + 1) bytes)

pub emit_out-put :
    (op : Text) (image : Image) (addr : ℕ) (out : List ℕ)
    → emit_out op image addr out ≡ put image addr (line_bytes op out)
emit_out-put op image addr out =
    let words = emit_words-put image addr out in
    let bytes = emit_bytes-put image addr out in ground (arith, words, bytes)

pub image_get-put_outside :
    (image : Image) (addr : ℕ) (bytes : List ℕ) (a : ℕ)
    → (a < addr) ⊎ (addr + length bytes ≤ a)
    → image_get (put image addr bytes) a ≡ image_get image a
unfolding image_get
image_get-put_outside image addr [] a h = refl
image_get-put_outside image addr (b ∷ bytes) a h =
    image_get-put_outside ((addr, b) ∷ image) (addr + 1) bytes a (omega arith) ∙ ground arith

image_get-put_inside :
    (image : Image) (addr : ℕ) (bytes : List ℕ) (k : ℕ)
    → k < length bytes
    → image_get (put image addr bytes) (addr + k) ≡ get_or bytes k 0
unfolding image_get
image_get-put_inside image addr [] k h = absurd (omega arith)
image_get-put_inside image addr (b ∷ bytes) zero h =
    image_get-put_outside ((addr, b) ∷ image) (addr + 1) bytes (addr + 0) (inl (omega arith))
    ∙ ground arith
image_get-put_inside image addr (b ∷ bytes) (suc k) h =
    ap (λ (a : ℕ). image_get (put ((addr, b) ∷ image) (addr + 1) bytes) a) (omega arith)
    ∙ image_get-put_inside ((addr, b) ∷ image) (addr + 1) bytes k (omega arith)

-- The image has the bytes from an address on.
abbrev pub HasBytes : Image → ℕ → List ℕ → Type 0
HasBytes image addr bytes = reads (image_get image) (length bytes) addr ≡ bytes

pub put-HasBytes :
    (image : Image) (addr : ℕ) (bytes : List ℕ) → HasBytes (put image addr bytes) addr bytes
put-HasBytes image addr bytes =
    reads-get_or (image_get (put image addr bytes)) bytes addr 0
      λ k h. image_get-put_inside image addr bytes k h

pub put-HasBytes_apart :
    (image : Image) (addr : ℕ) (bytes : List ℕ) (other : ℕ) (others : List ℕ)
    → (addr + length bytes ≤ other) ⊎ (other + length others ≤ addr)
    → HasBytes image addr bytes
    → HasBytes (put image other others) addr bytes
put-HasBytes_apart image addr bytes other others apart h =
    reads_agree (image_get (put image other others)) (image_get image) (length bytes) addr
      (λ k low high. image_get-put_outside image other others k (omega arith))
    ∙ h
