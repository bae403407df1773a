-- ===== src/Asm/Image/Words.antt =====
-- Words in the byte image of tools/assembler/assemble.py: what `_emit_word` writes is what the
-- writer of `assemble` packs again.
use risc_forge.Base.{
  ℕ, ◌+◌, ◌*◌, ◌/◌, ◌%◌, ◌^◌, ◌<◌, ◌≤◌, ◌≡◌, ◌⊎◌, inl, refl, bit_and, bit_or, List, [], ◌∷◌, arith,
  length, ap, ◌∙◌, All, ap₂,
}
use native.Mathlib.Nat.{mod-eq_of_lt}
use risc_forge.Base.Bits.{◌<<<◌, ◌>>>◌, bit_and_mask}
use risc_forge.Base.Fields.{or_insert}
use risc_forge.Asm.Image.{Image, image_get, emit_word, emit_words, word_at, words_from}

-- The four bytes of a word, in the order of their addresses.
abbrev pub byte_of : ℕ → ℕ → ℕ
byte_of w k = bit_and (bit_and w 0xffffffff >>> k) 0xff

pub byte_of-mod : (w k : ℕ) → byte_of w k ≡ w % 2 ^ 32 / 2 ^ k % 256
byte_of-mod w k =
    bit_and_mask 8 (bit_and w 0xffffffff >>> k)
    ∙ ap (λ (t : ℕ). t / 2 ^ k % 256) (bit_and_mask 32 w)

image_get-emit_word_apart :
    (image : Image) (addr w a : ℕ)
    → (a < addr) ⊎ (addr + 4 ≤ a)
    → image_get (emit_word image addr w) a ≡ image_get image a
unfolding emit_word image_get
image_get-emit_word_apart image addr w a h = ground arith

-- Bytes read as a word.
pub word_at-bytes :
    (image : Image) (addr a b c d : ℕ)
    → image_get image (addr + 0) ≡ a
    → image_get image (addr + 1) ≡ b
    → image_get image (addr + 2) ≡ c
    → image_get image (addr + 3) ≡ d
    → a < 256
    → b < 256
    → c < 256
    → d < 256
    → word_at image addr ≡ a + b * 2 ^ 8 + c * 2 ^ 16 + d * 2 ^ 24
unfolding word_at
word_at-bytes image addr a b c d ea eb ec ed la lb lc ld =
    let low : bit_or (image_get image (addr + 0)) (image_get image (addr + 1) <<< 8)
        ≡ a + b * 2 ^ 8 =
      or_insert 8 8 _ _ a b ea (ap (λ (t : ℕ). t * 2 ^ 8) eb) (omega arith) lb in
    let mid =
      or_insert 16 8 _ _ (a + b * 2 ^ 8) c low (ap (λ (t : ℕ). t * 2 ^ 16) ec) (omega arith) lc in
    or_insert 24 8 _ _ (a + b * 2 ^ 8 + c * 2 ^ 16) d mid (ap (λ (t : ℕ). t * 2 ^ 24) ed)
      (omega arith) ld

get-0 : (image : Image) (addr w : ℕ) → image_get (emit_word image addr w) (addr + 0) ≡ byte_of w 0
unfolding emit_word image_get
get-0 image addr w = ground arith

get-1 : (image : Image) (addr w : ℕ) → image_get (emit_word image addr w) (addr + 1) ≡ byte_of w 8
unfolding emit_word image_get
get-1 image addr w = ground arith

get-2 : (image : Image) (addr w : ℕ) → image_get (emit_word image addr w) (addr + 2) ≡ byte_of w 16
unfolding emit_word image_get
get-2 image addr w = ground arith

get-3 : (image : Image) (addr w : ℕ) → image_get (emit_word image addr w) (addr + 3) ≡ byte_of w 24
unfolding emit_word image_get
get-3 image addr w = ground arith

byte_of-lt : (w k : ℕ) → byte_of w k < 256
byte_of-lt w k = omega (arith, byte_of-mod w k)

-- The word that was emitted is read again, cut to 32 bits.
word_at-emit_word :
    (image : Image) (addr w : ℕ) → word_at (emit_word image addr w) addr ≡ w % 2 ^ 32
word_at-emit_word image addr w =
    let whole =
      word_at-bytes (emit_word image addr w) addr (byte_of w 0) (byte_of w 8) (byte_of w 16)
        (byte_of w 24) (get-0 image addr w) (get-1 image addr w) (get-2 image addr w)
        (get-3 image addr w) (byte_of-lt w 0) (byte_of-lt w 8) (byte_of-lt w 16)
        (byte_of-lt w 24) in
    whole ∙ omega (arith, byte_of-mod w 0, byte_of-mod w 8, byte_of-mod w 16, byte_of-mod w 24)

-- Another word is left as it was.
word_at-emit_word_apart :
    (image : Image) (addr w a : ℕ)
    → a + 4 ≤ addr
    → word_at (emit_word image addr w) a ≡ word_at image a
unfolding word_at
word_at-emit_word_apart image addr w a h =
    let e0 = image_get-emit_word_apart image addr w (a + 0) (inl (omega arith)) in
    let e1 = image_get-emit_word_apart image addr w (a + 1) (inl (omega arith)) in
    let e2 = image_get-emit_word_apart image addr w (a + 2) (inl (omega arith)) in
    let e3 = image_get-emit_word_apart image addr w (a + 3) (inl (omega arith)) in
    rw (e0, e1, e2, e3) refl

word_at-emit_words_apart :
    (image : Image) (addr : ℕ) (words : List ℕ) (a : ℕ)
    → a + 4 ≤ addr
    → word_at (emit_words image addr words) a ≡ word_at image a
unfolding emit_words
word_at-emit_words_apart image addr [] a h = refl
word_at-emit_words_apart image addr (w ∷ words) a h =
    word_at-emit_words_apart (emit_word image addr w) (addr + 4) words a (omega arith)
    ∙ word_at-emit_word_apart image addr w a h

-- For every image, address and list of words less than 2 ^ 32: after the words are emitted from the
-- address on, the words that are packed from there, as many, are these words.
pub words_from-emit_words :
    (image : Image) (addr : ℕ) (words : List ℕ)
    → All (λ w. w < 2 ^ 32) words
    → words_from (length words) (emit_words image addr words) addr ≡ words
unfolding words_from emit_words
words_from-emit_words image addr [] h = refl
words_from-emit_words image addr (w ∷ words) (small, rest) =
    let image' = emit_word image addr w in
    let first : word_at (emit_words image' (addr + 4) words) addr ≡ w =
      word_at-emit_words_apart image' (addr + 4) words addr (omega arith)
      ∙ word_at-emit_word image addr w
      ∙ mod-eq_of_lt small in
    let others = words_from-emit_words image' (addr + 4) words rest in
    ap₂ (λ (x : ℕ) (xs : List ℕ). x ∷ xs) first others
