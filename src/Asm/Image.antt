-- ===== src/Asm/Image.antt =====
-- The image writer of tools/assembler/assemble.py: `_emit_word`, and `assemble` from its lines on.
-- The dict of bytes is an association list in which the latest byte of an address stands first.
pub mod Words
pub mod Bytes
pub mod Extent
pub mod Emission
pub mod Packed
pub mod Program
pub mod Apart
use risc_forge.Base.{
  ℕ, zero, suc, ◌+◌, ◌-◌, ◌*◌, ◌/◌, bit_and, bit_or, List, [], ◌∷◌, Option, none, some, ltb, ◌==◌,
  if◌then◌else◌,
}
use risc_forge.Base.Bits.{◌<<<◌, ◌>>>◌}
use risc_forge.Base.Text.{Text, ◌is◌}
use risc_forge.Asm.Error.{Result, ok, ◌>>=◌}
use risc_forge.Asm.Line.{Line, Syms}
use risc_forge.Asm.Encode.{encode_line}
use risc_forge.Asm.Layout.Sections.{Sections, align_up}
use risc_forge.Asm.Layout.Pass.{pass1}
use risc_forge.Asm.Layout.SizePass.{section_sizes}

abbrev pub Image : Type 0
Image = List (ℕ × ℕ)

-- `image.get(addr, 0)`
unfoldable pub image_get : Image → ℕ → ℕ
image_get [] addr = 0
image_get ((a, b) ∷ image) addr = if a == addr then b else image_get image addr

unfoldable pub emit_word : Image → ℕ → ℕ → Image
emit_word image addr word =
    let w = bit_and word 0xffffffff in
    (addr + 3, bit_and (w >>> 24) 0xff)
    ∷ ((addr + 2, bit_and (w >>> 16) 0xff)
        ∷ ((addr + 1, bit_and (w >>> 8) 0xff) ∷ ((addr + 0, bit_and w 0xff) ∷ image)))

unfoldable pub emit_words : Image → ℕ → List ℕ → Image
emit_words image addr [] = image
emit_words image addr (w ∷ words) = emit_words (emit_word image addr w) (addr + 4) words

unfoldable pub emit_bytes : Image → ℕ → List ℕ → Image
emit_bytes image addr [] = image
emit_bytes image addr (b ∷ bytes) = emit_bytes ((addr, bit_and b 0xff) ∷ image) (addr + 1) bytes

abbrev pub emit_out : Text → Image → ℕ → List ℕ → Image
emit_out op image addr out =
    if op is ".byte" then emit_bytes image addr out else emit_words image addr out

abbrev pub emit_opt : Option Text → Line → Syms → Image → Result Image
emit_opt none ln syms image = ok image
emit_opt (some op) ln syms image = do out ← encode_line ln syms; ok (emit_out op image ln.pc out)

unfoldable pub emit_lines : List Line → Syms → Image → Result Image
emit_lines [] syms image = ok image
emit_lines (ln ∷ lines) syms image = do
  image' ← emit_opt ln.op ln syms image
  emit_lines lines syms image'

-- The word of the four bytes from an address on.
unfoldable pub word_at : Image → ℕ → ℕ
word_at image addr =
    bit_or
      (bit_or (bit_or (image_get image (addr + 0)) (image_get image (addr + 1) <<< 8))
        (image_get image (addr + 2) <<< 16))
      (image_get image (addr + 3) <<< 24)

unfoldable pub words_from : ℕ → Image → ℕ → List ℕ
unfolding word_at
words_from zero image addr = []
words_from (suc n) image addr = word_at image addr ∷ words_from n image (addr + 4)

abbrev pub min : ℕ → ℕ → ℕ
min a b = if ltb b a then b else a

abbrev pub max : ℕ → ℕ → ℕ
max a b = if ltb a b then b else a

-- `min(image.keys())` and `max(image.keys())`, from a first key
abbrev pub min_key : ℕ → Image → ℕ
min_key m [] = m
min_key m ((a, _) ∷ image) = min_key (min m a) image

abbrev pub max_key : ℕ → Image → ℕ
max_key m [] = m
max_key m ((a, _) ∷ image) = max_key (max m a) image

-- The image's words, from the word of its least address to that of its greatest.
unfoldable pub pack : Image → List ℕ
unfolding words_from
pack [] = []
pack ((a, b) ∷ image) =
    let least = min_key a image in
    let lo = least - bit_and least 3 in
    let hi = align_up (max_key a image + 1) 4 in words_from ((hi - lo) / 4) ((a, b) ∷ image) lo

-- `data_base`, or the first word after the text section
abbrev pub data_base_or : Option ℕ → ℕ → Sections → ℕ
data_base_or none text_base sizes = text_base + align_up sizes.text_at 4
data_base_or (some base) text_base sizes = base

unfoldable pub assemble_lines : List Line → ℕ → Option ℕ → Result (List ℕ)
unfolding emit_lines pack
assemble_lines lines text_base data_base = do
  sizes ← section_sizes lines
  (laid, syms, _) ← pass1 lines text_base (data_base_or data_base text_base sizes)
  image ← emit_lines laid syms []
  ok (pack image)
