-- ===== src/Asm/Image/Program.antt =====
-- `assemble` of tools/assembler/assemble.py as a whole, from the tokenized lines to the words.
use risc_forge.Base.{
  ℕ, ◌%◌, ◌^◌, ◌≡◌, refl, ◌∙◌, List, [], ◌∷◌, none, length, All, reads_agree, subst,
}
use risc_forge.Asm.Error.{Result, ok, fail, ◌>>=◌}
use risc_forge.Asm.Line.{Line, Syms}
use risc_forge.Asm.Layout.Sections.{Sections, start}
use risc_forge.Asm.Layout.Pass.{Pass1, pass1}
use risc_forge.Asm.Layout.SizePass.{section_sizes}
use risc_forge.Asm.Layout.Chain.{pass1_lines-Chain}
use risc_forge.Asm.Image.{Image, image_get, emit_lines, pack, data_base_or, assemble_lines}
use risc_forge.Asm.Image.Apart.{pass1-text_before_data}
use risc_forge.Asm.Image.Emission.{HasLine, Chain-HasLine}
use risc_forge.Asm.Image.Packed.{memory_of, base_of_image, pack-memory_of}

-- The lines as pass 1 places them, with the symbols and the counters at the end.
abbrev pub IsLaidOut : List Line → ℕ → Pass1 → Type 0
IsLaidOut lines text_base laid =
    (sizes : Sections) × (section_sizes lines ≡ ok sizes)
    × (pass1 lines text_base (data_base_or none text_base sizes) ≡ ok laid)

-- The words, from `base` on, have the bytes of each line at the line's address.
abbrev pub HasProgram : ℕ → List ℕ → Pass1 → Type 0
HasProgram base words (laid, syms, _) = All (HasLine syms (memory_of base words)) laid

memory-HasLine :
    (syms : Syms) (f g : ℕ → ℕ) (lines : List Line)
    → ((a : ℕ) → g a ≡ f a)
    → All (HasLine syms f) lines
    → All (HasLine syms g) lines
memory-HasLine syms f g [] same h = tt
memory-HasLine syms f g (ln ∷ lines) same ((bytes, enc, held), rest) = (
  (bytes, enc, reads_agree g f (length bytes) ln.pc (λ k low high. same k) ∙ held),
  memory-HasLine syms f g lines same rest,
)

-- The words of a program that has been laid out and emitted.
packed-HasProgram :
    (lines : List Line) (text_base : ℕ) (sizes e : Sections) (laid : List Line) (syms : Syms)
    (image : Image)
    → text_base % 2 ^ 12 ≡ 0
    → section_sizes lines ≡ ok sizes
    → pass1 lines text_base (data_base_or none text_base sizes) ≡ ok (laid, syms, e)
    → emit_lines laid syms [] ≡ ok image
    → HasProgram (base_of_image image) (pack image) (laid, syms, e)
unfolding pass1
packed-HasProgram lines text_base sizes e laid syms image aligned s p h =
    let data_base = data_base_or none text_base sizes in
    let before = pass1-text_before_data lines text_base sizes laid syms e aligned s p in
    let chain = pass1_lines-Chain lines [] syms (start text_base data_base) e laid p in
    let held = Chain-HasLine (start text_base data_base) e laid syms image before chain.2 h in
    memory-HasLine syms (image_get image) (memory_of (base_of_image image) (pack image)) laid
      (λ a. pack-memory_of image a held.1) held.0

abbrev Program : List Line → ℕ → Result (List ℕ) → Type 0
Program lines text_base (fail e) = Unit
Program lines text_base (ok words) =
    (laid : Pass1) × (base : ℕ) × IsLaidOut lines text_base laid × HasProgram base words laid

image-Program :
    (lines : List Line) (text_base : ℕ) (sizes e : Sections) (laid : List Line) (syms : Syms)
    (r : Result Image)
    → text_base % 2 ^ 12 ≡ 0
    → section_sizes lines ≡ ok sizes
    → pass1 lines text_base (data_base_or none text_base sizes) ≡ ok (laid, syms, e)
    → emit_lines laid syms [] ≡ r
    → Program lines text_base (r >>= λ image. ok (pack image))
image-Program lines text_base sizes e laid syms (fail f) aligned s p h = tt
image-Program lines text_base sizes e laid syms (ok image) aligned s p h = (
  (laid, syms, e),
  base_of_image image,
  (sizes, s, p),
  packed-HasProgram lines text_base sizes e laid syms image aligned s p h,
)

pass1-Program :
    (lines : List Line) (text_base : ℕ) (sizes : Sections) (r : Result Pass1)
    → text_base % 2 ^ 12 ≡ 0
    → section_sizes lines ≡ ok sizes
    → pass1 lines text_base (data_base_or none text_base sizes) ≡ r
    → Program lines text_base (r >>= λ x. emit_lines x.0 x.1 [] >>= λ image. ok (pack image))
pass1-Program lines text_base sizes (fail f) aligned s p = tt
pass1-Program lines text_base sizes (ok (laid, syms, e)) aligned s p =
    image-Program lines text_base sizes e laid syms (emit_lines laid syms []) aligned s p refl

sizes-Program :
    (lines : List Line) (text_base : ℕ) (r : Result Sections)
    → text_base % 2 ^ 12 ≡ 0
    → section_sizes lines ≡ r
    → Program lines text_base (
        r >>= λ sizes. pass1 lines text_base (data_base_or none text_base sizes) >>= λ x.
        emit_lines x.0 x.1 [] >>= λ image. ok (pack image))
sizes-Program lines text_base (fail f) aligned s = tt
sizes-Program lines text_base (ok sizes) aligned s =
    pass1-Program lines text_base sizes (pass1 lines text_base (data_base_or none text_base sizes))
      aligned s refl

-- For all lines and every text base that is a multiple of 2 ^ 12: if `assemble`, with no data base
-- given, returns words, then the size pass and `pass1` have returned, and the words, put into a
-- memory of zeros from some base on, have for every line that `pass1` has laid out, in either
-- section, all the bytes that `encode_line` gives for it, from the line's address on.
pub assemble_lines-HasProgram :
    (lines : List Line) (text_base : ℕ) (words : List ℕ)
    → text_base % 2 ^ 12 ≡ 0
    → assemble_lines lines text_base none ≡ ok words
    → (laid : Pass1) × (base : ℕ) × IsLaidOut lines text_base laid × HasProgram base words laid
unfolding assemble_lines
assemble_lines-HasProgram lines text_base words aligned h =
    subst (Program lines text_base) h
      (sizes-Program lines text_base (section_sizes lines) aligned refl)
