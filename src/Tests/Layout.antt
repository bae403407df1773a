-- ===== src/Tests/Layout.antt =====
-- Runs of the two passes of tools/assembler/assemble.py, and the theorems on them at concrete inputs.
use risc_forge.Base.{ℕ, ◌+◌, ◌≡◌, ◌≤◌, refl, arith, List, [], ◌∷◌, none, some, length}
use risc_forge.Base.Int.{and_mask}
use risc_forge.Base.Text.{codes}
use risc_forge.Asm.Error.{ok, fail, asm_error}
use risc_forge.Asm.Operand.{parse_reg, parse_int}
use risc_forge.Asm.Line.{Line, Section}
use risc_forge.Asm.Encode.{encode_line}
use risc_forge.Asm.Encode.Pseudo.{encode_la}
use risc_forge.Asm.Pack.{i_type, u_type}
use risc_forge.Asm.Layout.{instruction_size}
use risc_forge.Asm.Layout.Sections.{Sections, align_up}
use risc_forge.Asm.Layout.Pass.{pass1}
use risc_forge.Asm.Layout.SizePass.{section_sizes}
use risc_forge.Asm.Layout.Bases.{pass1-section_sizes}
use risc_forge.Asm.Image.{
  assemble_lines, data_base_or, words_from, emit_words, emit_word, image_get,
}
use risc_forge.Asm.Image.Words.{words_from-emit_words}
use risc_forge.Asm.Image.Apart.{pass1-text_before_data}
use risc_forge.Asm.Image.Program.{IsLaidOut, HasProgram, assemble_lines-HasProgram}
use risc_forge.Asm.Layout.Pass.{Pass1}

-- `la t0, v`, `.align 4`, `.data` and `v: .word 7`
abbrev la_line : Line
la_line = record {
  lineno = 1;
  label = none;
  op = some (codes "la");
  args = codes "t0" ∷ codes "v" ∷ [];
  section = Section.text;
  pc = 0;
  size = 0;
}

abbrev align_line : Line
align_line = record la_line { lineno = 2; op = some (codes ".align"); args = codes "4" ∷ [] }

abbrev data_line : Line
data_line = record la_line { lineno = 3; op = some (codes ".data"); args = [] }

abbrev word_line : Line
word_line = record la_line {
  lineno = 4;
  label = some (codes "v");
  op = some (codes ".word");
  args = codes "7" ∷ [];
}

abbrev sample : List Line
sample = la_line ∷ align_line ∷ data_line ∷ word_line ∷ []

abbrev sample_end : Sections
sample_end = record { text_at = 4112; data_at = 4116; current = Section.data_section }

abbrev sample_sizes : Sections
sample_sizes = record { text_at = 16; data_at = 4; current = Section.data_section }

abbrev sample_laid : List Line
sample_laid =
    record la_line { pc = 4096; size = 8 }
    ∷ record align_line { pc = 4104; size = 8 }
    ∷ record data_line { section = Section.data_section; pc = 4112 }
    ∷ record word_line { section = Section.data_section; pc = 4112; size = 4 }
    ∷ []

sizes_of_sample : section_sizes sample ≡ ok sample_sizes
unfolding section_sizes align_up instruction_size parse_int
sizes_of_sample = refl

pass1_of_sample : pass1 sample 4096 4112 ≡ ok (sample_laid, (codes "v", 4112) ∷ [], sample_end)
unfolding pass1 align_up instruction_size parse_int
pass1_of_sample = refl

abbrev sample_words : List ℕ
sample_words = 0x00000297 ∷ 0x01028293 ∷ 0 ∷ 0 ∷ 7 ∷ []

-- The code, its padding and the data
sample_assembled : assemble_lines sample 4096 none ≡ ok sample_words
unfolding assemble_lines section_sizes parse_int pass1 encode_line encode_la parse_reg emit_words
    emit_word align_up instruction_size image_get u_type i_type and_mask
sample_assembled = refl

assemble_lines-HasProgram_example :
    (laid : Pass1) × (base : ℕ) × IsLaidOut sample 4096 laid × HasProgram base sample_words laid
assemble_lines-HasProgram_example =
    assemble_lines-HasProgram sample 4096 sample_words (omega arith) sample_assembled

-- A label is defined once.
duplicate_label : pass1 (word_line ∷ word_line ∷ []) 0 0 ≡ fail (asm_error 4)
unfolding pass1
duplicate_label = refl

pass1-section_sizes_example :
    (z : Sections) × (section_sizes sample ≡ ok z) × (sample_end.text_at ≡ 4096 + z.text_at)
pass1-section_sizes_example =
    pass1-section_sizes sample 4096 4112 sample_laid ((codes "v", 4112) ∷ []) sample_end
      (omega arith) pass1_of_sample

base_of_sample : data_base_or none 4096 sample_sizes ≡ 4112
unfolding align_up
base_of_sample = refl

pass1_at_base :
    pass1 sample 4096 (data_base_or none 4096 sample_sizes)
    ≡ ok (sample_laid, (codes "v", 4112) ∷ [], sample_end)
pass1_at_base = rw base_of_sample pass1_of_sample

pass1-text_before_data_example : sample_end.text_at ≤ data_base_or none 4096 sample_sizes
pass1-text_before_data_example =
    pass1-text_before_data sample 4096 sample_sizes sample_laid ((codes "v", 4112) ∷ []) sample_end
      (omega arith) sizes_of_sample pass1_at_base

abbrev two_words : List ℕ
two_words = 0x00000297 ∷ 0x01028293 ∷ []

words_from-emit_words_example :
    words_from (length two_words) (emit_words [] 4096 two_words) 4096 ≡ two_words
words_from-emit_words_example =
    words_from-emit_words [] 4096 two_words (omega arith, (omega arith, tt))
