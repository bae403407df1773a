-- ===== src/Tests/Source.antt =====
-- Runs of tools/assembler/assemble.py on source texts.
use risc_forge.Base.{ℕ, ◌≡◌, arith, refl, [], ◌∷◌, List, none, some}
use risc_forge.Base.Text.{Text, codes}
use risc_forge.Asm.Error.{ok}
use risc_forge.Asm.Line.{Line}
use risc_forge.Asm.Token.{tokenize, assemble, split_args, strip_comment, match_label}
use risc_forge.Asm.Image.{assemble_lines, emit_words, emit_word, image_get}
use risc_forge.Asm.Layout.{instruction_size}
use risc_forge.Asm.Layout.Sections.{align_up}
use risc_forge.Asm.Layout.Pass.{pass1}
use risc_forge.Asm.Layout.SizePass.{section_sizes}
use risc_forge.Asm.Encode.{encode_line}
use risc_forge.Asm.Encode.Real.{encode_load, encode_i_alu, resolve}
use risc_forge.Asm.Operand.{parse_reg, parse_int}
use risc_forge.Asm.Fit.{fit_signed}
use risc_forge.Asm.Pack.{i_type}
use risc_forge.Base.Int.{and_mask}
use risc_forge.Base.Bits.{bit_clear}
use risc_forge.Asm.Hex.{to_hex_lines, cli}
use risc_forge.Asm.Hex.Laws.{read_hex, read_hex-to_hex_lines}
use risc_forge.Asm.Hex.Command.{Ends, cli-Ends}
use risc_forge.Asm.Token.Wellformed.{AreTokens, tokenize-AreTokens}

abbrev source : Text
source = codes "# sum\nloop: LW a0, 8( sp ) // load\n\n  addi a0,a0,-1\r\n.data\nv :\n .word 7\n"

load_args : split_args (codes "a0, 8( sp )") ≡ codes "a0" ∷ codes "8" ∷ codes "sp" ∷ []
unfolding split_args
load_args = refl

abbrev linenos : List Line → List ℕ
linenos [] = []
linenos (ln ∷ lines) = ln.lineno ∷ linenos lines

numbers : linenos (tokenize source) ≡ 2 ∷ 4 ∷ 5 ∷ 6 ∷ 7 ∷ []
unfolding tokenize strip_comment match_label
numbers = refl

assembled : assemble source 0 none ≡ ok (0x00812503 ∷ 0xfff50513 ∷ 7 ∷ [])
unfolding assemble assemble_lines section_sizes strip_comment match_label pass1 split_args
    encode_line encode_load parse_reg parse_int fit_signed encode_i_alu emit_words emit_word
    image_get align_up instruction_size resolve i_type and_mask bit_clear
assembled = refl

tokenize-AreTokens_example : AreTokens 1 (tokenize source)
tokenize-AreTokens_example = tokenize-AreTokens source

abbrev source_words : List ℕ
source_words = 0x00812503 ∷ 0xfff50513 ∷ 7 ∷ []

hex_of_source : to_hex_lines source_words ≡ codes "00812503\nfff50513\n00000007\n"
unfolding to_hex_lines
hex_of_source = refl

read_hex-to_hex_lines_example : read_hex 0 0 (to_hex_lines source_words) ≡ some source_words
read_hex-to_hex_lines_example =
    read_hex-to_hex_lines source_words (omega arith, (omega arith, (omega arith, tt)))

cli-Ends_example : Ends (assemble source 0 none) (cli (some source) 0)
cli-Ends_example = cli-Ends source 0
