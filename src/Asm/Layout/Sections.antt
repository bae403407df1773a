-- ===== src/Asm/Layout/Sections.antt =====
-- The two section counters of tools/assembler/assemble.py, with the section that is active: `pc`
-- and `current` in `pass1`, `sizes` and `current` in `assemble`.
use risc_forge.Base.{ℕ, ◌+◌, ◌-◌, bit_and}
use risc_forge.Asm.Line.{Section}

pub record Sections : Type 0 where
  pub text_at : ℕ
  pub data_at : ℕ
  pub current : Section

abbrev counter : Section → Sections → ℕ
counter Section.text s = s.text_at
counter Section.data_section s = s.data_at

-- `pc[current]`
abbrev pub here : Sections → ℕ
here s = counter s.current s

abbrev set_counter : Section → ℕ → Sections → Sections
set_counter Section.text n s = record s { text_at = n }
set_counter Section.data_section n s = record s { data_at = n }

-- `pc[current] = n`
abbrev pub move_to : ℕ → Sections → Sections
move_to n s = set_counter s.current n s

abbrev pub switch : Section → Sections → Sections
switch section s = record s { current = section }

-- `(n + boundary - 1) & ~(boundary - 1)`
unfoldable pub align_up : ℕ → ℕ → ℕ
align_up n boundary = let x = n + boundary - 1 in x - bit_and x (boundary - 1)

-- The text section is active at first.
abbrev pub start : ℕ → ℕ → Sections
start text_base data_base = record {
  text_at = text_base;
  data_at = data_base;
  current = Section.text;
}
