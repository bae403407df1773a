-- ===== src/Asm/Line.antt =====
-- The parsed line of tools/assembler/assemble.py.
use risc_forge.Base.{ℕ, List, Option}
use risc_forge.Base.Text.{Text}

pub data Section : Type 0 where
  text data_section : Section

-- `raw`, the text for messages, is left out.
pub record Line : Type 0 where
  pub lineno : ℕ
  pub label : Option Text
  pub op : Option Text
  pub args : List Text
  pub section : Section
  pub pc : ℕ
  pub size : ℕ

-- The symbol table: a label's address.
abbrev pub Syms : Type 0
Syms = List (Text × ℕ)
