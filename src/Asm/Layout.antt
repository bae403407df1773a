-- ===== src/Asm/Layout.antt =====
-- What pass 1 of tools/assembler/assemble.py reserves for an instruction.
pub mod Sizes
pub mod Agree
pub mod Sections
pub mod Pass
pub mod SizePass
pub mod Aligned
pub mod InStep
pub mod Bases
pub mod Places
pub mod Chain
use risc_forge.Base.{ℕ, Bool, ◌||◌, if◌then◌else◌}
use risc_forge.Base.Text.{Text, codes, ◌is◌}

-- `op in _TWO_INSN_PSEUDOS`
abbrev pub is_two_insn_pseudo : Text → Bool
is_two_insn_pseudo op = op is "la" || op is "call"

unfoldable pub instruction_size : Text → ℕ
instruction_size op = if is_two_insn_pseudo op then 8 else if op is "li" then 8 else 4
