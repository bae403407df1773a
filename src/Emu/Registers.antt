-- ===== src/Emu/Registers.antt =====
-- The register file of the emulator, `r` and `wr` of tools/refmodel/rv32i_emu.py. Callers pass a
-- field of five bits for the index, and `regs` has 32 entries.
use risc_forge.Base.{ℕ, ◌==◌, if◌then◌else◌, get_or, set}
use risc_forge.Base.Int.{pos}
use risc_forge.Emu.Word.{u32}
use risc_forge.Emu.State.{Cpu}

unfoldable pub r : Cpu → ℕ → ℕ
r c idx = if idx == 0 then 0 else get_or c.regs idx 0

unfoldable pub wr : ℕ → ℕ → Cpu → Cpu
wr idx value c = if idx == 0 then c else record c { regs = set c.regs idx (u32 (pos value)) }
