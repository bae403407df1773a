-- ===== src/Toolchain.antt =====
-- The assembler of tools/assembler/assemble.py against the emulator of tools/refmodel/rv32i_emu.py:
-- what the one encodes the other decodes.
pub mod Fields
pub mod Frame
pub mod Execute
pub mod TwoSteps
pub mod Constants
