-- ===== src/Asm.antt =====
-- tools/assembler/assemble.py: the two-pass RV32I assembler.
pub mod Error
pub mod Operand
pub mod Fit
pub mod Pack
pub mod Line
pub mod Tables
pub mod Encode
pub mod Layout
pub mod Image
pub mod Token
pub mod Hex
