-- ===== src/Emu.antt =====
-- tools/refmodel/rv32i_emu.py: the RV32I reference emulator.
pub mod Word
pub mod Imm
pub mod State
pub mod Memory
pub mod Registers
pub mod Alu
pub mod System
pub mod Step
pub mod Run
pub mod Invariant
