-- ===== src/Tests.antt =====
-- Runs of the models on small programs, and the theorems at concrete inputs.
mod Emulator
mod Assembler
mod Layout
mod Source
mod Package
mod Runner
