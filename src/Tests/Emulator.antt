-- ===== src/Tests/Emulator.antt =====
-- Runs of the emulator of tools/refmodel/rv32i_emu.py, and its theorems at concrete states.
use risc_forge.Base.{
  ℕ, ◌+◌, ◌%◌, ◌^◌, ◌≤◌, ◌<◌, ◌≡◌, ◌≢◌, refl, arith, List, [], ◌∷◌, Option, none, some, true, false,
  inl, inr, replicate, ◌++◌, length,
}
use risc_forge.Encoding.{opcode_int, f3_op_int}
use risc_forge.Emu.Word.{u32}
use risc_forge.Emu.Imm.{imm_s, imm_u}
use risc_forge.Emu.State.{Cpu, ok, raise, trap, illegal, init, tohost_pass}
use risc_forge.Emu.Memory.{fetch, load, store, read_le, write_le, load_program}
use risc_forge.Emu.Registers.{r, wr}
use risc_forge.Emu.Step.{StepTrace, step, decode}
use risc_forge.Emu.Run.{run}
use risc_forge.Emu.Invariant.{IsValid, SameMachine}
use risc_forge.Emu.Invariant.Step.{step-IsValid, step_atomic, step_frame}
use risc_forge.Emu.Invariant.Run.{RunEnds, run-RunEnds}
use risc_forge.Emu.Invariant.Tohost.{Told, step-Told}
use risc_forge.Emu.Memory.Laws.{load-store, load-store_apart}

-- lui x5, 0x12; addi x5, x5, 0x345; ecall; and a word of zeros, which is no instruction
abbrev pub program : List ℕ
program =
    0xb7 ∷ 0x22 ∷ 0x01 ∷ 0x00 ∷ 0x93 ∷ 0x82 ∷ 0x52 ∷ 0x34 ∷ 0x73 ∷ 0x00 ∷ 0x00 ∷ 0x00 ∷ 0 ∷ 0 ∷ 0
    ∷ 0 ∷ []

abbrev pub at_start : Cpu
at_start = record {
  regs = replicate 32 0;
  pc = 0;
  mem = program;
  mem_base = 0;
  tohost_addr = 0x80001000;
  tohost_value = none;
  halted = false;
  halt_reason = none;
  steps = 0;
  csrs = (0xf14, 0) ∷ [];
  trap_on_ecall = false;
}

at_start_loaded : (load_program program none (init 16 0 0x80001000 false)).1 ≡ at_start
unfolding load_program init risc_forge.Emu.Memory.splice
at_start_loaded = refl

abbrev at_zeros : Cpu
at_zeros = record at_start { pc = 12 }

pub at_start-IsValid : IsValid at_start
at_start-IsValid = record {
  regs_length = refl;
  regs_words = omega arith;
  x0_zero = refl;
  pc_word = omega arith;
  mem_bytes = omega arith;
  csrs_words = omega arith;
  halt_known = refl;
}

abbrev after_lui : Cpu
after_lui = record at_start {
  regs = 0 ∷ 0 ∷ 0 ∷ 0 ∷ 0 ∷ 0x12000 ∷ replicate 26 0;
  pc = 4;
  steps = 1;
}

abbrev lui_trace : StepTrace
lui_trace = record { pc = 0; inst = 0x122b7; rd_write = some (5, 0x12000); mem_write = none }

step_lui : step at_start ≡ (ok lui_trace, after_lui)
unfolding step fetch read_le decode imm_u wr u32 risc_forge.Base.Int.and_mask
step_lui = refl

step_zeros : step at_zeros ≡ (raise (trap illegal 12), at_zeros)
unfolding step fetch read_le decode
step_zeros = refl

step-IsValid_example : IsValid (step at_start).1
step-IsValid_example = step-IsValid at_start at_start-IsValid

step_atomic_example : at_zeros ≡ at_zeros
step_atomic_example = step_atomic at_zeros at_zeros (trap illegal 12) step_zeros

step_frame_example :
    SameMachine at_start after_lui
    × (after_lui.steps ≡ at_start.steps + 1)
    × (lui_trace.pc ≡ at_start.pc)
    × (at_start.halted ≡ false)
step_frame_example = step_frame at_start after_lui lui_trace step_lui

run-RunEnds_example : RunEnds 10 at_start (run 10 at_start)
run-RunEnds_example = run-RunEnds 10 at_start at_start-IsValid

abbrev stored : Cpu
stored = record at_start {
  mem =
      0xb7 ∷ 0x22 ∷ 0x01 ∷ 0x00 ∷ 0x93 ∷ 0x82 ∷ 0x52 ∷ 0x34 ∷ 0x73 ∷ 0x00 ∷ 0x00 ∷ 0x00 ∷ 0 ∷ 0
      ∷ 0xef ∷ 0xbe ∷ [];
}

store_half : store 14 0xdeadbeef 2 at_start ≡ (ok tt, stored)
unfolding store write_le
store_half = refl

load-store_example : load 14 2 false stored ≡ ok (0xdeadbeef % 256 ^ 2)
load-store_example =
    load-store 14 0xdeadbeef 2 at_start stored (inr (inl refl)) (omega arith) store_half

load-store_apart_example : load 8 4 false stored ≡ load 8 4 false at_start
load-store_apart_example =
    load-store_apart 14 0xdeadbeef 2 8 4 false at_start stored (inr (inl refl)) (inr (inr refl))
      (inl (omega arith)) store_half

-- `sw x5, 0x700(x0)`, where 0x700 is `tohost` and x5 is 1
abbrev at_store : Cpu
at_store = record at_start {
  regs = 0 ∷ 0 ∷ 0 ∷ 0 ∷ 0 ∷ 1 ∷ replicate 26 0;
  mem = 0x23 ∷ 0x20 ∷ 0x50 ∷ 0x70 ∷ [];
  tohost_addr = 0x700;
}

abbrev at_pass : Cpu
at_pass = record at_store {
  pc = 4;
  steps = 1;
  halted = true;
  halt_reason = some tohost_pass;
  tohost_value = some 1;
}

abbrev store_trace : StepTrace
store_trace = record {
  pc = 0;
  inst = 0x70502023;
  rd_write = none;
  mem_write = some (record { addr = 0x700; value = 1; size = 4 });
}

step_store : step at_store ≡ (ok store_trace, at_pass)
unfolding step fetch read_le decode imm_s store r u32 risc_forge.Base.Int.and_mask
    risc_forge.Base.Int.◌+ℤ◌ risc_forge.Emu.Word.sext risc_forge.Base.Int.◌-ℤ◌
step_store = refl

step-Told_example : Told 0x700 store_trace.mem_write at_pass.halt_reason at_pass.tohost_value
step-Told_example = step-Told at_store at_pass store_trace (refl, refl) step_store
