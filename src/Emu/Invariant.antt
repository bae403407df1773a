-- ===== src/Emu/Invariant.antt =====
-- The well-formed states of the emulator of tools/refmodel/rv32i_emu.py, and how a state may
-- change within an instruction.
pub mod Parts
pub mod Execute
pub mod Step
pub mod Run
pub mod Tohost
pub mod Path
pub mod Ending
use risc_forge.Base.{
  ℕ, ◌^◌, ◌<◌, ◌≡◌, refl, ◌∙◌, Bool, true, false, Option, none, some, List, length, get_or, All,
}
use risc_forge.Emu.State.{Cpu, Result, ok, raise, HaltReason}

abbrev pub IsWord : ℕ → Type 0
IsWord n = n < 2 ^ 32

abbrev pub IsByte : ℕ → Type 0
IsByte n = n < 256

abbrev pub HoldsWord : ℕ × ℕ → Type 0
HoldsWord entry = IsWord entry.1

abbrev pub is_some {ℓ} : {A : Type ℓ} → Option A → Bool
is_some none = false
is_some (some a) = true

-- 32 registers of 32 bits with x0 at zero, a PC of 32 bits, bytes in memory, CSRs of 32 bits, and
-- a halt reason exactly when the CPU is halted.
pub record IsValid (c : Cpu) : Type 0 where
  pub regs_length : length c.regs ≡ 32
  pub regs_words : All IsWord c.regs
  pub x0_zero : get_or c.regs 0 0 ≡ 0
  pub pc_word : IsWord c.pc
  pub mem_bytes : All IsByte c.mem
  pub csrs_words : All HoldsWord c.csrs
  pub halt_known : c.halted ≡ is_some c.halt_reason

-- What the object was made with and no instruction changes.
pub record SameMachine (c c' : Cpu) : Type 0 where
  pub mem_size : length c'.mem ≡ length c.mem
  pub mem_base : c'.mem_base ≡ c.mem_base
  pub tohost_addr : c'.tohost_addr ≡ c.tohost_addr
  pub trap_on_ecall : c'.trap_on_ecall ≡ c.trap_on_ecall

-- A change of state within an instruction, before it retires.
pub record Evolves (c c' : Cpu) : Type 0 where
  pub keeps : IsValid c → IsValid c'
  pub machine : SameMachine c c'
  pub same_pc : c'.pc ≡ c.pc
  pub same_steps : c'.steps ≡ c.steps

-- A method's result: a return after such a change with `P` of the value, or an exception raised
-- with the object as it was.
abbrev pub Outcome {ℓ} : {A : Type ℓ} → (A → Type 0) → Cpu → Result A × Cpu → Type 0
Outcome P c (ok a, c') = Evolves c c' × P a
Outcome P c (raise e, c') = c' ≡ c

pub SameMachine-refl : (c : Cpu) → SameMachine c c
SameMachine-refl c = record {
  mem_size = refl;
  mem_base = refl;
  tohost_addr = refl;
  trap_on_ecall = refl;
}

pub SameMachine-trans : {a b c : Cpu} → SameMachine a b → SameMachine b c → SameMachine a c
SameMachine-trans h j = record {
  mem_size = j.mem_size ∙ h.mem_size;
  mem_base = j.mem_base ∙ h.mem_base;
  tohost_addr = j.tohost_addr ∙ h.tohost_addr;
  trap_on_ecall = j.trap_on_ecall ∙ h.trap_on_ecall;
}

pub Evolves-refl : (c : Cpu) → Evolves c c
Evolves-refl c = record {
  keeps = λ v. v;
  machine = SameMachine-refl c;
  same_pc = refl;
  same_steps = refl;
}

pub Evolves-trans : {a b c : Cpu} → Evolves a b → Evolves b c → Evolves a c
Evolves-trans h j = record {
  keeps = λ v. j.keeps (h.keeps v);
  machine = SameMachine-trans h.machine j.machine;
  same_pc = j.same_pc ∙ h.same_pc;
  same_steps = j.same_steps ∙ h.same_steps;
}
