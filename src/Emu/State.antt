-- ===== src/Emu/State.antt =====
-- The state of an `RV32I` object and its exceptions, tools/refmodel/rv32i_emu.py.
-- `regs` and `mem` are Python sequences of a fixed length, `csrs` is a dict, whose first entry for
-- a key counts. A method is a function of the object; where it can raise, it returns what it
-- returns or raises beside the object as it then stands. The text of a message is left out.
use risc_forge.Base.{ℕ, ◌==◌, if◌then◌else◌, Bool, false, Option, none, List, [], ◌∷◌}
use risc_forge.Base.{replicate}

-- `Trap.kind`
pub data TrapKind : Type 0 where
  mem_range misaligned_fetch misaligned_load misaligned_store illegal : TrapKind

-- `trap kind pc` is a `Trap`; the others are Python's RuntimeError and ValueError.
pub data Exn : Type 0 where
  trap : TrapKind → ℕ → Exn
  runtime_error value_error : Exn

pub data Result {ℓ} (A : Type ℓ) : Type ℓ where
  ok : A → Result A
  raise : Exn → Result A

pub data HaltReason : Type 0 where
  tohost_pass tohost_fail ecall ebreak : HaltReason

pub record Cpu : Type 0 where
  pub regs : List ℕ
  pub pc : ℕ
  pub mem : List ℕ
  pub mem_base : ℕ
  pub tohost_addr : ℕ
  pub tohost_value : Option ℕ
  pub halted : Bool
  pub halt_reason : Option HaltReason
  pub steps : ℕ
  pub csrs : List (ℕ × ℕ)
  pub trap_on_ecall : Bool

-- CSR addresses, SYSTEM funct12 values and mcause values
abbrev pub csr_mtvec : ℕ
csr_mtvec = 0x305

abbrev pub csr_mepc : ℕ
csr_mepc = 0x341

abbrev pub csr_mcause : ℕ
csr_mcause = 0x342

abbrev pub csr_mhartid : ℕ
csr_mhartid = 0xf14

abbrev pub f12_mret : ℕ
f12_mret = 0x302

abbrev pub f12_wfi : ℕ
f12_wfi = 0x105

abbrev pub cause_breakpoint : ℕ
cause_breakpoint = 3

abbrev pub cause_ecall_m : ℕ
cause_ecall_m = 11

-- `RV32I.__init__`
unfoldable pub init : ℕ → ℕ → ℕ → Bool → Cpu
init mem_size mem_base tohost_addr trap_on_ecall = record {
  regs = replicate 32 0;
  pc = mem_base;
  mem = replicate mem_size 0;
  mem_base = mem_base;
  tohost_addr = tohost_addr;
  tohost_value = none;
  halted = false;
  halt_reason = none;
  steps = 0;
  csrs = (csr_mhartid, 0) ∷ [];
  trap_on_ecall = trap_on_ecall;
}

-- A method that can raise.
abbrev pub M {ℓ} : Type ℓ → Type ℓ
M A = Cpu → Result A × Cpu

abbrev after {ℓ κ} : {A : Type ℓ} {B : Type κ} → (A → M B) → Result A → M B
after f (ok a) c = f a c
after f (raise e) c = (raise e, c)

infixl 5 ◌>>=◌
abbrev pub ◌>>=◌ {ℓ κ} : {A : Type ℓ} {B : Type κ} → M A → (A → M B) → M B
◌>>=◌ m f c = after f (m c).0 (m c).1

-- A computation that reads the object and changes nothing.
abbrev pub reads {ℓ} : {A : Type ℓ} → (Cpu → Result A) → M A
reads f c = (f c, c)

abbrev pub pure {ℓ} : {A : Type ℓ} → A → M A
pure a c = (ok a, c)

-- `self.csrs.get(csr, 0)` and `self.csrs[csr] = v`
unfoldable pub csr_get : ℕ → List (ℕ × ℕ) → ℕ
csr_get csr [] = 0
csr_get csr ((k, v) ∷ rest) = if k == csr then v else csr_get csr rest

unfoldable pub csr_set : ℕ → ℕ → List (ℕ × ℕ) → List (ℕ × ℕ)
csr_set csr v [] = (csr, v) ∷ []
csr_set csr v ((k, w) ∷ rest) = if k == csr then (k, v) ∷ rest else (k, w) ∷ csr_set csr v rest
