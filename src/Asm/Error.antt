-- ===== src/Asm/Error.antt =====
-- The exceptions of tools/assembler/assemble.py. An `AsmError` carries the number of its line; its
-- text is left out. `value_error` is Python's ValueError, which the assembler does not turn into
-- an `AsmError`.
use risc_forge.Base.{ℕ, Bool, true, false}

pub data Failure : Type 0 where
  asm_error : ℕ → Failure
  value_error : Failure

pub data Result {ℓ} (A : Type ℓ) : Type ℓ where
  ok : A → Result A
  fail : Failure → Result A

infixl 5 ◌>>=◌ ◌>>◌
abbrev pub ◌>>=◌ {ℓ κ} : {A : Type ℓ} {B : Type κ} → Result A → (A → Result B) → Result B
ok a >>= f = f a
fail e >>= f = fail e

abbrev pub ◌>>◌ {ℓ} : {B : Type ℓ} → Result (Unit {0}) → Result B → Result B
m >> k = m >>= λ _. k

-- `if not test: raise AsmError(lineno, ...)`
abbrev pub require : Bool → ℕ → Result (Unit {0})
require true lineno = ok tt
require false lineno = fail (asm_error lineno)
