-- ===== src/Emu/Invariant/Path.antt =====
-- Sequences of steps of tools/refmodel/rv32i_emu.py, and what the last one tells of `tohost`.
use risc_forge.Base.{ℕ, ◌≤◌, ◌≡◌, ◌≢◌, refl, sym, ◌∙◌, subst, false, Option, none, some, arith}
use risc_forge.Emu.State.{Cpu, ok, HaltReason, tohost_pass, tohost_fail}
use risc_forge.Emu.Step.{MemWrite, StepTrace, step}
use risc_forge.Emu.Invariant.{IsValid, is_some}
use risc_forge.Emu.Invariant.Step.{step_frame, step-IsValid}
use risc_forge.Emu.Invariant.Tohost.{StoresTo, Told, IsUntold, step-Told}

-- The states that steps reach.
pub data Reaches (c : Cpu) : Cpu → Type 0 where
  here : Reaches c c
  next : {c' c'' : Cpu} {t : StepTrace} → Reaches c c' → step c' ≡ (ok t, c'') → Reaches c c''

-- After some steps from `c`, the next one, which is at most the `max_steps`-th, stores `v` to the
-- address `a`, and leaves the state `c'`.
abbrev pub StoresLast : (a v max_steps : ℕ) → Cpu → Cpu → Type 0
StoresLast a v max_steps c c' =
    (last : Cpu) × (t : StepTrace) × Reaches c last
    × (step last ≡ (ok t, c'))
    × StoresTo a v t.mem_write
    × (c'.steps ≤ max_steps)

-- A state that steps reach from `c`.
abbrev pub IsReady : Cpu → Cpu → Type 0
IsReady c c' = IsValid c' × (c'.tohost_addr ≡ c.tohost_addr) × (c'.halted ≡ false → IsUntold c')

Told-IsUntold :
    (a : ℕ) (w : Option MemWrite) (c : Cpu) (o : Option HaltReason)
    → c.halt_reason ≡ o
    → c.halted ≡ is_some o
    → Told a w o c.tohost_value
    → c.halted ≡ false
    → IsUntold c
Told-IsUntold a w c none e known h running = (e, h.1)
Told-IsUntold a w c (some reason) e known h running = absurd (ground arith)

pub next-IsReady :
    (c c' c'' : Cpu) (t : StepTrace) → IsReady c c' → step c' ≡ (ok t, c'') → IsReady c c''
next-IsReady c c' c'' t (valid, addr, untold) e =
    let (machine, steps, pc, running) = step_frame c' c'' t e in
    let valid' = subst (λ x. IsValid x.1) e (step-IsValid c' valid) in
    (
      valid',
      machine.tohost_addr ∙ addr,
      λ r.
          Told-IsUntold c'.tohost_addr t.mem_write c'' c''.halt_reason refl valid'.halt_known
            (step-Told c' c'' t (untold running) e) r,
    )

pub Reaches-IsReady : {c c' : Cpu} → IsValid c → IsUntold c → Reaches c c' → IsReady c c'
Reaches-IsReady {c = c} valid untold here = (valid, refl, λ r. untold)
Reaches-IsReady {c = c} valid untold (next {c' = a} {c'' = b} {t = t} r e) =
    next-IsReady c a b t (Reaches-IsReady valid untold r) e

-- What the last step has stored to `tohost`, by the halt reason.
abbrev pub LastTold : ℕ → Cpu → Cpu → Option HaltReason → Type 0
LastTold max_steps c c' (some tohost_pass) = StoresLast c.tohost_addr 1 max_steps c c'
LastTold max_steps c c' (some tohost_fail) =
    (x : ℕ) × StoresLast c.tohost_addr x max_steps c c' × (x ≢ 1) × (c'.tohost_value ≡ some x)
LastTold max_steps c c' (some HaltReason.ecall) = Unit
LastTold max_steps c c' (some HaltReason.ebreak) = Unit
LastTold max_steps c c' none = Unit

Told-LastTold :
    (max_steps : ℕ) (c last c' : Cpu) (t : StepTrace) (o : Option HaltReason)
    → Reaches c last
    → step last ≡ (ok t, c')
    → c'.steps ≤ max_steps
    → Told c.tohost_addr t.mem_write o c'.tohost_value
    → LastTold max_steps c c' o
Told-LastTold max_steps c last c' t (some tohost_pass) r e small h = (last, t, r, e, h.0, small)
Told-LastTold max_steps c last c' t (some tohost_fail) r e small (x, stores, other, value) =
    (x, (last, t, r, e, stores, small), other, value)
Told-LastTold max_steps c last c' t (some HaltReason.ecall) r e small h = tt
Told-LastTold max_steps c last c' t (some HaltReason.ebreak) r e small h = tt
Told-LastTold max_steps c last c' t none r e small h = tt

pub step-Told_from :
    (c last c' : Cpu) (t : StepTrace)
    → IsReady c last
    → step last ≡ (ok t, c')
    → Told c.tohost_addr t.mem_write c'.halt_reason c'.tohost_value
step-Told_from c last c' t (valid, addr, untold) e =
    let frame = step_frame last c' t e in
    subst (λ a. Told a t.mem_write c'.halt_reason c'.tohost_value) addr
      (step-Told last c' t (untold frame.3) e)

pub Reaches-LastTold :
    (max_steps : ℕ) {c c' : Cpu}
    → IsValid c
    → IsUntold c
    → c'.steps ≤ max_steps
    → Reaches c c'
    → LastTold max_steps c c' c'.halt_reason
Reaches-LastTold max_steps {c = c} valid untold small here =
    subst (LastTold max_steps c c) (sym untold.0) tt
Reaches-LastTold max_steps {c = c} valid untold small (next {c' = a} {c'' = b} {t = t} r e) =
    Told-LastTold max_steps c a b t b.halt_reason r e small
      (step-Told_from c a b t (Reaches-IsReady valid untold r) e)
