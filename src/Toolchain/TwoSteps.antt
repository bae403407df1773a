-- ===== src/Toolchain/TwoSteps.antt =====
-- Two instructions of tools/refmodel/rv32i_emu.py in a row, of which the last word written to a
-- register counts.
use risc_forge.Base.{ℕ, ◌<◌, ◌≡◌, ◌≢◌, ◌∙◌, refl, arith, length, List, [], ◌∷◌}
use risc_forge.Emu.State.{Cpu}
use risc_forge.Emu.Registers.{r, wr}
use risc_forge.Emu.Invariant.{IsWord}
use risc_forge.Encoding.{opcode_int, f3_op_int}
use risc_forge.Toolchain.Frame.{wr-OnlyRegs, fetch_frame, r-wr_self, r-wr_ne}
use risc_forge.Toolchain.Execute.{Holds, retired, following, StepsTo}

-- The words lie one after the other from `addr` on.
abbrev pub HoldsAll : Cpu → ℕ → List ℕ → Type 0
HoldsAll c addr [] = Unit
HoldsAll c addr (w ∷ ws) = Holds c addr w × HoldsAll c (following addr) ws

-- Two steps from `c` raise nothing, put `v` in the register `rd`, go on at `next_pc`, and leave the
-- other registers and the memory alone.
pub record Loads (c : Cpu) (rd v next_pc : ℕ) : Type 0 where
  pub middle : Cpu
  pub last : Cpu
  pub first_step : StepsTo c middle
  pub second_step : StepsTo middle last
  pub loaded : r last rd ≡ v
  pub others : (j : ℕ) → j ≢ rd → r last j ≡ r c j
  pub at_next : last.pc ≡ next_pc
  pub mem_same : last.mem ≡ c.mem

pub r-retired : (q : ℕ) (c : Cpu) (j : ℕ) → r (retired q c) j ≡ r c j
unfolding r
r-retired q c j = refl

-- Where both steps write the register and go on.
pub two_writes :
    (c : Cpu) (rd first v p next_pc : ℕ)
    → rd ≢ 0
    → rd < length c.regs
    → IsWord v
    → StepsTo c (retired p (wr rd first c))
    → StepsTo (retired p (wr rd first c)) (retired next_pc (wr rd v (retired p (wr rd first c))))
    → Loads c rd v next_pc
two_writes c rd first v p next_pc ne fits word s₁ s₂ =
    let c₁ = retired p (wr rd first c) in
    let one = wr-OnlyRegs rd first c in
    let two = wr-OnlyRegs rd v c₁ in
    record {
      middle = c₁;
      last = retired next_pc (wr rd v c₁);
      first_step = s₁;
      second_step = s₂;
      loaded =
          r-retired next_pc (wr rd v c₁) rd ∙ r-wr_self c₁ rd v ne (omega (arith, one.size)) word;
      others = λ j other.
          r-retired next_pc (wr rd v c₁) j
          ∙ (r-wr_ne c₁ rd v j other
              ∙ (r-retired p (wr rd first c) j ∙ r-wr_ne c rd first j other));
      at_next = refl;
      mem_same = two.mem ∙ one.mem;
    }

-- Where the second step is a NOP.
pub write_then_nop :
    (c : Cpu) (rd v x p next_pc : ℕ)
    → rd ≢ 0
    → rd < length c.regs
    → IsWord v
    → StepsTo c (retired p (wr rd v c))
    → StepsTo (retired p (wr rd v c)) (retired next_pc (wr 0 x (retired p (wr rd v c))))
    → Loads c rd v next_pc
write_then_nop c rd v x p next_pc ne fits word s₁ s₂ =
    let c₁ = retired p (wr rd v c) in
    record {
      middle = c₁;
      last = retired next_pc (wr 0 x c₁);
      first_step = s₁;
      second_step = s₂;
      loaded = kept rd ∙ r-wr_self c rd v ne fits word;
      others = λ j other. kept j ∙ r-wr_ne c rd v j other;
      at_next = refl;
      mem_same = (wr-OnlyRegs 0 x c₁).mem ∙ (wr-OnlyRegs rd v c).mem;
    }
  where
    kept : (j : ℕ) → r (retired next_pc (wr 0 x (retired p (wr rd v c)))) j ≡ r (wr rd v c) j
    kept j = unfold r wr in refl

-- The second word is still there after the first instruction wrote a register.
pub still-Holds :
    (c : Cpu) (rd v p addr w : ℕ) → Holds c addr w → Holds (retired p (wr rd v c)) addr w
still-Holds c rd v p addr w h =
    let one = wr-OnlyRegs rd v c in
    fetch_frame c (retired p (wr rd v c)) addr w one.mem one.mem_base h
