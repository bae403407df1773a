-- ===== src/Toolchain/Frame.antt =====
-- What a register write of tools/refmodel/rv32i_emu.py leaves alone, and what `fetch` depends on.
use risc_forge.Base.{
  ℕ, ◌<◌, ◌≡◌, ◌≢◌, refl, arith, ◌==◌, if_both, length, length-set, get_or-set_self, get_or-set_ne,
  ◌∙◌,
}
use native.Mathlib.Nat.{mod-eq_of_lt}
use risc_forge.Base.Int.{pos}
use risc_forge.Emu.Word.{u32, u32-pos}
use risc_forge.Emu.State.{Cpu, ok}
use risc_forge.Emu.Memory.{fetch, mem_index}
use risc_forge.Emu.Registers.{r, wr}
use risc_forge.Emu.Invariant.{IsWord}

-- Everything but the registers.
pub record OnlyRegs (c c' : Cpu) : Type 0 where
  pub mem : c'.mem ≡ c.mem
  pub mem_base : c'.mem_base ≡ c.mem_base
  pub halted : c'.halted ≡ c.halted
  pub pc : c'.pc ≡ c.pc
  pub size : length c'.regs ≡ length c.regs

pub wr-OnlyRegs : (rd v : ℕ) (c : Cpu) → OnlyRegs c (wr rd v c)
unfolding wr
wr-OnlyRegs rd v c =
    if_both (OnlyRegs c) (rd == 0)
      (record { mem = refl; mem_base = refl; halted = refl; pc = refl; size = refl })
      (record {
        mem = refl;
        mem_base = refl;
        halted = refl;
        pc = refl;
        size = length-set c.regs rd (u32 (pos v));
      })

pub fetch_frame :
    (c c' : Cpu) (addr w : ℕ)
    → c'.mem ≡ c.mem
    → c'.mem_base ≡ c.mem_base
    → fetch addr c ≡ ok w
    → fetch addr c' ≡ ok w
unfolding fetch mem_index
fetch_frame c c' addr w m b h = ground arith

pub r-wr_self : (c : Cpu) (rd v : ℕ) → rd ≢ 0 → rd < length c.regs → IsWord v → r (wr rd v c) rd ≡ v
unfolding r wr
r-wr_self c rd v ne h w =
    let stored = get_or-set_self c.regs rd (u32 (pos v)) 0 h in
    let same : u32 (pos v) ≡ v = u32-pos v ∙ mod-eq_of_lt w in ground arith

pub r-wr_ne : (c : Cpu) (rd v j : ℕ) → j ≢ rd → r (wr rd v c) j ≡ r c j
unfolding r wr
r-wr_ne c rd v j ne = ground (arith, get_or-set_ne c.regs rd j (u32 (pos v)) 0)
