-- ===== src/Toolchain/Constants.antt =====
-- The pseudo-instructions `li`, `la` and `call` of tools/assembler/assemble.py, run on the emulator
-- of tools/refmodel/rv32i_emu.py.
use risc_forge.Base.{
  ℕ, ◌+◌, ◌*◌, ◌/◌, ◌%◌, ◌^◌, ◌<◌, ◌≡◌, ◌≢◌, ◌∙◌, refl, ap, arith, false, true, length, [], ◌∷◌,
  if_cases,
}
use risc_forge.Base.Bits.{bit_and_mask, bit_and_pow}
use risc_forge.Base.Int.{ℤ, pos, ◌+ℤ◌, ◌-ℤ◌, and_mask, mod_pow, and_mask-mod_pow}
use risc_forge.Emu.Word.{u32, u32-pos, u32-lt, u32-+ℤ, u32-mod_pow, signed}
use risc_forge.Emu.State.{Cpu, ok}
use risc_forge.Emu.Registers.{r, wr}
use risc_forge.Emu.Alu.{alu_imm}
use risc_forge.Emu.Invariant.{IsValid}
use risc_forge.Asm.Pack.{i_type, u_type}
use risc_forge.Encoding.{int, Opcode, opcode_int, F3Op, f3_op_int}
use risc_forge.Asm.Encode.Pseudo.{hi20, lo12, fits_12, li_words, nop_word, pc_offset, la_words}
use risc_forge.Toolchain.Frame.{wr-OnlyRegs, r-wr_self}
use risc_forge.Toolchain.TwoSteps.{
  HoldsAll, Loads, r-retired, two_writes, write_then_nop, still-Holds,
}
use risc_forge.Toolchain.Execute.{retired, following, step-lui, step-auipc, step-imm}

-- The target of a PC-relative pair is reached again from the PC.
pc_and_offset :
    (pc : ℕ) (target : ℤ) → pc < 2 ^ 32 → (pc + pc_offset target pc) % 2 ^ 32 ≡ u32 target
unfolding mod_pow ◌-ℤ◌
pc_and_offset pc target h =
    ground (arith, and_mask-mod_pow 32 (target -ℤ pos pc), u32-mod_pow target)

-- The two halves add up: the sign extension of the low one is made good in the upper one.
hi_lo :
    (b n : ℕ)
    → n < 2 ^ 32
    → u32 (pos (u32 (pos (b + hi20 n % 2 ^ 20 * 2 ^ 12))) +ℤ signed 11 (lo12 n % 2 ^ 12))
      ≡ (b + n) % 2 ^ 32
unfolding hi20 mod_pow
hi_lo b n h = ground (
  arith,
  u32-+ℤ (u32 (pos (b + hi20 n % 2 ^ 20 * 2 ^ 12))) (signed 11 (lo12 n % 2 ^ 12)),
  u32-pos (b + hi20 n % 2 ^ 20 * 2 ^ 12),
  u32-mod_pow (signed 11 (lo12 n % 2 ^ 12)),
  bit_and_mask 12 n,
  bit_and_mask 20 (n / 2 ^ 12),
  bit_and_mask 20 (n / 2 ^ 12 % 2 ^ 20 + 1),
  bit_and_pow 11 (lo12 n),
)

low_12 : (v : ℤ) → fits_12 v ≡ true → signed 11 (and_mask v 0xfff % 2 ^ 12) ≡ v
unfolding mod_pow ◌-ℤ◌
low_12 v h = ground (arith, and_mask-mod_pow 12 v)

pc_offset-lt : (target : ℤ) (pc : ℕ) → pc_offset target pc < 2 ^ 32
unfolding u32
pc_offset-lt target pc = u32-lt (target -ℤ pos pc)

-- ADDI with the register read and the sign extension written out
alu_addi :
    (a inst pc : ℕ) (imm : ℤ) → alu_imm (int F3Op.add_sub) a imm inst pc ≡ ok (u32 (pos a +ℤ imm))
unfolding alu_imm
alu_addi a inst pc imm = refl

module _ (c : Cpu) (rd : ℕ) (running : c.halted ≡ false) (valid : IsValid c) (not_x0 : rd ≢ 0)
    (rd_fits : rd < 32) where
  fits : rd < length c.regs
  fits = omega (arith, valid.regs_length)

  -- `li` through LUI and ADDI
  li_long :
      (n : ℕ)
      → n < 2 ^ 32
      → HoldsAll c c.pc (
          u_type (int Opcode.lui) rd (hi20 n)
          ∷ (i_type (int Opcode.imm) rd (int F3Op.add_sub) rd (lo12 n) ∷ []))
      → Loads c rd n (following (following c.pc))
  li_long n word holds =
      let up = hi20 n % 2 ^ 20 * 2 ^ 12 in
      let p = following c.pc in
      let c₁ = retired p (wr rd up c) in
      let one = wr-OnlyRegs rd up c in
      let up_word : up < 2 ^ 32 = omega arith in
      let read : r c₁ rd ≡ u32 (pos (0 + up)) =
        r-retired p (wr rd up c) rd
        ∙ (r-wr_self c rd up not_x0 fits up_word ∙ omega (arith, u32-pos (0 + up))) in
      let sum : u32 (pos (r c₁ rd) +ℤ signed 11 (lo12 n % 2 ^ 12)) ≡ n =
        rw read (hi_lo 0 n word ∙ omega arith) in
      two_writes c rd up n p (following p) not_x0 fits word
        (step-lui c rd running rd_fits (hi20 n) holds.0)
        (step-imm c₁ rd (one.halted ∙ running) rd_fits (int F3Op.add_sub) rd (lo12 n) n
          (omega arith) rd_fits (still-Holds c rd up p p _ holds.1.0)
          (alu_addi (r c₁ rd) _ _ (signed 11 (lo12 n % 2 ^ 12)) ∙ ap ok sum))

  li_short :
      (v : ℤ)
      → fits_12 v ≡ true
      → HoldsAll c c.pc
          (i_type (int Opcode.imm) rd (int F3Op.add_sub) 0 (and_mask v 0xfff) ∷ (nop_word ∷ []))
      → Loads c rd (u32 v) (following (following c.pc))
  unfolding r
  li_short v small holds =
      let p = following c.pc in
      let c₁ = retired p (wr rd (u32 v) c) in
      let one = wr-OnlyRegs rd (u32 v) c in
      let sum : u32 (pos 0 +ℤ signed 11 (and_mask v 0xfff % 2 ^ 12)) ≡ u32 v =
        ap (λ (x : ℤ). u32 (pos 0 +ℤ x)) (low_12 v small) ∙ omega (arith, u32-+ℤ 0 v, u32-lt v) in
      write_then_nop c rd (u32 v) (u32 (pos 0 +ℤ signed 11 (0 % 2 ^ 12))) p (following p) not_x0
        fits (u32-lt v)
        (step-imm c rd running rd_fits (int F3Op.add_sub) 0 (and_mask v 0xfff) (u32 v) (omega arith)
          (omega arith) holds.0 (alu_addi 0 _ _ _ ∙ ap ok sum))
        (step-imm c₁ 0 (one.halted ∙ running) (omega arith) (int F3Op.add_sub) 0 0 _ (omega arith)
          (omega arith) (still-Holds c rd (u32 v) p p _ holds.1.0) (alu_addi 0 _ _ _))

  -- For a well-formed CPU that still runs, a register `rd` from x1 to x31, and every integer `v`: if the
  -- words of `li rd, v` are in memory from the PC on, the two steps that execute them return, put `v`
  -- modulo 2 ^ 32 into `rd`, change no other register and no memory, and end behind the words.
  pub li_words-Loads :
      (v : ℤ) → HoldsAll c c.pc (li_words rd v) → Loads c rd (u32 v) (following (following c.pc))
  unfolding li_words u32
  li_words-Loads v =
      if_cases (λ ws. HoldsAll c c.pc ws → Loads c rd (u32 v) (following (following c.pc)))
        (fits_12 v) (λ small. li_short v small) (λ _. li_long (u32 v) (u32-lt v))

  -- For a well-formed CPU that still runs, a register `rd` from x1 to x31, and every address: if the
  -- words that `la rd, sym` is assembled to at the PC for a symbol with that address are in memory from
  -- the PC on, the two steps that execute them return, put the address modulo 2 ^ 32 into `rd`, change no
  -- other register and no memory, and end behind the words.
  pub la_words-Loads :
      (target : ℤ)
      → HoldsAll c c.pc (la_words rd target c.pc)
      → Loads c rd (u32 target) (following (following c.pc))
  unfolding la_words
  la_words-Loads target holds =
      let n = pc_offset target c.pc in
      let up = u32 (pos (c.pc + hi20 n % 2 ^ 20 * 2 ^ 12)) in
      let p = following c.pc in
      let c₁ = retired p (wr rd up c) in
      let one = wr-OnlyRegs rd up c in
      let read : r c₁ rd ≡ up =
        r-retired p (wr rd up c) rd ∙ r-wr_self c rd up not_x0 fits (u32-lt _) in
      let sum : u32 (pos (r c₁ rd) +ℤ signed 11 (lo12 n % 2 ^ 12)) ≡ u32 target =
        rw read
          (hi_lo c.pc n (pc_offset-lt target c.pc) ∙ pc_and_offset c.pc target valid.pc_word) in
      two_writes c rd up (u32 target) p (following p) not_x0 fits (u32-lt target)
        (step-auipc c rd running rd_fits (hi20 n) holds.0)
        (step-imm c₁ rd (one.halted ∙ running) rd_fits (int F3Op.add_sub) rd (lo12 n) (u32 target)
          (omega arith) rd_fits (still-Holds c rd up p p _ holds.1.0)
          (alu_addi (r c₁ rd) _ _ (signed 11 (lo12 n % 2 ^ 12)) ∙ ap ok sum))
