-- ===== src/Asm/Encode/Pseudo.antt =====
-- The branches of `encode_line` of tools/assembler/assemble.py for the pseudo-instructions.
use risc_forge.Base.{
  ℕ, ◌+◌, ◌^◌, ◌-◌, ◌&&◌, List, [], ◌∷◌, not, ◌==◌, if◌then◌else◌, Bool, true, false, bit_and,
}
use risc_forge.Base.Bits.{◌>>>◌}
use risc_forge.Base.Int.{ℤ, pos, negsuc, ◌-ℤ◌, leb_ℤ, and_mask}
use risc_forge.Base.Text.{Text}
use risc_forge.Encoding.{int, Opcode, opcode_int, F3Op, f3_op_int, f3_branch_int, f7_alt}
use risc_forge.Asm.Error.{Result, ok, ◌>>=◌, ◌>>◌, require}
use risc_forge.Asm.Operand.{parse_reg}
use risc_forge.Asm.Fit.{fit_signed}
use risc_forge.Asm.Pack.{r_type, i_type, b_type, u_type, j_type}
use risc_forge.Asm.Line.{Line, Syms}
use risc_forge.Asm.Encode.Real.{resolve, one_arg, two_args}

-- addi x0, x0, 0
abbrev pub nop_word : ℕ
nop_word = i_type (int Opcode.imm) 0 (int F3Op.add_sub) 0 0

abbrev pub encode_nop : Result (List ℕ)
encode_nop = ok (nop_word ∷ [])

unfoldable pub encode_mv : Line → Result (List ℕ)
encode_mv ln = do
  (a, b) ← two_args ln.lineno ln.args
  rd ← parse_reg a ln.lineno
  rs ← parse_reg b ln.lineno
  ok (i_type (int Opcode.imm) rd (int F3Op.add_sub) rs 0 ∷ [])

unfoldable pub encode_not : Line → Result (List ℕ)
encode_not ln = do
  (a, b) ← two_args ln.lineno ln.args
  rd ← parse_reg a ln.lineno
  rs ← parse_reg b ln.lineno
  ok (i_type (int Opcode.imm) rd (int F3Op.xor) rs (and_mask (negsuc 0) 0xfff) ∷ [])

unfoldable pub encode_neg : Line → Result (List ℕ)
encode_neg ln = do
  (a, b) ← two_args ln.lineno ln.args
  rd ← parse_reg a ln.lineno
  rs ← parse_reg b ln.lineno
  ok (r_type (int Opcode.reg) rd (int F3Op.add_sub) 0 rs f7_alt ∷ [])

unfoldable pub encode_j : Line → Syms → Result (List ℕ)
encode_j ln syms = do
  a ← one_arg ln.lineno ln.args
  target ← resolve a syms ln.lineno
  imm21 ← fit_signed (target -ℤ pos ln.pc) 21 ln.lineno
  ok (j_type (int Opcode.jal) 0 imm21 ∷ [])

unfoldable pub encode_jr : Line → Result (List ℕ)
encode_jr ln = do
  a ← one_arg ln.lineno ln.args
  rs1 ← parse_reg a ln.lineno
  ok (i_type (int Opcode.jalr) 0 0 rs1 0 ∷ [])

abbrev no_args : List Text → Bool
no_args [] = true
no_args (a ∷ args) = false

unfoldable pub encode_ret : Line → Result (List ℕ)
encode_ret ln = do require (no_args ln.args) ln.lineno; ok (i_type (int Opcode.jalr) 0 0 1 0 ∷ [])

-- `beqz` and `bnez`
unfoldable pub encode_zero_branch : ℕ → Line → Syms → Result (List ℕ)
encode_zero_branch f3 ln syms = do
  (a, b) ← two_args ln.lineno ln.args
  rs1 ← parse_reg a ln.lineno
  target ← resolve b syms ln.lineno
  imm13 ← fit_signed (target -ℤ pos ln.pc) 13 ln.lineno
  ok (b_type (int Opcode.branch) f3 rs1 0 imm13 ∷ [])

-- The low 12 bits of a number, and the upper 20 for the sign extension of the low ones.
abbrev pub lo12 : ℕ → ℕ
lo12 n = bit_and n 0xfff

unfoldable pub hi20 : ℕ → ℕ
hi20 n =
    let hi = bit_and (n >>> 12) 0xfffff in
    if not (bit_and (lo12 n) 0x800 == 0) then bit_and (hi + 1) 0xfffff else hi

-- `-(1 << 11) <= v <= (1 << 11) - 1`
abbrev pub fits_12 : ℤ → Bool
fits_12 v = leb_ℤ (pos 0 -ℤ pos (2 ^ 11)) v && leb_ℤ v (pos (2 ^ 11 - 1))

unfoldable pub li_words : ℕ → ℤ → List ℕ
unfolding hi20
li_words rd v =
    let v32 = and_mask v 0xffffffff in
    if fits_12 v
    then i_type (int Opcode.imm) rd (int F3Op.add_sub) 0 (and_mask v 0xfff) ∷ (nop_word ∷ [])
    else u_type (int Opcode.lui) rd (hi20 v32)
      ∷ (i_type (int Opcode.imm) rd (int F3Op.add_sub) rd (lo12 v32) ∷ [])

unfoldable pub encode_li : Line → Syms → Result (List ℕ)
unfolding li_words
encode_li ln syms = do
  (a, b) ← two_args ln.lineno ln.args
  rd ← parse_reg a ln.lineno
  v ← resolve b syms ln.lineno
  ok (li_words rd v)

-- `(target - ln.pc) & 0xFFFFFFFF`
abbrev pub pc_offset : ℤ → ℕ → ℕ
pc_offset target pc = and_mask (target -ℤ pos pc) 0xffffffff

unfoldable pub la_words : ℕ → ℤ → ℕ → List ℕ
unfolding hi20
la_words rd target pc =
    let offset = pc_offset target pc in
    u_type (int Opcode.auipc) rd (hi20 offset)
    ∷ (i_type (int Opcode.imm) rd (int F3Op.add_sub) rd (lo12 offset) ∷ [])

unfoldable pub encode_la : Line → Syms → Result (List ℕ)
unfolding la_words
encode_la ln syms = do
  (a, b) ← two_args ln.lineno ln.args
  rd ← parse_reg a ln.lineno
  target ← resolve b syms ln.lineno
  ok (la_words rd target ln.pc)

unfoldable pub call_words : ℤ → ℕ → List ℕ
unfolding hi20
call_words target pc =
    let offset = pc_offset target pc in
    u_type (int Opcode.auipc) 1 (hi20 offset) ∷ (i_type (int Opcode.jalr) 1 0 1 (lo12 offset) ∷ [])

unfoldable pub encode_call : Line → Syms → Result (List ℕ)
unfolding call_words
encode_call ln syms = do
  a ← one_arg ln.lineno ln.args
  target ← resolve a syms ln.lineno
  ok (call_words target ln.pc)
