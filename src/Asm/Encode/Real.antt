-- ===== src/Asm/Encode/Real.antt =====
-- The branches of `encode_line` of tools/assembler/assemble.py for the instructions of RV32I.
use risc_forge.Base.{
  ℕ, ◌^◌, ◌||◌, ◌&&◌, List, [], ◌∷◌, Option, none, some, ◌==◌, if◌then◌else◌, Bool,
}
use risc_forge.Base.Int.{ℤ, pos, ◌-ℤ◌, leb_ℤ, ltb_ℤ, and_mask}
use risc_forge.Base.Text.{Text, lookup, ◌is◌, is_alpha, strip}
use risc_forge.Encoding.{
  int, Opcode, opcode_int, F3Op, f3_op_int, f7_default, f7_alt, f12_ecall, f12_ebreak,
}
use risc_forge.Asm.Error.{Result, ok, fail, asm_error, value_error, ◌>>=◌, ◌>>◌, require}
use risc_forge.Asm.Operand.{parse_reg, parse_int}
use risc_forge.Asm.Fit.{fit_signed, fit_unsigned}
use risc_forge.Asm.Pack.{r_type, i_type, s_type, b_type, u_type, j_type}
use risc_forge.Asm.Line.{Line, Syms}

abbrev symbol : Option ℕ → ℕ → Result ℤ
symbol none lineno = fail (asm_error lineno)
symbol (some addr) lineno = ok (pos addr)

abbrev resolve_stripped : Text → Syms → ℕ → Result ℤ
resolve_stripped [] syms lineno = fail (asm_error lineno)
resolve_stripped (c ∷ t) syms lineno =
    if is_alpha c || c == b'_' || c == b'.'
    then symbol (lookup (c ∷ t) syms) lineno
    else parse_int (c ∷ t) lineno

unfoldable pub resolve : Text → Syms → ℕ → Result ℤ
resolve tok syms lineno = resolve_stripped (strip tok) syms lineno

-- `_expect_args` for one, two and three operands, with the operands
abbrev pub one_arg : ℕ → List Text → Result Text
one_arg lineno (a ∷ []) = ok a
one_arg lineno _ = fail (asm_error lineno)

abbrev pub two_args : ℕ → List Text → Result (Text × Text)
two_args lineno (a ∷ (b ∷ [])) = ok (a, b)
two_args lineno _ = fail (asm_error lineno)

abbrev pub three_args : ℕ → List Text → Result (Text × Text × Text)
three_args lineno (a ∷ (b ∷ (c ∷ []))) = ok (a, b, c)
three_args lineno _ = fail (asm_error lineno)

unfoldable pub encode_r : ℕ → ℕ → Line → Result (List ℕ)
encode_r f3 f7 ln = do
  (a, b, c) ← three_args ln.lineno ln.args
  rd ← parse_reg a ln.lineno
  rs1 ← parse_reg b ln.lineno
  rs2 ← parse_reg c ln.lineno
  ok (r_type (int Opcode.reg) rd f3 rs1 rs2 f7 ∷ [])

unfoldable pub encode_i_alu : ℕ → Line → Syms → Result (List ℕ)
encode_i_alu f3 ln syms = do
  (a, b, c) ← three_args ln.lineno ln.args
  rd ← parse_reg a ln.lineno
  rs1 ← parse_reg b ln.lineno
  imm ← resolve c syms ln.lineno
  imm12 ← fit_signed imm 12 ln.lineno
  ok (i_type (int Opcode.imm) rd f3 rs1 imm12 ∷ [])

unfoldable pub encode_shift : Text → Line → Syms → Result (List ℕ)
encode_shift op ln syms = do
  (a, b, c) ← three_args ln.lineno ln.args
  rd ← parse_reg a ln.lineno
  rs1 ← parse_reg b ln.lineno
  sh₀ ← resolve c syms ln.lineno
  sh ← fit_unsigned sh₀ 5 ln.lineno
  let f3 = if op is "slli" then int F3Op.sll else int F3Op.sr
  let f7 = if op is "srai" then f7_alt else f7_default
  ok (r_type (int Opcode.imm) rd f3 rs1 sh f7 ∷ [])

unfoldable pub encode_load : ℕ → Line → Syms → Result (List ℕ)
encode_load f3 ln syms = do
  (a, b, c) ← three_args ln.lineno ln.args
  rd ← parse_reg a ln.lineno
  imm ← resolve b syms ln.lineno
  rs1 ← parse_reg c ln.lineno
  imm12 ← fit_signed imm 12 ln.lineno
  ok (i_type (int Opcode.load) rd f3 rs1 imm12 ∷ [])

unfoldable pub encode_store : ℕ → Line → Syms → Result (List ℕ)
encode_store f3 ln syms = do
  (a, b, c) ← three_args ln.lineno ln.args
  rs2 ← parse_reg a ln.lineno
  imm ← resolve b syms ln.lineno
  rs1 ← parse_reg c ln.lineno
  imm12 ← fit_signed imm 12 ln.lineno
  ok (s_type (int Opcode.store) f3 rs1 rs2 imm12 ∷ [])

-- `offset & 1`, which must be clear
abbrev is_even : ℤ → Bool
is_even offset = and_mask offset 1 == 0

unfoldable pub encode_branch : ℕ → Line → Syms → Result (List ℕ)
encode_branch f3 ln syms = do
  (a, b, c) ← three_args ln.lineno ln.args
  rs1 ← parse_reg a ln.lineno
  rs2 ← parse_reg b ln.lineno
  target ← resolve c syms ln.lineno
  let offset = target -ℤ pos ln.pc
  require (is_even offset) ln.lineno
  imm13 ← fit_signed offset 13 ln.lineno
  ok (b_type (int Opcode.branch) f3 rs1 rs2 imm13 ∷ [])

-- `jal label`, with x1 for the link, or `jal rd, label`
abbrev jal_operands : Line → List Text → Syms → Result (ℕ × ℤ)
jal_operands ln (a ∷ []) syms = do target ← resolve a syms ln.lineno; ok (1, target)
jal_operands ln (a ∷ (b ∷ [])) syms = do
  rd ← parse_reg a ln.lineno
  target ← resolve b syms ln.lineno
  ok (rd, target)
jal_operands ln _ syms = fail (asm_error ln.lineno)

unfoldable pub encode_jal : Line → Syms → Result (List ℕ)
encode_jal ln syms = do
  (rd, target) ← jal_operands ln ln.args syms
  let offset = target -ℤ pos ln.pc
  require (is_even offset) ln.lineno
  imm21 ← fit_signed offset 21 ln.lineno
  ok (j_type (int Opcode.jal) rd imm21 ∷ [])

-- `try: ... except AsmError: ...`
abbrev except_asm_error {ℓ} : {A : Type ℓ} → Result A → Result A → Result A
except_asm_error (ok a) handler = ok a
except_asm_error (fail (asm_error n)) handler = handler
except_asm_error (fail value_error) handler = fail value_error

-- `jalr rs1`, `jalr rd, rs1, imm` and `jalr rd, imm(rs1)`
abbrev jalr_operands : Line → List Text → Syms → Result (ℕ × ℕ × ℤ)
jalr_operands ln (a ∷ []) syms = do rs1 ← parse_reg a ln.lineno; ok (1, rs1, pos 0)
jalr_operands ln (a ∷ (b ∷ (c ∷ []))) syms = do
  rd ← parse_reg a ln.lineno
  let direct : Result (ℕ × ℕ × ℤ) =
      ◌>>=◌ (parse_reg b ln.lineno)
        (λ rs1. ◌>>=◌ (resolve c syms ln.lineno) (λ imm. ok (rd, rs1, imm)))
  let indirect : Result (ℕ × ℕ × ℤ) =
      ◌>>=◌ (resolve b syms ln.lineno)
        (λ imm. ◌>>=◌ (parse_reg c ln.lineno) (λ rs1. ok (rd, rs1, imm)))
  except_asm_error direct indirect
jalr_operands ln _ syms = fail (asm_error ln.lineno)

unfoldable pub encode_jalr : Line → Syms → Result (List ℕ)
encode_jalr ln syms = do
  (rd, rs1, imm) ← jalr_operands ln ln.args syms
  imm12 ← fit_signed imm 12 ln.lineno
  ok (i_type (int Opcode.jalr) rd 0 rs1 imm12 ∷ [])

-- `-(1 << 19) <= v < (1 << 20)`
abbrev fits_upper : ℤ → Bool
fits_upper v = leb_ℤ (pos 0 -ℤ pos (2 ^ 19)) v && ltb_ℤ v (pos (2 ^ 20))

unfoldable pub encode_upper : ℕ → Line → Syms → Result (List ℕ)
encode_upper opcode ln syms = do
  (a, b) ← two_args ln.lineno ln.args
  rd ← parse_reg a ln.lineno
  v ← resolve b syms ln.lineno
  require (fits_upper v) ln.lineno
  ok (u_type opcode rd (and_mask v 0xfffff) ∷ [])

abbrev pub encode_fence : Result (List ℕ)
encode_fence = ok (i_type (int Opcode.fence) 0 0 0 0b0000_1111_1111 ∷ [])

abbrev pub encode_fence_i : Result (List ℕ)
encode_fence_i = ok (i_type (int Opcode.fence) 0 1 0 0 ∷ [])

abbrev pub encode_ecall : Result (List ℕ)
encode_ecall = ok (i_type (int Opcode.system) 0 0 0 f12_ecall ∷ [])

abbrev pub encode_ebreak : Result (List ℕ)
encode_ebreak = ok (i_type (int Opcode.system) 0 0 0 f12_ebreak ∷ [])
