-- ===== src/Asm/Encode.antt =====
-- Pass 2 of tools/assembler/assemble.py: `_resolve`, `_expect_args` and `encode_line`. The groups
-- of mnemonics that `encode_line` treats alike are functions of their own.
pub mod Real
pub mod Pseudo
use risc_forge.Base.{ℕ, ◌||◌, Bool, List, [], ◌∷◌, Option, none, some, if◌then◌else◌}
use mathlib.Core.Option.{get_or, map as option_map}
use risc_forge.Base.Int.{ℤ, and_mask}
use risc_forge.Base.Text.{Text, codes, lookup, ◌is◌}
use risc_forge.Asm.Error.{Result, ok, fail, asm_error, ◌>>=◌}
use risc_forge.Asm.Line.{Line, Syms}
use risc_forge.Asm.Tables.{r_table, i_alu_table, load_table, store_table, branch_table}
use Real.{
  resolve, encode_r, encode_i_alu, encode_shift, encode_load, encode_store, encode_branch,
  encode_jal, encode_jalr, encode_upper, encode_fence, encode_fence_i, encode_ecall, encode_ebreak,
}
use Pseudo.{
  encode_nop, encode_mv, encode_not, encode_neg, encode_j, encode_jr, encode_ret,
  encode_zero_branch, encode_li, encode_la, encode_call,
}
use risc_forge.Encoding.{int, Opcode, opcode_int, F3Branch, f3_branch_int}

-- The operands of `.word` and `.byte`, cut to their width.
unfoldable pub encode_values : ℕ → List Text → Syms → ℕ → Result (List ℕ)
unfolding resolve
encode_values mask [] syms lineno = ok []
encode_values mask (a ∷ args) syms lineno = do
  v ← resolve a syms lineno
  rest ← encode_values mask args syms lineno
  ok (and_mask v mask ∷ rest)

-- The pseudo-instructions, and the error for any other mnemonic.
unfoldable pub encode_pseudo : Text → Line → Syms → Result (List ℕ)
encode_pseudo op ln syms =
    if op is "nop"
    then encode_nop
    else if op is "mv"
    then encode_mv ln
    else if op is "not"
    then encode_not ln
    else if op is "neg"
    then encode_neg ln
    else if op is "j"
    then encode_j ln syms
    else if op is "jr"
    then encode_jr ln
    else if op is "ret"
    then encode_ret ln
    else if op is "beqz"
    then encode_zero_branch (int F3Branch.beq) ln syms
    else if op is "bnez"
    then encode_zero_branch (int F3Branch.bne) ln syms
    else if op is "li"
    then encode_li ln syms
    else if op is "la"
    then encode_la ln syms
    else if op is "call"
    then encode_call ln syms
    else fail (asm_error ln.lineno)

-- The instructions that are in no table.
unfoldable pub encode_other : Text → Line → Syms → Result (List ℕ)
unfolding encode_pseudo
encode_other op ln syms =
    if op is "jal"
    then encode_jal ln syms
    else if op is "jalr"
    then encode_jalr ln syms
    else if op is "lui"
    then encode_upper (int Opcode.lui) ln syms
    else if op is "auipc"
    then encode_upper (int Opcode.auipc) ln syms
    else if op is "fence"
    then encode_fence
    else if op is "fence.i"
    then encode_fence_i
    else if op is "ecall"
    then encode_ecall
    else if op is "ebreak"
    then encode_ebreak
    else encode_pseudo op ln syms

abbrev pub is_shift : Text → Bool
is_shift op = op is "slli" || op is "srli" || op is "srai"

-- The instructions, by the table that has the mnemonic.
unfoldable pub encode_instruction : Text → Line → Syms → Result (List ℕ)
unfolding encode_other
encode_instruction op ln syms = get_or (option_map (λ f. encode_r f.0 f.1 ln) (lookup op r_table)) (
    get_or (option_map (λ f3. encode_i_alu f3 ln syms) (lookup op i_alu_table)) (
      if is_shift op
      then encode_shift op ln syms
      else get_or (option_map (λ f3. encode_load f3 ln syms) (lookup op load_table)) (
          get_or (option_map (λ f3. encode_store f3 ln syms) (lookup op store_table)) (
            get_or (option_map (λ f3. encode_branch f3 ln syms) (lookup op branch_table))
              (encode_other op ln syms)))))

abbrev pub is_layout : Text → Bool
is_layout op = op is ".text" || op is ".data" || op is ".align"

unfoldable pub encode_op : Text → Line → Syms → Result (List ℕ)
unfolding encode_values encode_instruction
encode_op op ln syms =
    if is_layout op
    then ok []
    else if op is ".word"
    then encode_values 0xffffffff ln.args syms ln.lineno
    else if op is ".byte"
    then encode_values 0xff ln.args syms ln.lineno
    else encode_instruction op ln syms

abbrev pub encode_opt : Option Text → Line → Syms → Result (List ℕ)
encode_opt none ln syms = ok []
encode_opt (some op) ln syms = encode_op op ln syms

unfoldable pub encode_line : Line → Syms → Result (List ℕ)
unfolding encode_op
encode_line ln syms = encode_opt ln.op ln syms
