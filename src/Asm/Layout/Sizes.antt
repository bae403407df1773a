-- ===== src/Asm/Layout/Sizes.antt =====
-- Pass 2 of tools/assembler/assemble.py emits as many words as pass 1 has reserved, each of 32 bits.
use risc_forge.Base.{ℕ, ◌^◌, ◌<◌, ◌≡◌, refl, List, length, All, arith}
use risc_forge.Base.Text.{Text}
use risc_forge.Asm.Error.{Result, ok, fail}
use risc_forge.Asm.Pack.{r_type, i_type, s_type, b_type, u_type, j_type}
use risc_forge.Asm.Pack.Sums.{
  r_type-sum, i_type-sum, s_type-sum, b_type-sum, u_type-sum, j_type-sum,
}
use risc_forge.Asm.Line.{Line, Syms}
use risc_forge.Asm.Encode.Real.{
  encode_r, encode_i_alu, encode_shift, encode_load, encode_store, encode_branch, encode_jal,
  encode_jalr, encode_upper,
}
use risc_forge.Asm.Encode.Pseudo.{
  encode_mv, encode_not, encode_neg, encode_j, encode_jr, encode_ret, encode_zero_branch, encode_li,
  encode_la, encode_call,
}

abbrev pub IsInstructionWord : ℕ → Type 0
IsInstructionWord w = w < 2 ^ 32

-- A success has `n` words.
abbrev pub Emits : ℕ → Result (List ℕ) → Type 0
Emits n (ok ws) = (length ws ≡ n) × All IsInstructionWord ws
Emits n (fail e) = Unit

-- A success has `n` words, from its equation.
abbrev pub HasWords : ℕ → List ℕ → Type 0
HasWords n ws = (length ws ≡ n) × All IsInstructionWord ws

Emits-of : (n : ℕ) (r : Result (List ℕ)) → ((ws : List ℕ) → r ≡ ok ws → HasWords n ws) → Emits n r
Emits-of n (ok ws) h = h ws refl
Emits-of n (fail e) h = tt

r_type-lt : (a b c d e f : ℕ) → r_type a b c d e f < 2 ^ 32
r_type-lt a b c d e f = omega (arith, r_type-sum a b c d e f)

pub i_type-lt : (a b c d e : ℕ) → i_type a b c d e < 2 ^ 32
i_type-lt a b c d e = omega (arith, i_type-sum a b c d e)

s_type-lt : (a b c d e : ℕ) → s_type a b c d e < 2 ^ 32
s_type-lt a b c d e = omega (arith, s_type-sum a b c d e)

b_type-lt : (a b c d e : ℕ) → b_type a b c d e < 2 ^ 32
b_type-lt a b c d e = omega (arith, b_type-sum a b c d e)

u_type-lt : (a b c : ℕ) → u_type a b c < 2 ^ 32
u_type-lt a b c = omega (arith, u_type-sum a b c)

j_type-lt : (a b c : ℕ) → j_type a b c < 2 ^ 32
j_type-lt a b c = omega (arith, j_type-sum a b c)

pub encode_r-Emits : (f3 f7 : ℕ) (ln : Line) → Emits 1 (encode_r f3 f7 ln)
unfolding encode_r
encode_r-Emits f3 f7 ln = Emits-of 1 (encode_r f3 f7 ln) (λ ws h. grind (arith, r_type-lt))

pub encode_i_alu-Emits : (f3 : ℕ) (ln : Line) (syms : Syms) → Emits 1 (encode_i_alu f3 ln syms)
unfolding encode_i_alu
encode_i_alu-Emits f3 ln syms =
    Emits-of 1 (encode_i_alu f3 ln syms) (λ ws h. grind (arith, i_type-lt))

pub encode_shift-Emits : (op : Text) (ln : Line) (syms : Syms) → Emits 1 (encode_shift op ln syms)
unfolding encode_shift
encode_shift-Emits op ln syms =
    Emits-of 1 (encode_shift op ln syms) (λ ws h. grind (arith, r_type-lt))

pub encode_load-Emits : (f3 : ℕ) (ln : Line) (syms : Syms) → Emits 1 (encode_load f3 ln syms)
unfolding encode_load
encode_load-Emits f3 ln syms =
    Emits-of 1 (encode_load f3 ln syms) (λ ws h. grind (arith, i_type-lt))

pub encode_store-Emits : (f3 : ℕ) (ln : Line) (syms : Syms) → Emits 1 (encode_store f3 ln syms)
unfolding encode_store
encode_store-Emits f3 ln syms =
    Emits-of 1 (encode_store f3 ln syms) (λ ws h. grind (arith, s_type-lt))

pub encode_branch-Emits : (f3 : ℕ) (ln : Line) (syms : Syms) → Emits 1 (encode_branch f3 ln syms)
unfolding encode_branch
encode_branch-Emits f3 ln syms =
    Emits-of 1 (encode_branch f3 ln syms) (λ ws h. grind (arith, b_type-lt))

pub encode_jal-Emits : (ln : Line) (syms : Syms) → Emits 1 (encode_jal ln syms)
unfolding encode_jal
encode_jal-Emits ln syms = Emits-of 1 (encode_jal ln syms) (λ ws h. grind (arith, j_type-lt))

pub encode_jalr-Emits : (ln : Line) (syms : Syms) → Emits 1 (encode_jalr ln syms)
unfolding encode_jalr
encode_jalr-Emits ln syms = Emits-of 1 (encode_jalr ln syms) (λ ws h. grind (arith, i_type-lt))

pub encode_upper-Emits :
    (opcode : ℕ) (ln : Line) (syms : Syms) → Emits 1 (encode_upper opcode ln syms)
unfolding encode_upper
encode_upper-Emits opcode ln syms =
    Emits-of 1 (encode_upper opcode ln syms) (λ ws h. grind (arith, u_type-lt))

pub encode_mv-Emits : (ln : Line) → Emits 1 (encode_mv ln)
unfolding encode_mv
encode_mv-Emits ln = Emits-of 1 (encode_mv ln) (λ ws h. grind (arith, i_type-lt))

pub encode_not-Emits : (ln : Line) → Emits 1 (encode_not ln)
unfolding encode_not
encode_not-Emits ln = Emits-of 1 (encode_not ln) (λ ws h. grind (arith, i_type-lt))

pub encode_neg-Emits : (ln : Line) → Emits 1 (encode_neg ln)
unfolding encode_neg
encode_neg-Emits ln = Emits-of 1 (encode_neg ln) (λ ws h. grind (arith, r_type-lt))

pub encode_j-Emits : (ln : Line) (syms : Syms) → Emits 1 (encode_j ln syms)
unfolding encode_j
encode_j-Emits ln syms = Emits-of 1 (encode_j ln syms) (λ ws h. grind (arith, j_type-lt))

pub encode_jr-Emits : (ln : Line) → Emits 1 (encode_jr ln)
unfolding encode_jr
encode_jr-Emits ln = Emits-of 1 (encode_jr ln) (λ ws h. grind (arith, i_type-lt))

pub encode_ret-Emits : (ln : Line) → Emits 1 (encode_ret ln)
unfolding encode_ret
encode_ret-Emits ln = Emits-of 1 (encode_ret ln) (λ ws h. grind (arith, i_type-lt))

pub encode_zero_branch-Emits :
    (f3 : ℕ) (ln : Line) (syms : Syms) → Emits 1 (encode_zero_branch f3 ln syms)
unfolding encode_zero_branch
encode_zero_branch-Emits f3 ln syms =
    Emits-of 1 (encode_zero_branch f3 ln syms) (λ ws h. grind (arith, b_type-lt))

pub encode_li-Emits : (ln : Line) (syms : Syms) → Emits 2 (encode_li ln syms)
unfolding encode_li
encode_li-Emits ln syms =
    Emits-of 2 (encode_li ln syms) (λ ws h. grind (arith, i_type-lt, u_type-lt))

pub encode_la-Emits : (ln : Line) (syms : Syms) → Emits 2 (encode_la ln syms)
unfolding encode_la
encode_la-Emits ln syms =
    Emits-of 2 (encode_la ln syms) (λ ws h. grind (arith, i_type-lt, u_type-lt))

pub encode_call-Emits : (ln : Line) (syms : Syms) → Emits 2 (encode_call ln syms)
unfolding encode_call
encode_call-Emits ln syms =
    Emits-of 2 (encode_call ln syms) (λ ws h. grind (arith, i_type-lt, u_type-lt))
