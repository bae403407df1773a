-- ===== src/Asm/Layout/Agree.antt =====
-- Pass 2 of tools/assembler/assemble.py emits for every mnemonic as many words as pass 1 reserves.
use risc_forge.Base.{
  ℕ, ◌*◌, ◌≡◌, refl, subst, sym, List, Option, none, some, length, All, arith, if_both, if_cases,
  true, false, Bool-cases, inl, inr,
}
use mathlib.Core.Option.{get_or, map as option_map}
use risc_forge.Base.Text.{Text, codes, ◌is◌, lookup, text_eq, text_eq_iff}
use risc_forge.Asm.Error.{ok}
use risc_forge.Asm.Line.{Line, Syms}
use risc_forge.Asm.Encode.{encode_instruction, encode_other, encode_pseudo, is_shift}
use risc_forge.Asm.Layout.{instruction_size}
use risc_forge.Asm.Layout.Sizes.{
  i_type-lt, IsInstructionWord, Emits, HasWords, encode_r-Emits, encode_i_alu-Emits,
  encode_shift-Emits, encode_load-Emits, encode_store-Emits, encode_branch-Emits, encode_jal-Emits,
  encode_jalr-Emits, encode_upper-Emits, encode_mv-Emits, encode_not-Emits, encode_neg-Emits,
  encode_j-Emits, encode_jr-Emits, encode_ret-Emits, encode_zero_branch-Emits, encode_li-Emits,
  encode_la-Emits, encode_call-Emits,
}
use risc_forge.Asm.Encode.Real.{
  encode_r, encode_i_alu, encode_load, encode_store, encode_branch, encode_fence, encode_fence_i,
  encode_ecall, encode_ebreak,
}
use risc_forge.Asm.Encode.Pseudo.{encode_nop}
use risc_forge.Asm.Tables.{r_table, i_alu_table, load_table, store_table, branch_table}
use risc_forge.Encoding.{int, Opcode, opcode_int, f12_ecall, f12_ebreak}

map_or {ℓ ℓ' κ} :
    {A : Type ℓ} {B : Type ℓ'} (P : B → Type κ) (f : A → B) (o : Option A) {d : B}
    → ((a : A) → P (f a))
    → P d
    → P (get_or (option_map f o) d)
map_or P f none p q = q
map_or P f (some a) p q = p a

-- The mnemonics of two words are not among those that are left.
abbrev IsOneWord : Text → Type 0
IsOneWord op = ((op is "li") ≡ false) × ((op is "la") ≡ false) × ((op is "call") ≡ false)

nop_Emits : Emits 1 encode_nop
nop_Emits = (refl, (i_type-lt 0b0010011 0 0 0 0, tt))

fence_Emits : Emits 1 encode_fence
fence_Emits = (refl, (i_type-lt 15 0 0 0 255, tt))

fence_i_Emits : Emits 1 encode_fence_i
fence_i_Emits = (refl, (i_type-lt 15 0 1 0 0, tt))

ecall_Emits : Emits 1 encode_ecall
ecall_Emits = (refl, (i_type-lt 115 0 0 0 f12_ecall, tt))

ebreak_Emits : Emits 1 encode_ebreak
ebreak_Emits = (refl, (i_type-lt 115 0 0 0 f12_ebreak, tt))

encode_pseudo-Emits :
    (op : Text) (ln : Line) (syms : Syms) → IsOneWord op → Emits 1 (encode_pseudo op ln syms)
unfolding encode_pseudo
encode_pseudo-Emits op ln syms (li, la, call) = if_both (Emits 1) (op is "nop") nop_Emits (
    if_both (Emits 1) (op is "mv") (encode_mv-Emits ln) (
      if_both (Emits 1) (op is "not") (encode_not-Emits ln) (
        if_both (Emits 1) (op is "neg") (encode_neg-Emits ln) (
          if_both (Emits 1) (op is "j") (encode_j-Emits ln syms) (
            if_both (Emits 1) (op is "jr") (encode_jr-Emits ln) (
              if_both (Emits 1) (op is "ret") (encode_ret-Emits ln) (
                if_both (Emits 1) (op is "beqz") (encode_zero_branch-Emits 0 ln syms) (
                  if_both (Emits 1) (op is "bnez") (encode_zero_branch-Emits 1 ln syms) (
                    if_cases (Emits 1) (op is "li") (λ h. cc)
                      λ _.
                        if_cases (Emits 1) (op is "la") (λ h. cc)
                          λ _. if_cases (Emits 1) (op is "call") (λ h. cc) λ _. tt)))))))))

encode_other-Emits :
    (op : Text) (ln : Line) (syms : Syms) → IsOneWord op → Emits 1 (encode_other op ln syms)
unfolding encode_other
encode_other-Emits op ln syms h = if_both (Emits 1) (op is "jal") (encode_jal-Emits ln syms) (
    if_both (Emits 1) (op is "jalr") (encode_jalr-Emits ln syms) (
      if_both (Emits 1) (op is "lui") (encode_upper-Emits (int Opcode.lui) ln syms) (
        if_both (Emits 1) (op is "auipc") (encode_upper-Emits (int Opcode.auipc) ln syms) (
          if_both (Emits 1) (op is "fence") fence_Emits (
            if_both (Emits 1) (op is "fence.i") fence_i_Emits (
              if_both (Emits 1) (op is "ecall") ecall_Emits (
                if_both (Emits 1) (op is "ebreak") ebreak_Emits
                  (encode_pseudo-Emits op ln syms h))))))))

encode_one-Emits :
    (op : Text) (ln : Line) (syms : Syms) → IsOneWord op → Emits 1 (encode_instruction op ln syms)
unfolding encode_instruction
encode_one-Emits op ln syms h =
    map_or (Emits 1) (λ f. encode_r f.0 f.1 ln) (lookup op r_table) (λ f. encode_r-Emits f.0 f.1 ln)
      (map_or (Emits 1) (λ f3. encode_i_alu f3 ln syms) (lookup op i_alu_table)
        (λ f3. encode_i_alu-Emits f3 ln syms)
        (if_both (Emits 1) (is_shift op) (encode_shift-Emits op ln syms) (
          map_or (Emits 1) (λ f3. encode_load f3 ln syms) (lookup op load_table)
            (λ f3. encode_load-Emits f3 ln syms)
            (map_or (Emits 1) (λ f3. encode_store f3 ln syms) (lookup op store_table)
              (λ f3. encode_store-Emits f3 ln syms)
              (map_or (Emits 1) (λ f3. encode_branch f3 ln syms) (lookup op branch_table)
                (λ f3. encode_branch-Emits f3 ln syms) (encode_other-Emits op ln syms h))))))

-- What pass 1 reserves, and what pass 2 emits.
abbrev Agrees : Text → Line → Syms → Type 0
Agrees op ln syms =
    (n : ℕ) × (instruction_size op ≡ 4 * n) × Emits n (encode_instruction op ln syms)

li-Agrees : (ln : Line) (syms : Syms) → Agrees (codes "li") ln syms
unfolding instruction_size encode_instruction encode_other encode_pseudo
li-Agrees ln syms = (2, refl, encode_li-Emits ln syms)

la-Agrees : (ln : Line) (syms : Syms) → Agrees (codes "la") ln syms
unfolding instruction_size encode_instruction encode_other encode_pseudo
la-Agrees ln syms = (2, refl, encode_la-Emits ln syms)

call-Agrees : (ln : Line) (syms : Syms) → Agrees (codes "call") ln syms
unfolding instruction_size encode_instruction encode_other encode_pseudo
call-Agrees ln syms = (2, refl, encode_call-Emits ln syms)

one-Agrees : (op : Text) (ln : Line) (syms : Syms) → IsOneWord op → Agrees op ln syms
unfolding instruction_size
one-Agrees op ln syms h = (1, ground arith, encode_one-Emits op ln syms h)

by_text :
    (op literal : Text) (ln : Line) (syms : Syms)
    → Agrees literal ln syms
    → text_eq op literal ≡ true
    → Agrees op ln syms
by_text op literal ln syms h e =
    subst (λ o. Agrees o ln syms) (sym ((text_eq_iff op literal).0 e)) h

op-Agrees : (op : Text) (ln : Line) (syms : Syms) → Agrees op ln syms
op-Agrees op ln syms = elim (Bool-cases (op is "li")) [
  | inl h ↦ by_text op (codes "li") ln syms (li-Agrees ln syms) h
  | inr li ↦ elim (Bool-cases (op is "la")) [
    | inl h ↦ by_text op (codes "la") ln syms (la-Agrees ln syms) h
    | inr la ↦ elim (Bool-cases (op is "call")) [
      | inl h ↦ by_text op (codes "call") ln syms (call-Agrees ln syms) h
      | inr call ↦ one-Agrees op ln syms (li, la, call)
    ]
  ]
]

-- For every mnemonic `op`, every line and every symbol table: if `encode_line` encodes the line's
-- instruction as the words `ws`, then the size that pass 1 has reserved for the mnemonic is four
-- bytes for each word of `ws`, and each word is less than 2 ^ 32.
pub encode_instruction-size :
    (op : Text) (ln : Line) (syms : Syms) (ws : List ℕ)
    → encode_instruction op ln syms ≡ ok ws
    → (instruction_size op ≡ 4 * length ws) × All IsInstructionWord ws
encode_instruction-size op ln syms ws e = size_of (op-Agrees op ln syms)
  where
    size_of : Agrees op ln syms → (instruction_size op ≡ 4 * length ws) × All IsInstructionWord ws
    size_of (n, size, h) = from (subst (Emits n) e h)
      where
        from : HasWords n ws → (instruction_size op ≡ 4 * length ws) × All IsInstructionWord ws
        from (len, words) = (omega arith, words)
