-- ===== src/Emu/Invariant/Parts.antt =====
-- The operations on registers, memory and CSRs of tools/refmodel/rv32i_emu.py keep a state
-- well formed.
use risc_forge.Base.{
  ℕ, zero, suc, ◌+◌, ◌/◌, ◌%◌, ◌≡◌, refl, ◌∙◌, ◌≢◌, List, [], ◌∷◌, arith, ◌==◌, if_both, if_cases,
  length, set, All, length-set, All-set, get_or-set_ne, bit_and,
}
use risc_forge.Base.Bits.{bit_and_mask}
use risc_forge.Base.Int.{ℤ, pos}
use risc_forge.Emu.Word.{u32, u32-lt}
use risc_forge.Emu.State.{Cpu, Result, ok, raise, HaltReason, csr_set, reads, pure, M, ◌>>=◌}
use risc_forge.Emu.System.{halt}
use risc_forge.Emu.Registers.{wr}
use risc_forge.Emu.Memory.{write_le, store_bytes, store_tohost, store, mem_index, is_misaligned}
use risc_forge.Emu.Invariant.{IsWord, IsByte, HoldsWord, Evolves, Evolves-refl, Outcome}

wr-Evolves_ne :
    (idx v : ℕ) (c : Cpu) → idx ≢ 0 → IsWord v → Evolves c (record c { regs = set c.regs idx v })
wr-Evolves_ne idx v c ne w = record {
  keeps = λ h. record {
    regs_length = length-set c.regs idx v ∙ h.regs_length;
    regs_words = All-set IsWord c.regs idx v h.regs_words w;
    x0_zero = get_or-set_ne c.regs idx 0 v 0 ne ∙ h.x0_zero;
    pc_word = h.pc_word;
    mem_bytes = h.mem_bytes;
    csrs_words = h.csrs_words;
    halt_known = h.halt_known;
  };
  machine = record { mem_size = refl; mem_base = refl; tohost_addr = refl; trap_on_ecall = refl };
  same_pc = refl;
  same_steps = refl;
}

pub wr-Evolves : (idx v : ℕ) (c : Cpu) → Evolves c (wr idx v c)
unfolding wr
wr-Evolves idx v c =
    if_cases (Evolves c) (idx == 0) (λ _. Evolves-refl c)
      (λ h. wr-Evolves_ne idx (u32 (pos v)) c (ground arith) (u32-lt (pos v)))

-- A memory of bytes of the same size.
abbrev Rewrites : List ℕ → List ℕ → Type 0
Rewrites mem mem' = (length mem' ≡ length mem) × (All IsByte mem → All IsByte mem')

write_le-Rewrites : (n : ℕ) (mem : List ℕ) (i v : ℕ) → Rewrites mem (write_le n mem i v)
unfolding write_le
write_le-Rewrites zero mem i v = (refl, λ h. h)
write_le-Rewrites (suc n) mem i v =
    let rest = write_le-Rewrites n (set mem i (v % 256)) (i + 1) (v / 256) in
    (
      rest.0 ∙ length-set mem i (v % 256),
      λ h. rest.1 (All-set IsByte mem i (v % 256) h (omega arith)),
    )

set-Rewrites : (mem : List ℕ) (i v : ℕ) → IsByte v → Rewrites mem (set mem i v)
set-Rewrites mem i v h = (length-set mem i v, λ bytes. All-set IsByte mem i v bytes h)

low-IsByte : (v : ℕ) → IsByte (bit_and v 0xff)
low-IsByte v = omega (arith, bit_and_mask 8 v)

pub store_bytes-Rewrites : (i v size : ℕ) (mem : List ℕ) → Rewrites mem (store_bytes i v size mem)
unfolding store_bytes
store_bytes-Rewrites i v size mem =
    if_both (Rewrites mem) (size == 1) (set-Rewrites mem i (bit_and v 0xff) (low-IsByte v)) (
      if_both (Rewrites mem) (size == 2) (write_le-Rewrites 2 mem i (bit_and v 0xffff))
        (write_le-Rewrites 4 mem i (u32 (pos v))))

mem-Evolves : (c : Cpu) (mem' : List ℕ) → Rewrites c.mem mem' → Evolves c (record c { mem = mem' })
mem-Evolves c mem' h = record {
  keeps = λ v. record {
    regs_length = v.regs_length;
    regs_words = v.regs_words;
    x0_zero = v.x0_zero;
    pc_word = v.pc_word;
    mem_bytes = h.1 v.mem_bytes;
    csrs_words = v.csrs_words;
    halt_known = v.halt_known;
  };
  machine = record { mem_size = h.0; mem_base = refl; tohost_addr = refl; trap_on_ecall = refl };
  same_pc = refl;
  same_steps = refl;
}

store_tohost-Evolves : (v : ℕ) (c : Cpu) → Evolves c (store_tohost v c)
unfolding store_tohost
store_tohost-Evolves v c = record {
  keeps = λ h. record {
    regs_length = h.regs_length;
    regs_words = h.regs_words;
    x0_zero = h.x0_zero;
    pc_word = h.pc_word;
    mem_bytes = h.mem_bytes;
    csrs_words = h.csrs_words;
    halt_known = refl;
  };
  machine = record { mem_size = refl; mem_base = refl; tohost_addr = refl; trap_on_ecall = refl };
  same_pc = refl;
  same_steps = refl;
}

-- The reads at the head of a method change nothing and raise with the object as it was.
pub reads-Outcome {ℓ κ} :
    {A : Type ℓ} {B : Type κ} (Q : B → Type 0) (c : Cpu) (res : Result A) (f : A → M B)
    → ((a : A) → Outcome Q c (f a c))
    → Outcome Q c (◌>>=◌ (reads (λ _. res)) f c)
reads-Outcome Q c (ok a) f h = h a
reads-Outcome Q c (raise e) f h = refl

-- A last step that neither raises nor changes anything.
pub map-Outcome {ℓ κ} :
    {A : Type ℓ} {B : Type κ} (P : A → Type 0) (Q : B → Type 0) (c : Cpu) (t : Result A × Cpu)
    (f : A → B)
    → Outcome P c t
    → ((a : A) → P a → Q (f a))
    → Outcome Q c (◌>>=◌ (λ _. t) (λ a. pure (f a)) c)
map-Outcome P Q c (ok a, c') f h g = (h.0, g a h.1)
map-Outcome P Q c (raise e, c') f h g = h

abbrev pub Any {ℓ} : {A : Type ℓ} → A → Type 0
Any a = Unit

pub store-Outcome : (addr v size : ℕ) (c : Cpu) → Outcome Any c (store addr v size c)
unfolding store
store-Outcome addr v size c =
    if_both (Outcome Any c) (addr == c.tohost_addr) (store_tohost-Evolves v c, tt)
      (if_both (Outcome Any c) (is_misaligned addr size) refl (
        reads-Outcome Any c (mem_index addr size c)
          (λ i c'. (ok tt, record c' { mem = store_bytes i v size c'.mem }))
          (λ i. (
            mem-Evolves c (store_bytes i v size c.mem) (store_bytes-Rewrites i v size c.mem),
            tt,
          ))))

csr_set-words :
    (csr v : ℕ) (csrs : List (ℕ × ℕ))
    → IsWord v
    → All HoldsWord csrs
    → All HoldsWord (csr_set csr v csrs)
unfolding csr_set
csr_set-words csr v [] w h = (w, tt)
csr_set-words csr v ((k, x) ∷ rest) w h =
    if_both (All HoldsWord) (k == csr) (w, h.1) (h.0, csr_set-words csr v rest w h.1)

pub csrs-Evolves :
    (csr : ℕ) (x : ℤ) (c : Cpu) → Evolves c (record c { csrs = csr_set csr (u32 x) c.csrs })
csrs-Evolves csr x c = record {
  keeps = λ h. record {
    regs_length = h.regs_length;
    regs_words = h.regs_words;
    x0_zero = h.x0_zero;
    pc_word = h.pc_word;
    mem_bytes = h.mem_bytes;
    csrs_words = csr_set-words csr (u32 x) c.csrs (u32-lt x) h.csrs_words;
    halt_known = h.halt_known;
  };
  machine = record { mem_size = refl; mem_base = refl; tohost_addr = refl; trap_on_ecall = refl };
  same_pc = refl;
  same_steps = refl;
}

pub halt-Evolves : (reason : HaltReason) (c : Cpu) → Evolves c (halt reason c)
halt-Evolves reason c = record {
  keeps = λ h. record {
    regs_length = h.regs_length;
    regs_words = h.regs_words;
    x0_zero = h.x0_zero;
    pc_word = h.pc_word;
    mem_bytes = h.mem_bytes;
    csrs_words = h.csrs_words;
    halt_known = refl;
  };
  machine = record { mem_size = refl; mem_base = refl; tohost_addr = refl; trap_on_ecall = refl };
  same_pc = refl;
  same_steps = refl;
}
