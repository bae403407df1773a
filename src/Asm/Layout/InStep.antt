-- ===== src/Asm/Layout/InStep.antt =====
-- Two pairs of section counters of tools/assembler/assemble.py that count the text section from
-- different bases, and the moves that keep them in step.
use risc_forge.Base.{ℕ, ◌+◌, ◌-◌, ◌*◌, ◌/◌, ◌%◌, ◌^◌, ◌≤◌, ◌≡◌, refl, arith, sym, ◌∙◌, ap}
use risc_forge.Asm.Line.{Section}
use risc_forge.Asm.Layout.Sections.{Sections, here, move_to, align_up}
use risc_forge.Asm.Layout.Aligned.{align_up-multiple, power_divides}

-- The counters of `pass1` (first) are those of the size pass, from `base` on, in the text section.
pub record InStep (base : ℕ) (s z : Sections) : Type 0 where
  pub text : s.text_at ≡ base + z.text_at
  pub current : s.current ≡ z.current

-- Both counters are moved, in the text section to places that are `base` apart.
moved_in :
    (base a b x y p q : ℕ) (c d : Section)
    → c ≡ d
    → a ≡ base + x
    → (c ≡ Section.text → p ≡ base + q)
    → InStep base
        (move_to p (record { text_at = a; data_at = b; current = c }))
        (move_to q (record { text_at = x; data_at = y; current = d }))
moved_in base a b x y p q Section.text Section.text e h f = record { text = f refl; current = refl }
moved_in base a b x y p q Section.text Section.data_section e h f = absurd (ground arith)
moved_in base a b x y p q Section.data_section Section.text e h f = absurd (ground arith)
moved_in base a b x y p q Section.data_section Section.data_section e h f = record {
  text = h;
  current = refl;
}

moved-InStep :
    (base p q : ℕ) (s z : Sections)
    → InStep base s z
    → (s.current ≡ Section.text → p ≡ base + q)
    → InStep base (move_to p s) (move_to q z)
moved-InStep base p q s z h f =
    moved_in base s.text_at s.data_at z.text_at z.data_at p q s.current z.current h.current h.text f

here-InStep :
    (base : ℕ) (s z : Sections)
    → InStep base s z
    → s.current ≡ Section.text
    → here s ≡ base + here z
here-InStep base s z h e = let d : z.current ≡ Section.text = sym h.current ∙ e in rw (e, d) h.text

pub advance-InStep :
    (base n : ℕ) (s z : Sections)
    → InStep base s z
    → InStep base (move_to (here s + n) s) (move_to (here z + n) z)
advance-InStep base n s z h =
    moved-InStep base (here s + n) (here z + n) s z h (λ e. omega (arith, here-InStep base s z h e))

pub align-InStep :
    (base k : ℕ) (s z : Sections)
    → k ≤ 12
    → base % 2 ^ 12 ≡ 0
    → InStep base s z
    → InStep base (move_to (align_up (here s) (2 ^ k)) s) (move_to (align_up (here z) (2 ^ k)) z)
align-InStep base k s z small aligned h =
    moved-InStep base (align_up (here s) (2 ^ k)) (align_up (here z) (2 ^ k)) s z h (λ e.
      let q = base / 2 ^ 12 * 2 ^ (12 - k) in
      let whole : base ≡ q * 2 ^ k = power_divides k base small aligned in
      let start : here s ≡ q * 2 ^ k + here z =
        here-InStep base s z h e ∙ ap (λ (t : ℕ). t + here z) whole in
      ap (λ (t : ℕ). align_up t (2 ^ k)) start
      ∙ align_up-multiple k q (here z)
      ∙ ap (λ (t : ℕ). t + align_up (here z) (2 ^ k)) (sym whole))
