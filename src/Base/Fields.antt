-- ===== src/Base/Fields.antt =====
-- Joining shifted bit fields, at a numeral width, as adding them.
use risc_forge.Base.{
  ℕ, ◌+◌, ◌-◌, ◌*◌, ◌/◌, ◌%◌, ◌^◌, ◌<◌, ◌≡◌, ◌∙◌, refl, sym, ap, ap₂, arith, bit_and, bit_or,
}
use native.Mathlib.Nat.{div-add-mod', mod-lt}
use risc_forge.Base.Bits.{bit_and_mask, bit_or_join, bit_or_above, two_pow_pos}

-- Joining a field below a number with room for it.
pub or_add : (k a b x y : ℕ) → a ≡ x → b ≡ y → x % 2 ^ k ≡ 0 → y < 2 ^ k → bit_or a b ≡ x + y
or_add k a b x y ea eb room h =
    let whole : x / 2 ^ k * 2 ^ k ≡ x = omega (arith, div-add-mod' x (2 ^ k)) in
    ap₂ bit_or (ea ∙ sym whole) eb ∙ (bit_or_join k (x / 2 ^ k) y h ∙ ap (λ (t : ℕ). t + y) whole)

pub field : (k w a : ℕ) → bit_and a (2 ^ w - 1) * 2 ^ k ≡ a % 2 ^ w * 2 ^ k
field k w a = ap (λ (t : ℕ). t * 2 ^ k) (bit_and_mask w a)

-- Joining a field `b` of `w` digits at `k` into a number whose digits there are clear.
pub or_insert :
    (k w a c x b : ℕ)
    → a ≡ x
    → c ≡ b * 2 ^ k
    → x / 2 ^ k % 2 ^ w ≡ 0
    → b < 2 ^ w
    → bit_or a c ≡ x + b * 2 ^ k
or_insert k w a c x b ea ec room h =
    let high = x / 2 ^ k in
    let split : x ≡ high * 2 ^ k + x % 2 ^ k = omega (arith, div-add-mod' x (2 ^ k)) in
    let joined : bit_or high b ≡ high + b = or_add w high b high b refl refl room h in
    ap₂ bit_or (ea ∙ split) ec
    ∙ (bit_or_above k high (x % 2 ^ k) b (mod-lt x (two_pow_pos k))
        ∙ omega (arith, ap (λ (t : ℕ). t * 2 ^ k) joined, split))
