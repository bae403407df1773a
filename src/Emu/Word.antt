-- ===== src/Emu/Word.antt =====
-- The helpers `u32`, `s32` and `sext` of tools/refmodel/rv32i_emu.py, on Python integers.
use risc_forge.Base.{
  ℕ, suc, ◌+◌, ◌-◌, ◌*◌, ◌%◌, ◌^◌, ◌<◌, ◌≡◌, arith, bit_and, bit_xor, ◌==◌, ltb, if◌then◌else◌,
}
use risc_forge.Base.Int.{ℤ, pos, negsuc, ◌+ℤ◌, ◌-ℤ◌, and_mask, mod_pow, and_mask-mod_pow}
use risc_forge.Base.Bits.{bit_and_pow, bit_xor_top_clear, bit_xor_top_set, two_pow_pos}
use native.Mathlib.Nat.{mod-lt, pow-suc}

abbrev pub xlen : ℕ
xlen = 32

abbrev pub xmask : ℕ
xmask = 2 ^ xlen - 1

unfoldable pub u32 : ℤ → ℕ
u32 x = and_mask x xmask

-- The test of the sign bit is `x & (1 << 31)`, a number that is not zero.
unfoldable pub s32 : ℤ → ℤ
unfolding u32
s32 x =
    let low = u32 x in
    if bit_and low (2 ^ (xlen - 1)) == 0 then pos low else pos low -ℤ pos (2 ^ xlen)

unfoldable pub sext : ℤ → ℕ → ℤ
sext value bits =
    let sign = 2 ^ (bits - 1) in
    let low = and_mask value (2 ^ bits - 1) in pos (bit_xor low sign) -ℤ pos sign

-- The number that a pattern of `suc k` binary digits stands for in two's complement.
abbrev pub signed : ℕ → ℕ → ℤ
signed k n = if ltb n (2 ^ k) then pos n else negsuc (2 * 2 ^ k - n - 1)

pub u32-mod_pow : (x : ℤ) → u32 x ≡ mod_pow 32 x
unfolding u32
u32-mod_pow x = and_mask-mod_pow 32 x

pub u32-lt : (x : ℤ) → u32 x < 2 ^ 32
unfolding mod_pow
u32-lt x = ground (arith, u32-mod_pow x)

pub u32-pos : (n : ℕ) → u32 (pos n) ≡ n % 2 ^ 32
unfolding mod_pow
u32-pos n = u32-mod_pow (pos n)

-- Reading a sum modulo 2 ^ 32 needs only the residues of its parts.
pub u32-+ℤ : (a : ℕ) (b : ℤ) → u32 (pos a +ℤ b) ≡ (a + u32 b) % 2 ^ 32
unfolding mod_pow ◌+ℤ◌
u32-+ℤ a b = ground (arith, u32-mod_pow (pos a +ℤ b), u32-mod_pow b)

pub s32-signed : (x : ℤ) → s32 x ≡ signed 31 (u32 x)
unfolding s32 ◌-ℤ◌
s32-signed x = ground (arith, bit_and_pow 31 (u32 x), u32-lt x)

mod_pow-lt : (k : ℕ) (x : ℤ) → mod_pow (suc k) x < 2 * 2 ^ k
unfolding mod_pow
mod_pow-lt k (pos n) = omega (arith, mod-lt n (two_pow_pos (suc k)), pow-suc 2 k)
mod_pow-lt k (negsuc n) = omega (arith, two_pow_pos (suc k), pow-suc 2 k)

masked-lt : (k : ℕ) (x : ℤ) → and_mask x (2 ^ suc k - 1) < 2 * 2 ^ k
masked-lt k x = rw (and_mask-mod_pow (suc k) x) (mod_pow-lt k x)

-- Sign extension reads the low digits in two's complement.
pub sext-signed : (k : ℕ) (x : ℤ) → sext x (suc k) ≡ signed k (and_mask x (2 ^ suc k - 1))
unfolding sext ◌-ℤ◌
sext-signed k x =
    let low = and_mask x (2 ^ suc k - 1) in
    let width : suc k - 1 ≡ k = omega arith in rw width (flip_top low (masked-lt k x))
  where
    flip_top : (n : ℕ) → n < 2 * 2 ^ k → pos (bit_xor n (2 ^ k)) -ℤ pos (2 ^ k) ≡ signed k n
    flip_top n h = ground (arith, bit_xor_top_clear k n, bit_xor_top_set k n)
