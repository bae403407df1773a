-- ===== src/Emu/Imm.antt =====
-- The immediate decoders of tools/refmodel/rv32i_emu.py.
pub mod Sums
use risc_forge.Base.{ℕ, bit_and, bit_or}
use risc_forge.Base.Bits.{◌<<<◌, ◌>>>◌}
use risc_forge.Base.Int.{ℤ, pos}
use risc_forge.Emu.Word.{sext}

unfoldable pub imm_i : ℕ → ℤ
imm_i inst = sext (pos (bit_and (inst >>> 20) 0xfff)) 12

unfoldable pub imm_s : ℕ → ℤ
imm_s inst =
    let raw = bit_or (bit_and (inst >>> 25) 0x7f <<< 5) (bit_and (inst >>> 7) 0x1f) in
    sext (pos raw) 12

unfoldable pub imm_b : ℕ → ℤ
imm_b inst =
    let raw =
      bit_or
        (bit_or (bit_or (bit_and (inst >>> 31) 0x1 <<< 12) (bit_and (inst >>> 25) 0x3f <<< 5))
          (bit_and (inst >>> 8) 0xf <<< 1))
        (bit_and (inst >>> 7) 0x1 <<< 11) in
    sext (pos raw) 13

unfoldable pub imm_u : ℕ → ℕ
imm_u inst = bit_and inst 0xfffff000

unfoldable pub imm_j : ℕ → ℤ
imm_j inst =
    let raw =
      bit_or
        (bit_or (bit_or (bit_and (inst >>> 31) 0x1 <<< 20) (bit_and (inst >>> 21) 0x3ff <<< 1))
          (bit_and (inst >>> 20) 0x1 <<< 11))
        (bit_and (inst >>> 12) 0xff <<< 12) in
    sext (pos raw) 21
