-- ===== src/Emu/Memory/Bytes.antt =====
-- What a little-endian write leaves for a read, in the emulator's memory of
-- tools/refmodel/rv32i_emu.py.
use risc_forge.Base.{
  ℕ, zero, suc, ◌+◌, ◌*◌, ◌/◌, ◌%◌, ◌≤◌, ◌<◌, ◌≡◌, ◌⊎◌, refl, ◌∙◌, List, arith, length, get_or, set,
  length-set, get_or-set_self, get_or-set_ne,
}
use risc_forge.Emu.Memory.{read_le, write_le}

-- The number that `n` bytes of `v` hold.
abbrev pub low-IsBytes : ℕ → ℕ → ℕ
low-IsBytes zero v = 0
low-IsBytes (suc n) v = v % 256 + 256 * low-IsBytes n (v / 256)

pub length-write_le : (n : ℕ) (mem : List ℕ) (i v : ℕ) → length (write_le n mem i v) ≡ length mem
unfolding write_le
length-write_le zero mem i v = refl
length-write_le (suc n) mem i v =
    length-write_le n (set mem i (v % 256)) (i + 1) (v / 256) ∙ length-set mem i (v % 256)

pub get_or-write_le_outside :
    (n : ℕ) (mem : List ℕ) (i v j : ℕ)
    → (j < i) ⊎ (i + n ≤ j)
    → get_or (write_le n mem i v) j 0 ≡ get_or mem j 0
unfolding write_le
get_or-write_le_outside zero mem i v j h = refl
get_or-write_le_outside (suc n) mem i v j h =
    get_or-write_le_outside n (set mem i (v % 256)) (i + 1) (v / 256) j (ground arith)
    ∙ get_or-set_ne mem i j (v % 256) 0 (ground arith)

pub read_le-write_le :
    (n : ℕ) (mem : List ℕ) (i v : ℕ)
    → i + n ≤ length mem
    → read_le n (write_le n mem i v) i ≡ low-IsBytes n v
unfolding read_le write_le
read_le-write_le zero mem i v h = refl
read_le-write_le (suc n) mem i v h =
    let rest = set mem i (v % 256) in
    omega (
      arith,
      get_or-write_le_outside n rest (i + 1) (v / 256) i (omega arith),
      get_or-set_self mem i (v % 256) 0 (omega arith),
      read_le-write_le n rest (i + 1) (v / 256) (omega (arith, length-set mem i (v % 256))),
    )

-- A read that shares no byte with the write sees the old bytes.
pub read_le-write_le_outside :
    (m n : ℕ) (mem : List ℕ) (i v j : ℕ)
    → (j + m ≤ i) ⊎ (i + n ≤ j)
    → read_le m (write_le n mem i v) j ≡ read_le m mem j
unfolding read_le
read_le-write_le_outside zero n mem i v j h = refl
read_le-write_le_outside (suc m) n mem i v j h = omega (
  arith,
  get_or-write_le_outside n mem i v j (ground arith),
  read_le-write_le_outside m n mem i v (j + 1) (ground arith),
)
