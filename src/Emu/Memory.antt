-- ===== src/Emu/Memory.antt =====
-- Memory accesses of the emulator: `_mem_index`, `load_program`, `fetch`, `load` and `store` of
-- tools/refmodel/rv32i_emu.py. A `bytearray` is a list of bytes; `struct` reads and writes numbers
-- in little-endian order.
pub mod Bytes
pub mod Laws
use risc_forge.Base.{
  ℕ, zero, suc, ◌+◌, ◌-◌, ◌*◌, ◌/◌, ◌%◌, Bool, true, ◌&&◌, ◌||◌, not, Option, none, some, List, [],
  ◌∷◌, bit_and, ltb, ◌==◌, if◌then◌else◌, length, get_or, set,
}
use risc_forge.Base.Int.{pos, and_mask}
use risc_forge.Emu.Word.{u32, sext, xmask}
use risc_forge.Emu.State.{
  Cpu, Result, ok, raise, trap, mem_range, misaligned_fetch, misaligned_load, misaligned_store,
  value_error, M, ◌>>=◌, reads, tohost_pass, tohost_fail,
}

abbrev pub try {ℓ κ} : {A : Type ℓ} {B : Type κ} → Result A → (A → Result B) → Result B
try (ok a) f = f a
try (raise e) f = raise e

-- `struct.unpack_from` of an unsigned number of `n` bytes, once the bounds are checked
unfoldable pub read_le : ℕ → List ℕ → ℕ → ℕ
read_le zero mem i = 0
read_le (suc n) mem i = get_or mem i 0 + 256 * read_le n mem (i + 1)

-- `struct.pack_into` of an unsigned number of `n` bytes, once the bounds are checked
unfoldable pub write_le : ℕ → List ℕ → ℕ → ℕ → List ℕ
write_le zero mem i v = mem
write_le (suc n) mem i v = write_le n (set mem i (v % 256)) (i + 1) (v / 256)

-- `mem[i:i + len(bytes)] = bytes`, once the bounds are checked
unfoldable pub splice : List ℕ → ℕ → List ℕ → List ℕ
splice mem i [] = mem
splice mem i (b ∷ bytes) = splice (set mem i b) (i + 1) bytes

unfoldable pub mem_index : ℕ → ℕ → Cpu → Result ℕ
mem_index addr size c =
    if ltb addr c.mem_base || ltb (c.mem_base + length c.mem) (addr + size)
    then raise (trap mem_range c.pc)
    else ok (addr - c.mem_base)

unfoldable pub load_program : List ℕ → Option ℕ → M (Unit {0})
load_program bytes base c =
    let start : ℕ = elim base [ none ↦ c.mem_base | some b ↦ b ] in
    let offset = start - c.mem_base in
    if ltb start c.mem_base || ltb (length c.mem) (offset + length bytes)
    then (raise value_error, c)
    else (ok tt, record c { mem = splice c.mem offset bytes })

unfoldable pub fetch : ℕ → Cpu → Result ℕ
unfolding mem_index
fetch addr c =
    if not (bit_and addr 0x3 == 0)
    then raise (trap misaligned_fetch c.pc)
    else try (mem_index addr 4 c) λ i. ok (read_le 4 c.mem i)

abbrev pub is_misaligned : ℕ → ℕ → Bool
is_misaligned addr size = (size == 2 || size == 4) && not (bit_and addr (size - 1) == 0)

abbrev pub extend : Bool → ℕ → ℕ → ℕ
extend signed bits v = if signed then and_mask (sext (pos v) bits) xmask else v

unfoldable pub load : ℕ → ℕ → Bool → Cpu → Result ℕ
unfolding mem_index
load addr size signed c =
    if is_misaligned addr size
    then raise (trap misaligned_load c.pc)
    else try (mem_index addr size c) λ i.
      if size == 1
      then ok (extend signed 8 (get_or c.mem i 0))
      else if size == 2
      then ok (extend signed 16 (read_le 2 c.mem i))
      else ok (read_le 4 c.mem i)

-- A store to the `tohost` address ends the run.
unfoldable pub store_tohost : ℕ → Cpu → Cpu
store_tohost value c =
    let v = u32 (pos value) in
    record c {
      tohost_value = some v;
      halted = true;
      halt_reason = some (if v == 1 then tohost_pass else tohost_fail);
    }

unfoldable pub store_bytes : ℕ → ℕ → ℕ → List ℕ → List ℕ
store_bytes i value size mem =
    if size == 1
    then set mem i (bit_and value 0xff)
    else if size == 2
    then write_le 2 mem i (bit_and value 0xffff)
    else write_le 4 mem i (u32 (pos value))

unfoldable pub store : ℕ → ℕ → ℕ → M (Unit {0})
unfolding mem_index store_tohost store_bytes
store addr value size c =
    if addr == c.tohost_addr
    then (ok tt, store_tohost value c)
    else if is_misaligned addr size
    then (raise (trap misaligned_store c.pc), c)
    else ◌>>=◌ (reads (mem_index addr size))
        (λ i c'. (ok tt, record c' { mem = store_bytes i value size c'.mem })) c
