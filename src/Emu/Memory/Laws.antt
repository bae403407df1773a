-- ===== src/Emu/Memory/Laws.antt =====
-- A load sees what a store wrote: `load` and `store` of tools/refmodel/rv32i_emu.py.
use risc_forge.Base.{
  ℕ, ◌+◌, ◌-◌, ◌%◌, ◌^◌, ◌≤◌, ◌≡◌, ◌⊎◌, ◌≢◌, inl, inr, refl, ap, subst, Bool-cases, if_cases, ◌==◌,
  ◌∙◌, List, arith, length, get_or, set, false, Bool,
}
use risc_forge.Base.Bits.{bit_and_mask}
use risc_forge.Emu.Word.{u32-pos}
use risc_forge.Emu.State.{Cpu, ok}
use risc_forge.Emu.Memory.{
  read_le, write_le, load, store, store_tohost, store_bytes, mem_index, is_misaligned,
}
use risc_forge.Emu.Memory.Bytes.{
  low-IsBytes, length-write_le, read_le-write_le, read_le-write_le_outside,
}

-- The sizes of an access.
abbrev pub IsSize : ℕ → Type 0
IsSize size = (size ≡ 1) ⊎ ((size ≡ 2) ⊎ (size ≡ 4))

-- Any store of one to four bytes writes the low bytes of the value, lowest first.
store_bytes-write_le :
    (i v size : ℕ) (mem : List ℕ)
    → IsSize size
    → store_bytes i v size mem ≡ write_le size mem i (v % 256 ^ size)
unfolding store_bytes write_le
store_bytes-write_le i v size mem (inl e) =
    rw e (ap (λ (t : ℕ). set mem i t) (omega (arith, bit_and_mask 8 v)))
store_bytes-write_le i v size mem (inr (inl e)) =
    rw e (ap (λ (t : ℕ). write_le 2 mem i t) (omega (arith, bit_and_mask 16 v)))
store_bytes-write_le i v size mem (inr (inr e)) =
    rw e (ap (λ (t : ℕ). write_le 4 mem i t) (omega (arith, u32-pos v)))

low-IsBytes_lem : (v size : ℕ) → IsSize size → low-IsBytes size (v % 256 ^ size) ≡ v % 256 ^ size
low-IsBytes_lem v size (inl e) = rw e (omega arith)
low-IsBytes_lem v size (inr (inl e)) = rw e (omega arith)
low-IsBytes_lem v size (inr (inr e)) = rw e (omega arith)

-- What an access needs: alignment and room.
abbrev pub IsAccess : ℕ → ℕ → Cpu → Type 0
IsAccess addr size c =
    (is_misaligned addr size ≡ false)
    × (c.mem_base ≤ addr)
    × (addr + size ≤ c.mem_base + length c.mem)

pub store-IsAccess :
    (addr v size : ℕ) (c c' : Cpu)
    → addr ≢ c.tohost_addr
    → store addr v size c ≡ (ok tt, c')
    → IsAccess addr size c × (c' ≡ record c { mem = store_bytes (addr - c.mem_base) v size c.mem })
unfolding store mem_index
store-IsAccess addr v size c c' ne h = ground arith

mem_index_lem :
    (addr size : ℕ) (c : Cpu)
    → IsAccess addr size c
    → mem_index addr size c ≡ ok (addr - c.mem_base)
unfolding mem_index
mem_index_lem addr size c a = ground arith

load_lem :
    (addr size : ℕ) (c : Cpu)
    → IsSize size
    → IsAccess addr size c
    → load addr size false c ≡ ok (read_le size c.mem (addr - c.mem_base))
unfolding load read_le
load_lem addr size c (inl e) a = rw (a.0, mem_index_lem addr size c a, e) (ground arith)
load_lem addr size c (inr (inl e)) a = rw (a.0, mem_index_lem addr size c a, e) (ground arith)
load_lem addr size c (inr (inr e)) a = rw (a.0, mem_index_lem addr size c a, e) (ground arith)

load_cong :
    (addr size : ℕ) (sign : Bool) (c : Cpu) (mem' : List ℕ)
    → IsSize size
    → length mem' ≡ length c.mem
    → (IsAccess addr size c
        → read_le size mem' (addr - c.mem_base) ≡ read_le size c.mem (addr - c.mem_base))
    → load addr size sign (record c { mem = mem' }) ≡ load addr size sign c
unfolding load mem_index read_le
load_cong addr size sign c mem' (inl e) len same =
    let i = addr - c.mem_base in
    let byte : IsAccess addr size c → get_or mem' i 0 ≡ get_or c.mem i 0 =
      λ a. let h = rw e at (same a) in omega (arith, h) in
    ground (arith, byte)
load_cong addr size sign c mem' (inr (inl e)) len same = ground arith
load_cong addr size sign c mem' (inr (inr e)) len same = ground arith

length-store_bytes :
    (i v size : ℕ) (mem : List ℕ) → IsSize size → length (store_bytes i v size mem) ≡ length mem
length-store_bytes i v size mem h =
    rw (store_bytes-write_le i v size mem h) (length-write_le size mem i (v % 256 ^ size))

-- An unsigned load of the same size at the address of a store that succeeded gives the low bytes of
-- the value, if the size is 1, 2 or 4 and the address is not that of `tohost`.
pub load-store :
    (addr v size : ℕ) (c c' : Cpu)
    → IsSize size
    → addr ≢ c.tohost_addr
    → store addr v size c ≡ (ok tt, c')
    → load addr size false c' ≡ ok (v % 256 ^ size)
load-store addr v size c c' s ne h =
    let (a, e) = store-IsAccess addr v size c c' ne h in
    let i = addr - c.mem_base in
    let len = length-store_bytes i v size c.mem s in
    let stored = read_le-write_le size c.mem i (v % 256 ^ size) (omega arith) in
    rw
      (
        e,
        load_lem addr size (record c { mem = store_bytes i v size c.mem }) s (a.0, a.1, rw len a.2),
      )
      (ap ok (
        ap (λ (m : List ℕ). read_le size m i) (store_bytes-write_le i v size c.mem s)
        ∙ (stored ∙ low-IsBytes_lem v size s)))

apart_in_memory :
    (addr v size addr₂ size₂ : ℕ) (sign : Bool) (c c' : Cpu)
    → IsSize size
    → IsSize size₂
    → addr ≢ c.tohost_addr
    → (addr₂ + size₂ ≤ addr) ⊎ (addr + size ≤ addr₂)
    → store addr v size c ≡ (ok tt, c')
    → load addr₂ size₂ sign c' ≡ load addr₂ size₂ sign c
apart_in_memory addr v size addr₂ size₂ sign c c' s s₂ ne apart h =
    let (a, e) = store-IsAccess addr v size c c' ne h in
    let i = addr - c.mem_base in
    rw e (
      load_cong addr₂ size₂ sign c (store_bytes i v size c.mem) s₂
        (length-store_bytes i v size c.mem s)
        (λ (b : IsAccess addr₂ size₂ c).
          ap (λ (m : List ℕ). read_le size₂ m (addr₂ - c.mem_base))
            (store_bytes-write_le i v size c.mem s)
          ∙ read_le-write_le_outside size₂ size c.mem i (v % 256 ^ size) (addr₂ - c.mem_base)
              (ground arith)))

store-at_tohost :
    (addr v size : ℕ) (c c' : Cpu)
    → addr ≡ c.tohost_addr
    → store addr v size c ≡ (ok tt, c')
    → store_tohost v c ≡ c'
unfolding store
store-at_tohost addr v size c c' e =
    if_cases (λ x. x ≡ (ok tt, c') → store_tohost v c ≡ c') (addr == c.tohost_addr)
      (λ b h. ap (λ x. x.1) h) (λ b h. absurd (ground arith))

load-after_tohost :
    (addr size v : ℕ) (sign : Bool) (c : Cpu)
    → load addr size sign (store_tohost v c) ≡ load addr size sign c
unfolding store_tohost load mem_index
load-after_tohost addr size v sign c = refl

-- A store to `tohost` leaves every load as it was.
load-store_tohost :
    (addr v size addr₂ size₂ : ℕ) (sign : Bool) (c c' : Cpu)
    → addr ≡ c.tohost_addr
    → store addr v size c ≡ (ok tt, c')
    → load addr₂ size₂ sign c' ≡ load addr₂ size₂ sign c
load-store_tohost addr v size addr₂ size₂ sign c c' e h =
    let same : store_tohost v c ≡ c' = store-at_tohost addr v size c c' e h in
    subst (λ x. load addr₂ size₂ sign x ≡ load addr₂ size₂ sign c) same
      (load-after_tohost addr₂ size₂ v sign c)

-- A store of 1, 2 or 4 bytes that succeeded, to `tohost` or to the memory, leaves every load of 1, 2
-- or 4 bytes apart from its own as it was, the exceptions that it raises included.
pub load-store_apart :
    (addr v size addr₂ size₂ : ℕ) (sign : Bool) (c c' : Cpu)
    → IsSize size
    → IsSize size₂
    → (addr₂ + size₂ ≤ addr) ⊎ (addr + size ≤ addr₂)
    → store addr v size c ≡ (ok tt, c')
    → load addr₂ size₂ sign c' ≡ load addr₂ size₂ sign c
load-store_apart addr v size addr₂ size₂ sign c c' s s₂ apart h =
    elim (Bool-cases (addr == c.tohost_addr)) [
      | inl e ↦ load-store_tohost addr v size addr₂ size₂ sign c c' (ground arith) h
      | inr e ↦ apart_in_memory addr v size addr₂ size₂ sign c c' s s₂ (ground arith) apart h
    ]
