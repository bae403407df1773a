-- ===== src/Runner/Boot.antt =====
-- The memory that `run_test` of tools/refmodel/riscv_tests_runner.py makes is large enough for the
-- segments, and holds them.
use risc_forge.Base.{
  ℕ, ◌+◌, ◌-◌, ◌≤◌, ◌<◌, ◌≡◌, ◌⊎◌, inl, inr, if_cases, refl, ◌∙◌, List, [], ◌∷◌, some, false, true,
  arith, length, get_or, replicate, All, reads, reads-get_or, ltb, if◌then◌else◌, All-replicate,
  length-replicate, subst, sym,
}
use risc_forge.Base.Bits.{bit_and_mask}
use risc_forge.Emu.State.{Cpu, ok, init}
use risc_forge.Emu.Memory.{load_program, splice}
use risc_forge.Emu.Invariant.{IsValid, IsWord, IsByte}
use risc_forge.Emu.Invariant.Tohost.{IsUntold}
use risc_forge.Runner.{Segment, min_base, max_top, mem_size_for, load_segments, boot}
use risc_forge.Runner.Splice.{
  length-splice, All-splice, get_or-splice_outside, get_or-splice_inside,
}

min_base-le : (m : ℕ) (segments : List Segment) → min_base m segments ≤ m
unfolding min_base
min_base-le m [] = omega arith
min_base-le m ((a, bytes) ∷ segments) =
    ground (arith, min_base-le m segments, min_base-le a segments)

max_top-ge : (m : ℕ) (segments : List Segment) → m ≤ max_top m segments
unfolding max_top
max_top-ge m [] = omega arith
max_top-ge m ((a, bytes) ∷ segments) =
    ground (arith, max_top-ge m segments, max_top-ge (a + length bytes) segments)

-- The segment lies between two addresses.
abbrev Within : ℕ → ℕ → Segment → Type 0
Within base top (a, bytes) = (base ≤ a) × (a + length bytes ≤ top)

Within-All :
    (m t : ℕ) (segments : List Segment)
    → All (Within (min_base m segments) (max_top t segments)) segments
unfolding min_base max_top
Within-All m t [] = tt
Within-All m t ((a, bytes) ∷ segments) =
    let m' = if ltb a m then a else m in
    let t' = if ltb t (a + length bytes) then a + length bytes else t in
    let low : m' ≤ a = ground arith in
    let high : a + length bytes ≤ t' = ground arith in
    (
      (omega (arith, min_base-le m' segments), omega (arith, max_top-ge t' segments)),
      Within-All m' t' segments,
    )

mem_size_for-ge : (base top : ℕ) → top - base ≤ mem_size_for base top
unfolding mem_size_for
mem_size_for-ge base top = omega (arith, bit_and_mask 16 (top - base + 0xffff))

-- The memory after the segments are loaded.
abbrev pub filled : ℕ → List ℕ → List Segment → List ℕ
filled base mem [] = mem
filled base mem ((a, bytes) ∷ segments) = filled base (splice mem (a - base) bytes) segments

load_program-fits :
    (a : ℕ) (bytes : List ℕ) (c : Cpu)
    → Within c.mem_base (c.mem_base + length c.mem) (a, bytes)
    → load_program bytes (some a) c
      ≡ (ok tt, record c { mem = splice c.mem (a - c.mem_base) bytes })
unfolding load_program
load_program-fits a bytes c h = ground arith

load_segments-filled :
    (segments : List Segment) (c : Cpu)
    → All (Within c.mem_base (c.mem_base + length c.mem)) segments
    → load_segments segments c ≡ (ok tt, record c { mem = filled c.mem_base c.mem segments })
unfolding load_segments
load_segments-filled [] c h = refl
load_segments-filled ((a, bytes) ∷ segments) c (h, rest) =
    let c' = record c { mem = splice c.mem (a - c.mem_base) bytes } in
    let room = sym (length-splice c.mem (a - c.mem_base) bytes) in
    rw (load_program-fits a bytes c h) (
      load_segments-filled segments c'
        (subst (λ n. All (Within c.mem_base (c.mem_base + n)) segments) room rest))

Within-wider :
    (base top top' : ℕ) (segments : List Segment)
    → top ≤ top'
    → All (Within base top) segments
    → All (Within base top') segments
Within-wider base top top' [] h all = tt
Within-wider base top top' (s ∷ segments) h ((low, high), rest) =
    ((low, omega arith), Within-wider base top top' segments h rest)

-- Where `run_test` puts the memory, and its size
abbrev pub base_of : Segment → List Segment → ℕ
base_of (a, bytes) segments = min_base a segments

abbrev pub size_of : Segment → List Segment → ℕ
size_of (a, bytes) segments =
    mem_size_for (min_base a segments) (max_top (a + length bytes) segments)

abbrev zeros : Segment → List Segment → List ℕ
zeros s segments = replicate (size_of s segments) 0

segments-Within :
    (s : Segment) (segments : List Segment)
    → All
        (Within (base_of s segments) (base_of s segments + length (zeros s segments)))
        (s ∷ segments)
segments-Within (a, bytes) segments =
    let top = max_top (a + length bytes) segments in
    let base = min_base a segments in
    let size = length-replicate {A = ℕ} (mem_size_for base top) 0 in
    Within-wider base top (base + length (zeros (a, bytes) segments)) ((a, bytes) ∷ segments)
      (omega (arith, size, mem_size_for-ge base top))
      (
        (min_base-le a segments, max_top-ge (a + length bytes) segments),
        Within-All a (a + length bytes) segments,
      )

abbrev pub booted : Segment → List Segment → ℕ → Cpu
booted s segments tohost = record (init (size_of s segments) (base_of s segments) tohost true) {
  mem = filled (base_of s segments) (zeros s segments) (s ∷ segments);
}

pub boot-booted :
    (s : Segment) (segments : List Segment) (tohost : ℕ)
    → boot s segments tohost ≡ (ok tt, booted s segments tohost)
unfolding boot init
boot-booted (a, bytes) segments tohost =
    load_segments-filled ((a, bytes) ∷ segments)
      (init (size_of (a, bytes) segments) (base_of (a, bytes) segments) tohost true)
      (segments-Within (a, bytes) segments)

-- The bytes of a binary are bytes.
abbrev pub IsBytes : Segment → Type 0
IsBytes (a, bytes) = All IsByte bytes

filled-IsByte :
    (base : ℕ) (mem : List ℕ) (segments : List Segment)
    → All IsByte mem
    → All IsBytes segments
    → All IsByte (filled base mem segments)
filled-IsByte base mem [] h p = h
filled-IsByte base mem ((a, bytes) ∷ segments) h (p, ps) =
    filled-IsByte base (splice mem (a - base) bytes) segments
      (All-splice IsByte mem (a - base) bytes h p) ps

booted-IsValid :
    (s : Segment) (segments : List Segment) (tohost : ℕ)
    → All IsBytes (s ∷ segments)
    → IsWord s.0
    → IsValid (booted s segments tohost)
unfolding init
booted-IsValid s segments tohost bytes word = record {
  regs_length = refl;
  regs_words = All-replicate IsWord 32 0 (omega arith);
  x0_zero = refl;
  pc_word = omega (arith, min_base-le s.0 segments);
  mem_bytes =
      filled-IsByte (base_of s segments) (zeros s segments) (s ∷ segments)
        (All-replicate IsByte (size_of s segments) 0 (omega arith)) bytes;
  csrs_words = (omega arith, tt);
  halt_known = refl;
}

-- The address is the start of a segment.
abbrev pub StartsAt : ℕ → List Segment → Type 0
StartsAt a [] = ⊥
StartsAt a (s ∷ segments) = (s.0 ≡ a) ⊎ StartsAt a segments

-- The address is the lowest start of the segments.
abbrev pub IsLowest : ℕ → List Segment → Type 0
IsLowest a segments = StartsAt a segments × All (λ (s : Segment). a ≤ s.0) segments

from_start :
    (a b : ℕ) (bytes : List ℕ) (segments : List Segment)
    → (b ≡ a) ⊎ StartsAt b segments
    → StartsAt b ((a, bytes) ∷ segments)
from_start a b bytes segments (inl h) = inl (sym h)
from_start a b bytes segments (inr h) = inr h

from_before :
    (m b : ℕ) (s : Segment) (segments : List Segment)
    → (b ≡ m) ⊎ StartsAt b segments
    → (b ≡ m) ⊎ StartsAt b (s ∷ segments)
from_before m b s segments (inl h) = inl h
from_before m b s segments (inr h) = inr (inr h)

min_base-StartsAt :
    (m : ℕ) (segments : List Segment)
    → (min_base m segments ≡ m) ⊎ StartsAt (min_base m segments) segments
unfolding min_base
min_base-StartsAt m [] = inl refl
min_base-StartsAt m ((a, bytes) ∷ segments) =
    if_cases
      (λ k. (min_base k segments ≡ m) ⊎ StartsAt (min_base k segments) ((a, bytes) ∷ segments))
      (ltb a m)
      (λ e. inr (from_start a (min_base a segments) bytes segments (min_base-StartsAt a segments)))
      (λ e. from_before m (min_base m segments) (a, bytes) segments (min_base-StartsAt m segments))

Within-low :
    (base top : ℕ) (segments : List Segment)
    → All (Within base top) segments
    → All (λ (s : Segment). base ≤ s.0) segments
Within-low base top [] h = tt
Within-low base top (s ∷ segments) ((low, high), rest) = (low, Within-low base top segments rest)

base_of-IsLowest :
    (s : Segment) (segments : List Segment) → IsLowest (base_of s segments) (s ∷ segments)
base_of-IsLowest (a, bytes) segments = (
  from_start a (min_base a segments) bytes segments (min_base-StartsAt a segments),
  (
    min_base-le a segments,
    Within-low (min_base a segments) (max_top (a + length bytes) segments) segments
        (Within-All a (a + length bytes) segments),
  ),
)

-- For all segments of bytes, the first of which starts below 2 ^ 32: `load_program` raises for none of
-- them, and the CPU that `run_test` starts is well formed and runs, with its PC and the base of its
-- memory at the lowest start of a segment.
pub boot-IsValid :
    (s : Segment) (segments : List Segment) (tohost : ℕ)
    → All IsBytes (s ∷ segments)
    → IsWord s.0
    → let c = (boot s segments tohost).1 in
      ((boot s segments tohost).0 ≡ ok tt)
      × IsValid c
      × IsLowest c.pc (s ∷ segments)
      × (c.mem_base ≡ c.pc)
      × (c.halted ≡ false)
unfolding init
boot-IsValid s segments tohost bytes word =
    subst
      (λ r.
        (r.0 ≡ ok tt)
        × IsValid r.1
        × IsLowest r.1.pc (s ∷ segments)
        × (r.1.mem_base ≡ r.1.pc)
        × (r.1.halted ≡ false))
      (sym (boot-booted s segments tohost))
      (refl, booted-IsValid s segments tohost bytes word, base_of-IsLowest s segments, refl, refl)

-- The emulator at its start has counted no step and recorded nothing.
pub boot-IsUntold :
    (s : Segment) (segments : List Segment) (tohost : ℕ)
    → let c = (boot s segments tohost).1 in IsUntold c × (c.tohost_addr ≡ tohost) × (c.steps ≡ 0)
unfolding init
boot-IsUntold s segments tohost = rw (boot-booted s segments tohost) ((refl, refl), refl, refl)

-- Two segments share no address.
abbrev pub Apart : Segment → Segment → Type 0
Apart (a, bytes) (b, others) = (a + length bytes ≤ b) ⊎ (b + length others ≤ a)

abbrev pub AllApart : List Segment → Type 0
AllApart [] = Unit
AllApart (s ∷ segments) = All (Apart s) segments × AllApart segments

-- The memory, which starts at `base`, has the segment's bytes.
abbrev pub Has : ℕ → List ℕ → Segment → Type 0
Has base mem (a, bytes) = reads (λ i. get_or mem i 0) (length bytes) (a - base) ≡ bytes

filled_outside :
    (base top : ℕ) (mem : List ℕ) (s : Segment) (segments : List Segment) (k : ℕ)
    → base ≤ s.0
    → k < length s.1
    → All (Within base top) segments
    → All (Apart s) segments
    → get_or (filled base mem segments) (s.0 - base + k) 0 ≡ get_or mem (s.0 - base + k) 0
filled_outside base top mem s [] k low h within apart = refl
filled_outside base top mem s ((b, others) ∷ segments) k low h (w, ws) (p, ps) =
    filled_outside base top (splice mem (b - base) others) s segments k low h ws ps
    ∙ get_or-splice_outside mem (b - base) others (s.0 - base + k) (omega arith)

filled-Has :
    (base : ℕ) (mem : List ℕ) (segments : List Segment)
    → All (Within base (base + length mem)) segments
    → AllApart segments
    → All (Has base (filled base mem segments)) segments
filled-Has base mem [] within apart = tt
filled-Has base mem ((a, bytes) ∷ segments) ((low, high), ws) (p, ps) =
    let mem' = splice mem (a - base) bytes in
    let size = length-splice mem (a - base) bytes in
    let ws' = subst (λ n. All (Within base (base + n)) segments) (sym size) ws in
    let held : (k : ℕ)
        → k < length bytes
        → get_or (filled base mem' segments) (a - base + k) 0 ≡ get_or bytes k 0 =
      λ k h.
        filled_outside base (base + length mem) mem' (a, bytes) segments k low h ws p
        ∙ get_or-splice_inside mem (a - base) bytes k (omega arith) h in
    (
      reads-get_or (λ i. get_or (filled base mem' segments) i 0) bytes (a - base) 0 held,
      filled-Has base mem' segments ws' ps,
    )

-- If no two segments share an address, the CPU that `run_test` starts has all their bytes at their
-- addresses.
pub boot-Has :
    (s : Segment) (segments : List Segment) (tohost : ℕ)
    → AllApart (s ∷ segments)
    → let c = (boot s segments tohost).1 in All (Has c.mem_base c.mem) (s ∷ segments)
unfolding init
boot-Has s segments tohost apart =
    let held =
      filled-Has (base_of s segments) (zeros s segments) (s ∷ segments) (segments-Within s segments)
        apart in
    subst (λ r. All (Has r.1.mem_base r.1.mem) (s ∷ segments)) (sym (boot-booted s segments tohost))
      held
