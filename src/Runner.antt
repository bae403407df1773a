-- ===== src/Runner.antt =====
-- tools/refmodel/riscv_tests_runner.py: `load_elf` and `run_test`. What pyelftools reads from a binary
-- is a value of `Elf`.
pub mod Splice
pub mod Boot
pub mod Verdict
pub mod Suite
use risc_forge.Base.{
  ℕ, ◌+◌, ◌-◌, ◌/◌, Bool, true, false, ◌&&◌, List, [], ◌∷◌, Option, none, some, bit_and, ltb,
  length, if◌then◌else◌,
}
use risc_forge.Base.Text.{Text, ◌is◌}
use risc_forge.Emu.State.{
  Cpu, Result, ok, raise, Exn, TrapKind, trap, HaltReason, tohost_pass, tohost_fail, init, M, ◌>>=◌,
}
use risc_forge.Emu.Memory.{load_program}
use risc_forge.Emu.Run.{RunReason, stopped, run}

pub record Symbol : Type 0 where
  pub name : Text
  pub st_value : ℕ

-- The symbols are those of `iter_symbols`, which is called on a symbol table only.
pub record ElfSection : Type 0 where
  pub name : Text
  pub symbols : List Symbol

pub record ElfSegment : Type 0 where
  pub p_type : Text
  pub p_filesz : ℕ
  pub p_paddr : ℕ
  pub content : List ℕ

pub record Elf : Type 0 where
  pub sections : List ElfSection
  pub program_headers : List ElfSegment

-- An address and the bytes from there on
abbrev pub Segment : Type 0
Segment = ℕ × List ℕ

-- The first `tohost` of a symbol table, or what was found before
unfoldable pub first_tohost : List Symbol → Option ℕ → Option ℕ
first_tohost [] found = found
first_tohost (sym ∷ symbols) found =
    let rest = first_tohost symbols found in
    if sym.name is "tohost" then some sym.st_value else rest

unfoldable pub find_tohost : List ElfSection → Option ℕ → Option ℕ
unfolding first_tohost
find_tohost [] found = found
find_tohost (sec ∷ sections) found =
    find_tohost sections (if sec.name is ".symtab" then first_tohost sec.symbols found else found)

unfoldable pub loadable : List ElfSegment → List Segment
loadable [] = []
loadable (seg ∷ segments) =
    let rest = loadable segments in
    if seg.p_type is "PT_LOAD" && ltb 0 seg.p_filesz
    then (seg.p_paddr, seg.content) ∷ rest
    else rest

unfoldable pub load_elf : Elf → List Segment × Option ℕ
unfolding find_tohost loadable
load_elf elf = (loadable elf.program_headers, find_tohost elf.sections none)

-- The reason that is reported
pub data Reason : Type 0 where
  no_tohost no_segments : Reason
  trapped : TrapKind → ℕ → Reason
  passed : ℕ → Reason
  failed_subtest : ℕ → ℕ → Reason
  other_halt : RunReason → ℕ → ℕ → Reason

-- `min(s[0] for s in segments)`, from a first address on
unfoldable pub min_base : ℕ → List Segment → ℕ
min_base m [] = m
min_base m ((a, _) ∷ segments) = min_base (if ltb a m then a else m) segments

-- `max(s[0] + len(s[1]) for s in segments)`, from a first end on
unfoldable pub max_top : ℕ → List Segment → ℕ
max_top m [] = m
max_top m ((a, bytes) ∷ segments) =
    max_top (if ltb m (a + length bytes) then a + length bytes else m) segments

-- `((top - base + 0xFFFF) & ~0xFFFF) + 0x10000`
unfoldable pub mem_size_for : ℕ → ℕ → ℕ
mem_size_for base top = let x = top - base + 0xffff in x - bit_and x 0xffff + 0x10000

unfoldable pub load_segments : List Segment → M (Unit {0})
load_segments [] c = (ok tt, c)
load_segments ((a, bytes) ∷ segments) c =
    ◌>>=◌ (load_program bytes (some a)) (λ _. load_segments segments) c

-- The CPU with the segments of a binary, of which there is one at least
unfoldable pub boot : Segment → List Segment → ℕ → Result (Unit {0}) × Cpu
unfolding min_base max_top mem_size_for load_segments
boot (a, bytes) segments tohost =
    let base = min_base a segments in
    let top = max_top (a + length bytes) segments in
    load_segments ((a, bytes) ∷ segments) (init (mem_size_for base top) base tohost true)

abbrev pub max_steps : ℕ
max_steps = 1000000

abbrev pub or_zero : Option ℕ → ℕ
or_zero none = 0
or_zero (some v) = v

-- What the reason of a run tells of the test
unfoldable pub judge : RunReason → Cpu → Bool × Reason
judge (stopped tohost_pass) c = (true, passed c.steps)
judge (stopped tohost_fail) c = let v = or_zero c.tohost_value in (false, failed_subtest v (v / 2))
judge reason c = (false, other_halt reason c.pc c.steps)

-- An exception that is no `Trap` is not caught.
unfoldable pub outcome : Option (Result RunReason × Cpu) → Option (Result (Bool × Reason))
unfolding judge
outcome none = none
outcome (some (ok reason, c)) = some (ok (judge reason c))
outcome (some (raise (trap kind pc), c)) = some (ok (false, trapped kind pc))
outcome (some (raise e, c)) = some (raise e)

abbrev pub after_boot : Result (Unit {0}) × Cpu → Option (Result (Bool × Reason))
after_boot (ok _, c) = outcome (run max_steps c)
after_boot (raise e, c) = some (raise e)

abbrev pub run_segments : List Segment → Option ℕ → Option (Result (Bool × Reason))
run_segments segments none = some (ok (false, no_tohost))
run_segments [] (some tohost) = some (ok (false, no_segments))
run_segments (s ∷ segments) (some tohost) = after_boot (boot s segments tohost)

-- `run_test`, with what `load_elf` reads; `none` if the emulator's fuel ran out.
unfoldable pub run_test : Elf → Option (Result (Bool × Reason))
unfolding load_elf boot outcome
run_test elf = run_segments (load_elf elf).0 (load_elf elf).1
