-- ===== src/Tests/Runner.antt =====
-- Runs of tools/refmodel/riscv_tests_runner.py, and the theorems on it at concrete inputs.
use risc_forge.Base.{◌+◌, ◌≡◌, ◌≢◌, ◌↔◌, refl, arith, List, [], ◌∷◌, some, true, false, length, All}
use risc_forge.Base.Text.{Text, codes}
use risc_forge.Emu.State.{ok}
use risc_forge.Emu.Invariant.{IsValid}
use risc_forge.Emu.Step.{step, decode, execute}
use risc_forge.Emu.Memory.{fetch, read_le, load_program}
use risc_forge.Runner.{Elf, Segment, load_elf, boot, run_test, passed, failed_subtest}
use risc_forge.Runner.Boot.{IsLowest, boot-IsValid, Has, boot-Has}
use risc_forge.Runner.Verdict.{
  IsLoadable, IsVerdict, PassesAfter, run_test-IsVerdict, run_test-passes,
}
use risc_forge.Runner.Suite.{Entry, Runs, Report, main_with, select}
use risc_forge.Runner.Suite.Tallies.{Succeeds}
use risc_forge.Runner.Suite.Status.{IsSelected, main_with-status}

-- `sw x0, 0(x0)` above four bytes of data, and a symbol table
abbrev sample : Elf
sample = record {
  sections =
      record { name = codes ".text"; symbols = [] }
      ∷ record {
        name = codes ".symtab";
        symbols =
            record { name = codes "_start"; st_value = 0x1000 }
            ∷ record { name = codes "tohost"; st_value = 0x2000 }
            ∷ record { name = codes "tohost"; st_value = 0x3000 }
            ∷ [];
      }
      ∷ [];
  program_headers =
      record {
        p_type = codes "PT_LOAD";
        p_filesz = 4;
        p_paddr = 0x1004;
        content = 1 ∷ 2 ∷ 3 ∷ 4 ∷ [];
      }
      ∷ record { p_type = codes "PT_NOTE"; p_filesz = 1; p_paddr = 0; content = 9 ∷ [] }
      ∷ record {
        p_type = codes "PT_LOAD";
        p_filesz = 4;
        p_paddr = 0x1000;
        content = 0x23 ∷ 0x20 ∷ 0 ∷ 0 ∷ [];
      }
      ∷ [];
}

abbrev data_segment : Segment
data_segment = (0x1004, 1 ∷ 2 ∷ 3 ∷ 4 ∷ [])

abbrev code_segment : Segment
code_segment = (0x1000, 0x23 ∷ 0x20 ∷ 0 ∷ 0 ∷ [])

sample_loaded : load_elf sample ≡ (data_segment ∷ code_segment ∷ [], some 0x2000)
unfolding load_elf
sample_loaded = refl

sample-IsLoadable : All IsLoadable (load_elf sample).0
unfolding load_elf
sample-IsLoadable = omega arith

boot-IsValid_example :
    let c = (boot data_segment (code_segment ∷ []) 0x2000).1 in
    ((boot data_segment (code_segment ∷ []) 0x2000).0 ≡ ok tt)
    × IsValid c
    × IsLowest c.pc (data_segment ∷ code_segment ∷ [])
    × (c.mem_base ≡ c.pc)
    × (c.halted ≡ false)
boot-IsValid_example =
    boot-IsValid data_segment (code_segment ∷ []) 0x2000 (omega arith) (omega arith)

boot-Has_example :
    let c = (boot data_segment (code_segment ∷ []) 0x2000).1 in
    All (Has c.mem_base c.mem) (data_segment ∷ code_segment ∷ [])
boot-Has_example = boot-Has data_segment (code_segment ∷ []) 0x2000 (omega arith)

run_test-IsVerdict_example : IsVerdict (load_elf sample).0 (load_elf sample).1 (run_test sample)
run_test-IsVerdict_example = run_test-IsVerdict sample sample-IsLoadable

-- `addi x5, x0, 1` and `sw x5, 0x700(x0)`, where 0x700 is `tohost`
abbrev passing : Elf
passing = record {
  sections =
      record {
        name = codes ".symtab";
        symbols = record { name = codes "tohost"; st_value = 0x700 } ∷ [];
      }
      ∷ [];
  program_headers =
      record {
        p_type = codes "PT_LOAD";
        p_filesz = 8;
        p_paddr = 0x1000;
        content = 0x93 ∷ 0x02 ∷ 0x10 ∷ 0x00 ∷ 0x23 ∷ 0x20 ∷ 0x50 ∷ 0x70 ∷ [];
      }
      ∷ [];
}

passing-IsLoadable : All IsLoadable (load_elf passing).0
unfolding load_elf
passing-IsLoadable = omega arith

passing_passes : run_test passing ≡ some (ok (true, passed 2))
unfolding run_test step fetch read_le execute decode load_program risc_forge.Emu.State.init
    risc_forge.Emu.Run.run risc_forge.Emu.Memory.splice risc_forge.Emu.Alu.alu_imm
    risc_forge.Emu.Registers.wr risc_forge.Emu.Registers.r risc_forge.Emu.Word.u32
    risc_forge.Emu.Word.sext risc_forge.Base.Int.and_mask risc_forge.Base.Int.◌+ℤ◌
    risc_forge.Base.Int.◌-ℤ◌ risc_forge.Emu.Imm.imm_i risc_forge.Emu.Imm.imm_s
    risc_forge.Emu.Memory.store risc_forge.Emu.Memory.store_tohost risc_forge.Emu.Run.reason_of
    risc_forge.Emu.Run.run_loop risc_forge.Emu.Step.exec_imm risc_forge.Emu.Step.exec_store
    risc_forge.Emu.Step.retire risc_forge.Emu.Step.store_size risc_forge.Emu.Step.writes_rd boot
    load_elf risc_forge.Runner.judge risc_forge.Runner.outcome risc_forge.Emu.Memory.mem_index
    risc_forge.Runner.load_segments risc_forge.Runner.mem_size_for risc_forge.Runner.min_base
    risc_forge.Runner.max_top
passing_passes = refl

run_test-passes_example :
    (run_test passing ≡ some (ok (true, passed 2)))
    ↔ PassesAfter 2 (load_elf passing).0 (load_elf passing).1
run_test-passes_example = run_test-passes passing 2 passing-IsLoadable

abbrev entry : Text → Entry
entry name = record { name = name; is_file = true; elf = sample }

abbrev entries : List Entry
entries =
    entry (codes "rv32ui-p-ma_data")
    ∷ entry (codes "rv32ui-p-lui")
    ∷ entry (codes "rv32ui-p-add")
    ∷ entry (codes "rv32ui-p-add.dump")
    ∷ entry (codes ".add")
    ∷ []

abbrev always_fails : Runs
always_fails elf = some (ok (false, failed_subtest 5 2))

abbrev filters : List Text
filters = codes "add" ∷ codes "ma_" ∷ []

abbrev one_failure : Report
one_failure = record {
  status = 1;
  tally = record {
    passes = 0;
    fails = (codes "rv32ui-p-add", failed_subtest 5 2) ∷ [];
    skips = codes "rv32ui-p-ma_data" ∷ [];
  };
  counted = 1;
}

suite_run : main_with always_fails filters entries ≡ some (ok one_failure)
unfolding main_with
suite_run = refl

main_with-status_example :
    ((one_failure.status ≡ 0) ↔ (
      (select filters entries ≢ [])
      × All (λ e. IsSelected filters e → Succeeds always_fails e) entries))
    × (one_failure.tally.passes + length one_failure.tally.fails + length one_failure.tally.skips
        ≡ length (select filters entries))
    × (one_failure.counted ≡ one_failure.tally.passes + length one_failure.tally.fails)
main_with-status_example = main_with-status always_fails filters entries one_failure suite_run
