-- ===== src/Lib.antt =====
-- RiscForge's Python tools: the RV32I reference emulator, the assembler, the runner of the riscv-tests
-- and the check of the encodings, which share one table of encodings.
--
-- Parts and files.
-- * tools/refmodel/encoding.py is Encoding: each IntEnum is a data type with the numbers of its
--   members, and `int` compares a member as its number.
-- * tools/refmodel/rv32i_emu.py is Emu. Emu/Word has `u32`, `s32` and `sext`; Emu/Imm the immediate
--   decoders; Emu/State the object (`Cpu`, `init`) and its exceptions; Emu/Memory `_mem_index`,
--   `load_program`, `fetch`, `load`, `store`; Emu/Registers `r` and `wr`; Emu/Alu `_alu_imm` and
--   `_alu_reg`; Emu/System the SYSTEM opcode and `_take_trap`; Emu/Step `step`, one function for each
--   branch of its dispatch; Emu/Run `run`. Emu/Invariant has the well-formed states and what a step
--   and a run do to them, with what a step records of `tohost` in Emu/Invariant/Tohost, sequences of
--   steps in Emu/Invariant/Path and the end of a run as one in Emu/Invariant/Ending; Emu/Memory/Laws
--   has the laws of loads and stores.
-- * tools/assembler/assemble.py is Asm. Asm/Operand has `parse_reg` and `parse_int`; Asm/Fit the
--   range checks; Asm/Pack the field packers; Asm/Line the parsed line; Asm/Tables the mnemonic
--   tables; Asm/Encode `_resolve`, `_expect_args` and `encode_line`, with the instructions in
--   Asm/Encode/Real and the pseudo-instructions in Asm/Encode/Pseudo; Asm/Layout what pass 1
--   reserves for an instruction, Asm/Layout/Pass `pass1` and Asm/Layout/SizePass the pass of
--   `assemble` that sums the sizes, both on the counters of Asm/Layout/Sections; Asm/Image
--   `_emit_word` and the image writer of `assemble`, with the bytes of a line in Asm/Image/Bytes and
--   Extent, what later lines leave alone in Asm/Image/Emission, the packed words in Asm/Image/Packed
--   and the whole in Asm/Image/Program; Asm/Token `tokenize`, `_split_args` and `assemble` from the
--   text on; Asm/Hex `to_hex_lines` and `_cli` from its parsed arguments on, with the file read back
--   in Asm/Hex/Laws and how the command ends in Asm/Hex/Command. Asm/Layout/Places and
--   Asm/Layout/Chain have the parts of the sections that the lines take.
-- * tools/refmodel/riscv_tests_runner.py is Runner: `load_elf` and `run_test`, with what a slice
--   assignment puts into the memory in Runner/Splice, the loaded memory in Runner/Boot and what the
--   verdict says of the run in Runner/Verdict. Runner/Suite is its `main`: Runner/Suite/Tallies counts
--   the results and Runner/Suite/Status relates them to the exit status. It uses the emulator as the
--   code does: `boot` makes a CPU and loads it, `run` runs it.
-- * scripts/encoding_check.py is EncodingCheck: EncodingCheck/Literal has `parse_sv_int_literal`,
--   EncodingCheck/Package `parse_sv_enum` and `parse_sv_localparam`, EncodingCheck/Compare the tables
--   and `main`. EncodingCheck/Dicts, Unique and Prefixes have the laws of its dicts, and
--   EncodingCheck/Agree what its status says. The classes it compares are those of Encoding, as
--   Encoding/Members lists them.
-- * Toolchain relates the emulator and the assembler: what the assembler packs the emulator decodes,
--   and the words of an assembled instruction are executed as meant.
-- * Base has the shared notation and the laws of bit fields and of Python's unbounded integers;
--   Tests the runs on small programs and the theorems at concrete inputs.
--
-- How the code is read. A Python int that can be negative is an integer (Base/Int) with Python's bit
-- operations on an infinite two's complement; one that cannot is a natural number. A method that can
-- raise returns its result or its exception beside the object as it then stands, so that what an
-- exception leaves behind can be stated. `regs` and `mem` are lists: the register index is a field of
-- five bits and `regs` has 32 entries in every well-formed state, and memory is read and written only
-- behind `_mem_index`, so that Python's IndexError does not arise. `struct` reads and writes
-- little-endian numbers. The texts of messages are left out; an AsmError keeps its line number. A
-- source text is taken to be ASCII, addresses and bases are natural numbers, and Python's limit on
-- the length of an integer literal is left out. What pyelftools reads from a binary is a value of
-- `Elf`, and the directory of tests a list of entries. The regular expressions are written out as
-- scans. A dict is an association list in the order of insertion, and two dicts are equal when each
-- has the entries of the other.
--
-- Fuel. The loop of `run` takes one unit of fuel for each step. `run` gives it one more than
-- `max_steps - steps`, which is enough since each step that returns raises `steps` by one and the
-- loop stops at `max_steps`.
--
-- Not modelled: the parsing of the assembler's arguments by argparse; the reading and writing of files
-- and the printing of all four tools; tools/benchmarks/programs.py, which is data; the tests, the
-- cocotb testbenches and the RTL.
pub mod Base
pub mod Encoding
pub mod EncodingCheck
pub mod Emu
pub mod Asm
pub mod Runner
pub mod Toolchain
mod Tests
