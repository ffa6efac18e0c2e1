-- ===== src/Lib.antt =====
-- Valida: the zkVM's basic machine, its words, its memory and program chips, and its instructions.
--
-- The machine (basic/src/lib.rs) fetches an instruction of the program ROM, runs it on the CPU's
-- registers and the memory, and counts it; `stop` ends the loop. Each instruction is a type with an
-- `execute` method, in the crate of the chip that will prove it. Beside the memory's cells the chips
-- keep the records that the proof's traces are made of: the CPU its registers, operations and
-- instructions of each cycle, the memory its reads and writes by cycle, each arithmetic chip its
-- operations, the range checker and the program chip their counters.
--
-- Files and code:
--   Prelude: numbers, lists, panics as outcomes, `i32` and `i64`, and `BTreeMap` as a sorted list.
--   Word: machine/src/core.rs, `Word<u8>` and its operators (Word/Ops, Word/Ordering); the other
--     modules below Word have the laws of its bytes, arithmetic, signs, order and bits.
--   Opcode: opcodes/src/lib.rs, the instruction codes.
--   Program: machine/src/program.rs and program/src/lib.rs, the ROM, its decoding (`read_chunks`) and
--     the program chip's counters; Program/Decode has the bytes of assembler/src/lib.rs.
--   Memory: memory/src/lib.rs, `read`, `read_or_init`, `write` and `write_static`; Memory/Log replays
--     the log.
--   Chips: the CPU chip (cpu/src/lib.rs), the records of alu_u32/src/*/mod.rs, range/src/lib.rs,
--     output/src/lib.rs, static_data/src/lib.rs and machine/src/advice.rs.
--   Machine: the machine's state and the monad of the instructions. Machine/Exec has the `execute`
--     methods: Core those of cpu/src/lib.rs, Alu and Compare those of alu_u32, Write that of output.
--     Machine/Step is `step`, Machine/Run is `run`. Machine/Hoare has rules for what an action leaves,
--     Machine/Invariant what holds between two steps, over the loop and over the run.
--   Isa: the specification. An instruction changes `pc`, `fp`, a partial map from addresses to numbers
--     and the output, or faults; it knows no bytes, chips, logs or clock.
--   Refine: the proof that the code refines Isa, by one rule for each action.
--   Assembler: assembler/src/lib.rs, the two passes over the parsed lines. Assembler/Tables has the
--     matches on the mnemonic as lists of arms.
--   Elf: elf/src/lib.rs, the loader; Elf/Image and Elf/Words have its loops over text and data.
--   Air: the field that the traces are over, as a parameter, with the integers as an instance of the
--     laws that are used; Air/Add, Air/Sub and Air/Com have the columns, rows and constraints of
--     alu_u32/src/add, sub and com (columns.rs, mod.rs, stark.rs), Air/Equality the test of two words
--     that com and the CPU share, Air/Inverse the batch inversion of util/src/lib.rs.
--   Air/Cpu: cpu/src/columns.rs; Air/Cpu/Trace has `op_to_row`, `generate_trace` and the padding of
--     cpu/src/lib.rs, Air/Cpu/Eval the constraints of cpu/src/stark.rs, each with the rows it is on.
--   Air/NativeField, Air/Output: the columns, rows and constraints of native_field/src and output/src
--     (columns.rs, lib.rs, stark.rs).
--   Air/Memory: memory/src/columns.rs, and `generate_trace` of memory/src/lib.rs with its rows.
--   Examples, Air/Integers/Rows, Traces and Fields, Air/Memory/Examples, Assembler/Examples and
--     Elf/Examples: test data, tests and examples.
--
-- Conventions: a panic is a value of `Outcome`, and its message is reduced to its kind. Arithmetic is
-- that of a release build, in which `u32` and `i32` wrap and a shift takes its amount mod 32; a
-- division by 0, and that of the least `i32` by -1, panic. An `i32` operand stands as its bit pattern
-- below 2 ^ 32. A chip with one field stands as that field. The instructions' `execute` methods that
-- differ in the operator and in the chip alone share a body with these as arguments (`binary_op`,
-- `order_op`, `branch`, `load_byte`).
--
-- Fuel: the loops over chunks of 24 bytes take as many turns as there are bytes, which is enough, since
-- no chunk is empty. The machine's loop need not end; with too little fuel it gives `none`, and the
-- relation `Steps` says what it computes without fuel.
--
-- The tape of advice is a parameter with one method, with the fixed provider as an instance. `BTreeMap`,
-- `Vec` and the derived `TryFromPrimitive` are modelled by what the code uses of them.
--
-- A trace is a list of rows, each a record of its columns. A constraint is an expression that is
-- asserted to be zero, times the condition of its `when`. The batch inversion of the elements that are
-- not zero is the proof system's, as a parameter. `sort_by_key` is a stable insertion. The assembler's
-- parser is generated from a grammar; its pairs, with the texts of labels and operands as lists of
-- character codes, are the assembler's input. The ELF reader is an external crate; what it gives of the
-- sections is a parameter of the loader.
--
-- Not modelled: the rows and constraints of the other arithmetic chips, the traces of the range, static
-- data and program chips, the bus interactions, the prover and the verifier, the layout of the
-- columns in memory, the derive macros and the command-line binaries.
mod Prelude
pub mod Word
pub mod Opcode
pub mod Program
pub mod Memory
pub mod Chips
pub mod Machine
pub mod Isa
pub mod Refine
pub mod Air
pub mod Elf
pub mod Assembler
pub mod Examples
