-- ===== src/Examples.antt =====
-- Test data: a small program that adds 5 and 7, prints the sum and stops, and the machine that
-- it is loaded into.
pub mod Words
pub mod Logs
pub mod Runs
pub mod Steps
pub mod Programs
use valida.Prelude.{ℕ, [], ◌∷◌, ◌^◌, ◌<◌, arith}
use valida.Word.{Word}
use valida.Opcode.{Opcode, code}
use valida.Program.{Operands, InstructionWord, ProgramRom, ProgramChip}
use valida.Memory as Memory
use valida.Chips.Cpu as Cpu
use valida.Machine.{BasicMachine}

abbrev pub operands : ℕ → ℕ → ℕ → ℕ → ℕ → Operands
operands a b c d e = record { a = a; b = b; c = c; d = d; e = e }

abbrev pub instruction : ℕ → Operands → InstructionWord
instruction opcode ops = record { opcode = opcode; operands = ops }

-- `imm32 4(fp), 0, 0, 0, 5` and so on.
abbrev pub sum_program : ProgramRom
sum_program =
    instruction 7 (operands 4 0 0 0 5)
    ∷ instruction 7 (operands 8 0 0 0 7)
    ∷ instruction 100 (operands 12 4 8 0 0)
    ∷ instruction 300 (operands 0 12 0 0 1)
    ∷ instruction 8 (operands 0 0 0 0 0)
    ∷ []

abbrev pub sum_chip : ProgramChip
sum_chip = record { program_rom = sum_program; counts = 0 ∷ 0 ∷ 0 ∷ 0 ∷ 0 ∷ [] }

abbrev pub sum_machine : BasicMachine
sum_machine = record {
  cpu = record (Cpu.empty) { fp = 16; registers = record { pc = 0; fp = 16 } ∷ [] };
  program = sum_chip;
  mem = Memory.empty;
  add_u32 = [];
  sub_u32 = [];
  mul_u32 = [];
  div_u32 = [];
  shift_u32 = [];
  lt_u32 = [];
  com_u32 = [];
  bitwise_u32 = [];
  output = [];
  range = [];
  static_data = [];
}

abbrev pub five : Word ℕ
five = record { byte_0 = 0; byte_1 = 0; byte_2 = 0; byte_3 = 5 }

abbrev pub seven : Word ℕ
seven = record { byte_0 = 0; byte_1 = 0; byte_2 = 0; byte_3 = 7 }

abbrev pub twelve : Word ℕ
twelve = record { byte_0 = 0; byte_1 = 0; byte_2 = 0; byte_3 = 12 }
