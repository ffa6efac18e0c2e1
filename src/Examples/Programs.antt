-- ===== src/Examples/Programs.antt =====
-- Examples of the program's bytes and of the opcodes.
use valida.Prelude.{[], ◌∷◌, ◌++◌, ◌≡◌, arith}
use valida.Program.{ProgramRom, from_machine_code}
use valida.Program.Decode.{write_program, from_machine_code-write_program}
use valida.Examples.{operands, instruction}
use valida.Examples.Runs.{small}

abbrev stop_program : ProgramRom
stop_program = instruction 8 (operands 0 0 0 0 0) ∷ []

from_machine_code-write_program_example :
    from_machine_code (write_program stop_program ++ 1 ∷ 2 ∷ []) ≡ stop_program
from_machine_code-write_program_example =
    from_machine_code-write_program stop_program (1 ∷ 2 ∷ [])
      (
        record {
          fits_opcode = omega arith;
          fits_operands =
              small 0 0 0 0 0 (omega arith) (omega arith) (omega arith) (omega arith) (omega arith);
        },
        tt,
      )
      (omega arith)
