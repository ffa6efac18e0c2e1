-- ===== src/Machine/Hoare/Trace.antt =====
-- What an instruction does to the traces: it logs its memory operations at its clock cycle, and
-- ends with one entry of the CPU.
pub mod Actions
pub mod Execute
pub mod Opcodes
use valida.Prelude.{ℕ, ◌+◌, ◌%◌, ◌^◌, ◌≡◌, List, [], ◌∷◌, ◌++◌, ◌==◌, if◌then◌else◌}
use valida.Program.{Operands, InstructionWord, ProgramChip}
use valida.Opcode.{Opcode}
use valida.Memory.Log.{IsLogged}
use valida.Memory.Entries.{Extends, Access, reading, writing}
use valida.Chips.Cpu.{CpuChip, Operation, Registers}
use valida.Chips.StaticData.{StaticDataChip}
use valida.Machine.{BasicMachine}

-- What each instruction asks of the memory: the second source, and the first of a comparison by
-- order, may be immediate.
abbrev pub source : ℕ → List Access
source imm = if imm == 1 then [] else reading ∷ []

abbrev pub binary : Operands → List Access
binary ops = reading ∷ (source ops.e ++ writing ∷ [])

abbrev pub order : Operands → List Access
order ops = (source ops.d ++ source ops.e) ++ writing ∷ []

abbrev pub accesses_by : Opcode → Operands → List Access
accesses_by Opcode.load32 ops = reading ∷ reading ∷ writing ∷ []
accesses_by Opcode.loadu8 ops = reading ∷ reading ∷ writing ∷ []
accesses_by Opcode.loads8 ops = reading ∷ reading ∷ writing ∷ []
accesses_by Opcode.store32 ops = reading ∷ reading ∷ writing ∷ []
accesses_by Opcode.storeu8 ops = reading ∷ reading ∷ reading ∷ writing ∷ []
accesses_by Opcode.jal ops = writing ∷ []
accesses_by Opcode.jalv ops = writing ∷ reading ∷ reading ∷ []
accesses_by Opcode.beq ops = reading ∷ source ops.e
accesses_by Opcode.bne ops = reading ∷ source ops.e
accesses_by Opcode.imm32 ops = writing ∷ []
accesses_by Opcode.loadfp ops = writing ∷ []
accesses_by Opcode.read_advice ops = writing ∷ []
accesses_by Opcode.write ops = reading ∷ []
accesses_by Opcode.lt32 ops = order ops
accesses_by Opcode.lte32 ops = order ops
accesses_by Opcode.add32 ops = binary ops
accesses_by Opcode.sub32 ops = binary ops
accesses_by Opcode.mul32 ops = binary ops
accesses_by Opcode.mulhs32 ops = binary ops
accesses_by Opcode.mulhu32 ops = binary ops
accesses_by Opcode.div32 ops = binary ops
accesses_by Opcode.sdiv32 ops = binary ops
accesses_by Opcode.shl32 ops = binary ops
accesses_by Opcode.shr32 ops = binary ops
accesses_by Opcode.sra32 ops = binary ops
accesses_by Opcode.and32 ops = binary ops
accesses_by Opcode.or32 ops = binary ops
accesses_by Opcode.xor32 ops = binary ops
accesses_by Opcode.ne32 ops = binary ops
accesses_by Opcode.eq32 ops = binary ops
accesses_by Opcode.stop ops = []
accesses_by Opcode.add ops = []
accesses_by Opcode.sub ops = []
accesses_by Opcode.mul ops = []

-- In an instruction that began in the machine `start`.
pub record Running (start : BasicMachine) (accesses : List Access) (s : BasicMachine) : Type 0 where
  pub clock : s.cpu.clock ≡ start.cpu.clock
  pub registers : s.cpu.registers ≡ start.cpu.registers
  pub operations : s.cpu.operations ≡ start.cpu.operations
  pub instructions : s.cpu.instructions ≡ start.cpu.instructions
  pub same_program : s.program ≡ start.program
  pub logged : IsLogged start.cpu.clock s.mem
  pub extends : Extends start.cpu.clock accesses start.mem.operations s.mem.operations

-- After the instruction `word`: one more entry in each trace, with the new registers.
pub record Finished (start : BasicMachine) (accesses : List Access) (word : InstructionWord)
    (s : BasicMachine) : Type 0 where
  pub clock : s.cpu.clock ≡ (start.cpu.clock + 1) % 2 ^ 32
  pub registers :
      s.cpu.registers ≡ start.cpu.registers ++ record { pc = s.cpu.pc; fp = s.cpu.fp } ∷ []
  pub operation : Operation
  pub operations : s.cpu.operations ≡ start.cpu.operations ++ operation ∷ []
  pub instructions : s.cpu.instructions ≡ start.cpu.instructions ++ word ∷ []
  pub same_program : s.program ≡ start.program
  pub logged : IsLogged start.cpu.clock s.mem
  pub extends : Extends start.cpu.clock accesses start.mem.operations s.mem.operations
