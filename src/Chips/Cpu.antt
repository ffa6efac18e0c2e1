-- ===== src/Chips/Cpu.antt =====
-- cpu/src/lib.rs: the CPU chip. `clock`, `pc` and `fp` are `u32` and wrap as in a release build.
use valida.Prelude.{ℕ, ◌+◌, ◌%◌, ◌^◌, List, [], ◌∷◌, ◌++◌, Option}
use valida.Word.{Word}
use valida.Program.{Operands, InstructionWord}

pub data Operation : Type 0 where
  store32 storeu8 load32 loadu8 loads8 jal jalv : Operation
  beq : Option (Word ℕ) → Operation
  bne : Option (Word ℕ) → Operation
  imm32 : Operation
  bus : Option (Word ℕ) → Operation
  bus_with_memory : Option (Word ℕ) → Operation
  read_advice stop loadfp : Operation

pub record Registers : Type 0 where
  pub pc : ℕ
  pub fp : ℕ

pub record CpuChip : Type 0 where
  pub clock : ℕ
  pub pc : ℕ
  pub fp : ℕ
  pub registers : List Registers
  pub operations : List Operation
  pub instructions : List InstructionWord

abbrev pub empty : CpuChip
empty = record { clock = 0; pc = 0; fp = 0; registers = []; operations = []; instructions = [] }

unfoldable pub save_register_state : CpuChip → CpuChip
save_register_state c =
    let saved : Registers = record { pc = c.pc; fp = c.fp } in
    record c { registers = c.registers ++ saved ∷ [] }

unfoldable pub push_op : Operation → ℕ → Operands → CpuChip → CpuChip
unfolding save_register_state
push_op op opcode ops c =
    let instruction : InstructionWord = record { opcode = opcode; operands = ops } in
    let pushed = record c {
      operations = c.operations ++ op ∷ [];
      instructions = c.instructions ++ instruction ∷ [];
    } in
    let saved = save_register_state pushed in record saved { clock = (saved.clock + 1) % 2 ^ 32 }

-- `self.pc += 1`
unfoldable pub increment_pc : CpuChip → CpuChip
increment_pc c = record c { pc = (c.pc + 1) % 2 ^ 32 }

unfoldable pub push_bus_op : Option (Word ℕ) → ℕ → Operands → CpuChip → CpuChip
unfolding push_op increment_pc
push_bus_op imm opcode ops c = push_op (bus imm) opcode ops (increment_pc c)

unfoldable pub push_bus_op_with_memory : Option (Word ℕ) → ℕ → Operands → CpuChip → CpuChip
unfolding push_op increment_pc
push_bus_op_with_memory imm opcode ops c = push_op (bus_with_memory imm) opcode ops (increment_pc c)
