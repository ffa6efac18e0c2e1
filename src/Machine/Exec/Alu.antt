-- ===== src/Machine/Exec/Alu.antt =====
-- alu_u32/src/*/mod.rs: the instructions with two operands and a result. Their `execute` methods
-- share one body, `binary_op`: the first operand at `fp + b`, the second operand, the result at
-- `fp + a`, the records of the chips, and the step of the CPU.
use valida.Prelude.{ℕ, [], ◌∷◌, ◌++◌, Outcome, ok}
use valida.Word.{Word, from_u32}
use valida.Word.Ops
use valida.Opcode.{Opcode, code}
use valida.Program.{Operands}
use valida.Chips.Cpu.{push_bus_op}
use valida.Chips.Alu.{
  AddOperation, SubOperation, MulOperation, DivOperation, ShiftOperation, BitwiseOperation,
}
use valida.Machine.{
  BasicMachine, M, ◌>>=◌, ◌>>◌, lift, modify, get_cpu, offset, read, write, update_cpu, range_check,
}
use valida.Machine.Exec.Core.{second_operand}

-- The chips' records of one operation: the result and the inputs.
abbrev pub Recorder : Type 0
Recorder = Word ℕ → Word ℕ → Word ℕ → BasicMachine → BasicMachine

unfoldable pub binary_op :
    Opcode
    → (Word ℕ → Word ℕ → Outcome (Word ℕ))
    → Recorder
    → (Word ℕ → M (Unit {0}))
    → Operands
    → M (Unit {0})
binary_op op f record_op check ops = do
  cpu ← get_cpu
  b ← read cpu.clock (offset cpu.fp ops.b)
  second ← second_operand cpu.clock cpu.fp ops
  a ← lift (f b second.0)
  write cpu.clock (offset cpu.fp ops.a) a
  modify (record_op a b second.0)
  update_cpu (push_bus_op second.1 (code op) ops)
  check a

-- The bitwise and the shift instructions do not check their result's bytes.
abbrev pub no_check : Word ℕ → M (Unit {0})
no_check a = modify λ s. s

abbrev pub total : (Word ℕ → Word ℕ → Word ℕ) → Word ℕ → Word ℕ → Outcome (Word ℕ)
total f b c = ok (f b c)

unfoldable pub push_add : Recorder
push_add a b c s = record s { add_u32 = s.add_u32 ++ AddOperation.add32 a b c ∷ [] }

unfoldable pub push_sub : Recorder
push_sub a b c s = record s { sub_u32 = s.sub_u32 ++ SubOperation.sub32 a b c ∷ [] }

unfoldable pub push_mul : (Word ℕ → Word ℕ → Word ℕ → MulOperation) → Recorder
push_mul op a b c s = record s { mul_u32 = s.mul_u32 ++ op a b c ∷ [] }

unfoldable pub push_div : (Word ℕ → Word ℕ → Word ℕ → DivOperation) → Recorder
push_div op a b c s = record s { div_u32 = s.div_u32 ++ op a b c ∷ [] }

unfoldable pub push_bitwise : (Word ℕ → Word ℕ → Word ℕ → BitwiseOperation) → Recorder
push_bitwise op a b c s = record s { bitwise_u32 = s.bitwise_u32 ++ op a b c ∷ [] }

unfoldable pub push_shift : (Word ℕ → Word ℕ → Word ℕ → ShiftOperation) → Recorder
push_shift op a b c s = record s { shift_u32 = s.shift_u32 ++ op a b c ∷ [] }

-- `Word::from(1) << c`
abbrev power_of : Word ℕ → Word ℕ
power_of c = Ops.shl (from_u32 1) c

unfoldable pub add32 : Operands → M (Unit {0})
add32 = binary_op Opcode.add32 (total Ops.add) push_add range_check

unfoldable pub sub32 : Operands → M (Unit {0})
sub32 = binary_op Opcode.sub32 (total Ops.sub) push_sub range_check

unfoldable pub mul32 : Operands → M (Unit {0})
mul32 = binary_op Opcode.mul32 (total Ops.mul) (push_mul MulOperation.mul32) range_check

unfoldable pub mulhs32 : Operands → M (Unit {0})
mulhs32 = binary_op Opcode.mulhs32 (total Ops.mulhs) (push_mul MulOperation.mulhs32) range_check

unfoldable pub mulhu32 : Operands → M (Unit {0})
mulhu32 = binary_op Opcode.mulhu32 (total Ops.mulhu) (push_mul MulOperation.mulhu32) range_check

unfoldable pub div32 : Operands → M (Unit {0})
div32 = binary_op Opcode.div32 Ops.div (push_div DivOperation.div32) range_check

unfoldable pub sdiv32 : Operands → M (Unit {0})
sdiv32 = binary_op Opcode.sdiv32 Ops.sdiv (push_div DivOperation.sdiv32) range_check

-- A left shift is recorded as a product too.
unfoldable pub shl32 : Operands → M (Unit {0})
shl32 =
    binary_op Opcode.shl32 (total Ops.shl)
      (λ a b c s.
        push_shift ShiftOperation.shl32 a b c (push_mul MulOperation.mul32 a b (power_of c) s))
      no_check

-- A right shift is recorded as a quotient too.
unfoldable pub shr32 : Operands → M (Unit {0})
shr32 =
    binary_op Opcode.shr32 (total Ops.shr)
      (λ a b c s.
        push_shift ShiftOperation.shr32 a b c (push_div DivOperation.div32 a b (power_of c) s))
      no_check

-- The shift chip's record is `Shr32` here too.
unfoldable pub sra32 : Operands → M (Unit {0})
sra32 =
    binary_op Opcode.sra32 (total Ops.sra)
      (λ a b c s.
        push_shift ShiftOperation.shr32 a b c (push_div DivOperation.sdiv32 a b (power_of c) s))
      no_check

unfoldable pub xor32 : Operands → M (Unit {0})
xor32 = binary_op Opcode.xor32 (total Ops.xor) (push_bitwise BitwiseOperation.xor32) no_check

unfoldable pub and32 : Operands → M (Unit {0})
and32 = binary_op Opcode.and32 (total Ops.and) (push_bitwise BitwiseOperation.and32) no_check

-- The chip's record is `And32` here too.
unfoldable pub or32 : Operands → M (Unit {0})
or32 = binary_op Opcode.or32 (total Ops.or) (push_bitwise BitwiseOperation.and32) no_check
