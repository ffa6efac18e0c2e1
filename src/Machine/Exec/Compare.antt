-- ===== src/Machine/Exec/Compare.antt =====
-- alu_u32/src/lt/mod.rs and alu_u32/src/com/mod.rs: the comparisons.
use valida.Prelude.{ℕ, Bool, Option, some, none, [], ◌∷◌, ◌++◌, ok, ◌==◌, if◌then◌else◌}
use valida.Word.{Word, from_u32}
use valida.Word.Ordering.{eq, ne, lt, le}
use valida.Opcode.{Opcode, code}
use valida.Program.{Operands}
use valida.Chips.Cpu.{push_bus_op}
use valida.Chips.Alu.{LtOperation, ComOperation}
use valida.Machine.{M, ◌>>=◌, ◌>>◌, lift, modify, get_cpu, offset, read, write, update_cpu}
use valida.Machine.Exec.Core.{second_operand}
use valida.Machine.Exec.Alu.{Recorder, binary_op, no_check}

-- `Word::from(1)` or `Word::from(0)`
abbrev pub flag : Bool → Word ℕ
flag b = from_u32 (if b then 1 else 0)

-- The first operand of `lt32` and `lte32` is immediate where `d` is 1.
unfoldable pub first_operand : ℕ → ℕ → Operands → M (Word ℕ × Option (Word ℕ))
first_operand clk fp ops =
    if ops.d == 1
    then lift (ok (from_u32 ops.b, some (from_u32 ops.b)))
    else (read clk (offset fp ops.b) >>= λ b. lift (ok (b, none)))

-- `imm` is set by the first operand, and again by the second.
abbrev pub last_imm : Option (Word ℕ) → Option (Word ℕ) → Option (Word ℕ)
last_imm first (some w) = some w
last_imm first none = first

unfoldable pub push_lt : (Word ℕ → Word ℕ → Word ℕ → LtOperation) → Recorder
push_lt op a b c s = record s { lt_u32 = s.lt_u32 ++ op a b c ∷ [] }

unfoldable pub push_com : (Word ℕ → Word ℕ → Word ℕ → ComOperation) → Recorder
push_com op a b c s = record s { com_u32 = s.com_u32 ++ op a b c ∷ [] }

unfoldable pub order_op : Opcode → (Word ℕ → Word ℕ → Bool) → Recorder → Operands → M (Unit {0})
order_op op test record_op ops = do
  cpu ← get_cpu
  first ← first_operand cpu.clock cpu.fp ops
  second ← second_operand cpu.clock cpu.fp ops
  write cpu.clock (offset cpu.fp ops.a) (flag (test first.0 second.0))
  modify (record_op (flag (test first.0 second.0)) first.0 second.0)
  update_cpu (push_bus_op (last_imm first.1 second.1) (code op) ops)

unfoldable pub lt32 : Operands → M (Unit {0})
lt32 = order_op Opcode.lt32 lt (push_lt LtOperation.lt32)

unfoldable pub lte32 : Operands → M (Unit {0})
lte32 = order_op Opcode.lte32 le (push_lt LtOperation.lte32)

unfoldable pub ne32 : Operands → M (Unit {0})
ne32 = binary_op Opcode.ne32 (λ b c. ok (flag (ne b c))) (push_com ComOperation.ne32) no_check

unfoldable pub eq32 : Operands → M (Unit {0})
eq32 = binary_op Opcode.eq32 (λ b c. ok (flag (eq b c))) (push_com ComOperation.eq32) no_check
