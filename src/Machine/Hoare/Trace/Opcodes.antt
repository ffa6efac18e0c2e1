-- ===== src/Machine/Hoare/Trace/Opcodes.antt =====
-- The traces of the arithmetic instructions, and of every opcode.
use valida.Prelude.{ℕ, refl}
use valida.Word.{Word}
use valida.Opcode.{Opcode}
use valida.Chips.Alu.{
  MulOperation, DivOperation, ShiftOperation, BitwiseOperation, LtOperation, ComOperation,
}
use valida.Machine.{BasicMachine, range_check}
use valida.Machine.Exec.Core
use valida.Machine.Exec.Alu
use valida.Machine.Exec.Alu.{
  push_add, push_sub, push_mul, push_div, push_bitwise, push_shift, no_check,
}
use valida.Machine.Exec.Compare
use valida.Machine.Exec.Compare.{push_lt, push_com}
use valida.Machine.Step.{execute}
use valida.Machine.Hoare.Trace.Actions.{Keeps-change, Keeps-end, range_check-Keeps}
use valida.Machine.Hoare.Trace.Execute.{
  Traced, Records, Checks, load32-Traced, load_byte-Traced, store32-Traced, storeu8-Traced,
  jal-Traced, jalv-Traced, branch-Traced, imm32-Traced, stop-Traced, loadfp-Traced,
  binary_op-Traced, order_op-Traced, write_output-Traced, faults-Traced,
}

module _ (start : BasicMachine) where
  push_add-Records : Records start push_add
  unfolding push_add
  push_add-Records ks a b c =
      Keeps-change _ _ (push_add a b c) (λ s. refl) (λ s. refl) (λ s. refl) (λ s. refl) (λ s. refl)
        (λ s. refl)

  push_sub-Records : Records start push_sub
  unfolding push_sub
  push_sub-Records ks a b c =
      Keeps-change _ _ (push_sub a b c) (λ s. refl) (λ s. refl) (λ s. refl) (λ s. refl) (λ s. refl)
        (λ s. refl)

  push_mul-Records : (op : Word ℕ → Word ℕ → Word ℕ → MulOperation) → Records start (push_mul op)
  unfolding push_mul
  push_mul-Records op ks a b c =
      Keeps-change _ _ (push_mul op a b c) (λ s. refl) (λ s. refl) (λ s. refl) (λ s. refl)
        (λ s. refl) (λ s. refl)

  push_div-Records : (op : Word ℕ → Word ℕ → Word ℕ → DivOperation) → Records start (push_div op)
  unfolding push_div
  push_div-Records op ks a b c =
      Keeps-change _ _ (push_div op a b c) (λ s. refl) (λ s. refl) (λ s. refl) (λ s. refl)
        (λ s. refl) (λ s. refl)

  push_bitwise-Records :
      (op : Word ℕ → Word ℕ → Word ℕ → BitwiseOperation) → Records start (push_bitwise op)
  unfolding push_bitwise
  push_bitwise-Records op ks a b c =
      Keeps-change _ _ (push_bitwise op a b c) (λ s. refl) (λ s. refl) (λ s. refl) (λ s. refl)
        (λ s. refl) (λ s. refl)

  push_lt-Records : (op : Word ℕ → Word ℕ → Word ℕ → LtOperation) → Records start (push_lt op)
  unfolding push_lt
  push_lt-Records op ks a b c =
      Keeps-change _ _ (push_lt op a b c) (λ s. refl) (λ s. refl) (λ s. refl) (λ s. refl)
        (λ s. refl) (λ s. refl)

  push_com-Records : (op : Word ℕ → Word ℕ → Word ℕ → ComOperation) → Records start (push_com op)
  unfolding push_com
  push_com-Records op ks a b c =
      Keeps-change _ _ (push_com op a b c) (λ s. refl) (λ s. refl) (λ s. refl) (λ s. refl)
        (λ s. refl) (λ s. refl)

  -- A shift and its record in another chip.
  shift_mul-Records :
      (op : Word ℕ → Word ℕ → Word ℕ → ShiftOperation)
      (other : Word ℕ → Word ℕ → Word ℕ → MulOperation) (power : Word ℕ → Word ℕ)
      → Records start (λ a b c s. push_shift op a b c (push_mul other a b (power c) s))
  unfolding push_shift push_mul
  shift_mul-Records op other power ks a b c =
      Keeps-change _ _ (λ s. push_shift op a b c (push_mul other a b (power c) s)) (λ s. refl)
        (λ s. refl) (λ s. refl) (λ s. refl) (λ s. refl) (λ s. refl)

  -- A shift and its record in another chip.
  shift_div-Records :
      (op : Word ℕ → Word ℕ → Word ℕ → ShiftOperation)
      (other : Word ℕ → Word ℕ → Word ℕ → DivOperation) (power : Word ℕ → Word ℕ)
      → Records start (λ a b c s. push_shift op a b c (push_div other a b (power c) s))
  unfolding push_shift push_div
  shift_div-Records op other power ks a b c =
      Keeps-change _ _ (λ s. push_shift op a b c (push_div other a b (power c) s)) (λ s. refl)
        (λ s. refl) (λ s. refl) (λ s. refl) (λ s. refl) (λ s. refl)

  range_check-Checks : Checks start range_check
  range_check-Checks ks word a = range_check-Keeps _ _ _ a

  no_check-Checks : Checks start no_check
  no_check-Checks ks word a = Keeps-end _ _ _ _ (λ s. refl) (λ s. refl) (λ s. refl)

  pub execute-Traced : (op : Opcode) → Traced start (execute op) op
  unfolding execute Core.loadu8 Core.loads8 Core.beq Core.bne Alu.add32 Alu.sub32 Alu.mul32
      Alu.mulhs32 Alu.mulhu32 Alu.div32 Alu.sdiv32 Alu.shl32 Alu.shr32 Alu.sra32 Alu.xor32 Alu.and32
      Alu.or32 Compare.lt32 Compare.lte32 Compare.ne32 Compare.eq32
  execute-Traced Opcode.load32 = load32-Traced _
  execute-Traced Opcode.loadu8 = load_byte-Traced _ _ _ _
  execute-Traced Opcode.loads8 = load_byte-Traced _ _ _ _
  execute-Traced Opcode.store32 = store32-Traced _
  execute-Traced Opcode.storeu8 = storeu8-Traced _
  execute-Traced Opcode.jal = jal-Traced _
  execute-Traced Opcode.jalv = jalv-Traced _
  execute-Traced Opcode.beq = branch-Traced _ _ _ _
  execute-Traced Opcode.bne = branch-Traced _ _ _ _
  execute-Traced Opcode.imm32 = imm32-Traced _
  execute-Traced Opcode.stop = stop-Traced _
  execute-Traced Opcode.loadfp = loadfp-Traced _
  execute-Traced Opcode.add32 = binary_op-Traced _ _ _ _ _ push_add-Records range_check-Checks
  execute-Traced Opcode.sub32 = binary_op-Traced _ _ _ _ _ push_sub-Records range_check-Checks
  execute-Traced Opcode.mul32 = binary_op-Traced _ _ _ _ _ (push_mul-Records _) range_check-Checks
  execute-Traced Opcode.mulhs32 = binary_op-Traced _ _ _ _ _ (push_mul-Records _) range_check-Checks
  execute-Traced Opcode.mulhu32 = binary_op-Traced _ _ _ _ _ (push_mul-Records _) range_check-Checks
  execute-Traced Opcode.div32 = binary_op-Traced _ _ _ _ _ (push_div-Records _) range_check-Checks
  execute-Traced Opcode.sdiv32 = binary_op-Traced _ _ _ _ _ (push_div-Records _) range_check-Checks
  execute-Traced Opcode.shl32 = binary_op-Traced _ _ _ _ _ (shift_mul-Records _ _ _) no_check-Checks
  execute-Traced Opcode.shr32 = binary_op-Traced _ _ _ _ _ (shift_div-Records _ _ _) no_check-Checks
  execute-Traced Opcode.sra32 = binary_op-Traced _ _ _ _ _ (shift_div-Records _ _ _) no_check-Checks
  execute-Traced Opcode.lt32 = order_op-Traced _ _ _ _ (push_lt-Records _)
  execute-Traced Opcode.lte32 = order_op-Traced _ _ _ _ (push_lt-Records _)
  execute-Traced Opcode.and32 = binary_op-Traced _ _ _ _ _ (push_bitwise-Records _) no_check-Checks
  execute-Traced Opcode.or32 = binary_op-Traced _ _ _ _ _ (push_bitwise-Records _) no_check-Checks
  execute-Traced Opcode.xor32 = binary_op-Traced _ _ _ _ _ (push_bitwise-Records _) no_check-Checks
  execute-Traced Opcode.ne32 = binary_op-Traced _ _ _ _ _ (push_com-Records _) no_check-Checks
  execute-Traced Opcode.eq32 = binary_op-Traced _ _ _ _ _ (push_com-Records _) no_check-Checks
  execute-Traced Opcode.write = write_output-Traced _
  execute-Traced Opcode.read_advice = faults-Traced _ _ _ _
  execute-Traced Opcode.add = faults-Traced _ _ _ _
  execute-Traced Opcode.sub = faults-Traced _ _ _ _
  execute-Traced Opcode.mul = faults-Traced _ _ _ _
