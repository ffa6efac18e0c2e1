-- ===== src/Refine/Step.antt =====
-- basic/src/lib.rs, the match of `step`: every instruction refines the specification of its opcode.
pub mod Run
pub mod Loop
pub mod Inputs
use valida.Prelude.{panic, none, unrecognized_opcode, advice_expected, Panic}
use valida.Opcode.{Opcode}
use valida.Program.{Operands, IsOperands}
use valida.Machine.{BasicMachine, M, lift}
use valida.Machine.Step.{execute}
use valida.Isa
use valida.Isa.Ops.{perform}
use valida.Isa.Ops as IsaOps
use valida.Refine.{view, IsMachine, Refines, Agrees, fail}
use valida.Refine.Core.{
  load32-Refines, store32-Refines, jal-Refines, jalv-Refines, beq-Refines, bne-Refines,
  imm32-Refines, stop-Refines, loadfp-Refines, loadu8-Refines, loads8-Refines, storeu8-Refines,
}
use valida.Refine.Alu.{write_output-Refines}
use valida.Refine.Alu.Instructions.{
  Implements, add32-Implements, sub32-Implements, mul32-Implements, mulhs32-Implements,
  mulhu32-Implements, div32-Implements, sdiv32-Implements, shl32-Implements, shr32-Implements,
  sra32-Implements, xor32-Implements, and32-Implements, or32-Implements, ne32-Implements,
  eq32-Implements, lt32-Implements, lte32-Implements,
}

faults-Refines : (p : Panic) → Refines (lift (panic p)) (Isa.lift none)
unfolding lift Isa.lift
faults-Refines p = record { agrees = λ s wf. fail p }

pub execute-Refines :
    (op : Opcode) (ops : Operands) → IsOperands ops → Refines (execute op ops) (perform op ops)
unfolding execute perform
execute-Refines Opcode.load32 ops fits = load32-Refines ops
execute-Refines Opcode.loadu8 ops fits = loadu8-Refines ops
execute-Refines Opcode.loads8 ops fits = loads8-Refines ops
execute-Refines Opcode.store32 ops fits = store32-Refines ops
execute-Refines Opcode.storeu8 ops fits = storeu8-Refines ops
execute-Refines Opcode.jal ops fits = jal-Refines ops
execute-Refines Opcode.jalv ops fits = jalv-Refines ops
execute-Refines Opcode.beq ops fits = beq-Refines ops fits
execute-Refines Opcode.bne ops fits = bne-Refines ops fits
execute-Refines Opcode.imm32 ops fits = imm32-Refines ops
execute-Refines Opcode.stop ops fits = stop-Refines ops
execute-Refines Opcode.loadfp ops fits = loadfp-Refines ops
execute-Refines Opcode.add32 ops fits = add32-Implements ops fits
execute-Refines Opcode.sub32 ops fits = sub32-Implements ops fits
execute-Refines Opcode.mul32 ops fits = mul32-Implements ops fits
execute-Refines Opcode.mulhs32 ops fits = mulhs32-Implements ops fits
execute-Refines Opcode.mulhu32 ops fits = mulhu32-Implements ops fits
execute-Refines Opcode.div32 ops fits = div32-Implements ops fits
execute-Refines Opcode.sdiv32 ops fits = sdiv32-Implements ops fits
execute-Refines Opcode.shl32 ops fits = shl32-Implements ops fits
execute-Refines Opcode.shr32 ops fits = shr32-Implements ops fits
execute-Refines Opcode.sra32 ops fits = sra32-Implements ops fits
execute-Refines Opcode.lt32 ops fits = lt32-Implements ops fits
execute-Refines Opcode.lte32 ops fits = lte32-Implements ops fits
execute-Refines Opcode.and32 ops fits = and32-Implements ops fits
execute-Refines Opcode.or32 ops fits = or32-Implements ops fits
execute-Refines Opcode.xor32 ops fits = xor32-Implements ops fits
execute-Refines Opcode.ne32 ops fits = ne32-Implements ops fits
execute-Refines Opcode.eq32 ops fits = eq32-Implements ops fits
execute-Refines Opcode.write ops fits = write_output-Refines ops
execute-Refines Opcode.read_advice ops fits = faults-Refines advice_expected
execute-Refines Opcode.add ops fits = faults-Refines (unrecognized_opcode _)
execute-Refines Opcode.sub ops fits = faults-Refines (unrecognized_opcode _)
execute-Refines Opcode.mul ops fits = faults-Refines (unrecognized_opcode _)

-- Each instruction of the machine's match, on a machine whose cells are words and on 32-bit
-- operands, panics where the specification of its opcode faults, and else ends in a machine with
-- the specification's registers, memory values and output.
pub execute-Agrees :
    (op : Opcode) (ops : Operands) (s : BasicMachine)
    → IsOperands ops
    → IsMachine s
    → Agrees (execute op ops s) (perform op ops (view s))
execute-Agrees op ops s fits wf = (execute-Refines op ops fits).agrees s wf
