-- ===== src/Machine/Step.antt =====
-- basic/src/lib.rs: `step`, which fetches and executes one instruction.
use valida.Prelude.{
  ℕ, Outcome, ok, panic, or_panic, advice_expected, unrecognized_opcode, ◌==◌, if◌then◌else◌, ◌>>=◌,
}
use valida.Opcode.{Opcode, code, try_from}
use valida.Program.{Operands, get_instruction, read_word}
use valida.Chips.Advice.{AdviceProvider}
use valida.Machine.{BasicMachine, M, lift}
use valida.Machine.Exec.Core
use valida.Machine.Exec.Alu
use valida.Machine.Exec.Compare
use valida.Machine.Exec.Write

-- `Instruction::execute`, by opcode. The field instructions have no arm in the machine's match.
unfoldable pub execute : Opcode → Operands → M (Unit {0})
execute Opcode.load32 = Core.load32
execute Opcode.loadu8 = Core.loadu8
execute Opcode.loads8 = Core.loads8
execute Opcode.store32 = Core.store32
execute Opcode.storeu8 = Core.storeu8
execute Opcode.jal = Core.jal
execute Opcode.jalv = Core.jalv
execute Opcode.beq = Core.beq
execute Opcode.bne = Core.bne
execute Opcode.imm32 = Core.imm32
execute Opcode.stop = Core.stop
execute Opcode.loadfp = Core.loadfp
execute Opcode.add32 = Alu.add32
execute Opcode.sub32 = Alu.sub32
execute Opcode.mul32 = Alu.mul32
execute Opcode.mulhs32 = Alu.mulhs32
execute Opcode.mulhu32 = Alu.mulhu32
execute Opcode.div32 = Alu.div32
execute Opcode.sdiv32 = Alu.sdiv32
execute Opcode.shl32 = Alu.shl32
execute Opcode.shr32 = Alu.shr32
execute Opcode.sra32 = Alu.sra32
execute Opcode.lt32 = Compare.lt32
execute Opcode.lte32 = Compare.lte32
execute Opcode.and32 = Alu.and32
execute Opcode.or32 = Alu.or32
execute Opcode.xor32 = Alu.xor32
execute Opcode.ne32 = Compare.ne32
execute Opcode.eq32 = Compare.eq32
execute Opcode.write = Write.write_output
execute Opcode.read_advice = λ ops. lift (panic advice_expected)
execute Opcode.add = λ ops. lift (panic (unrecognized_opcode (code Opcode.add)))
execute Opcode.sub = λ ops. lift (panic (unrecognized_opcode (code Opcode.sub)))
execute Opcode.mul = λ ops. lift (panic (unrecognized_opcode (code Opcode.mul)))

-- `STOP` ends the run.
pub data StoppingFlag : Type 0 where
  did_stop did_not_stop : StoppingFlag

-- `self.read_word(pc as usize)`
unfoldable pub count_word : ℕ → BasicMachine → Outcome BasicMachine
count_word pc s = read_word pc s.program >>= λ chip. ok (record s { program = chip })

module _ {Adv : Type 0} ⦃p : AdviceProvider Adv⦄ where
  -- Only `read_advice` uses the tape; the other instructions keep the default method.
  unfoldable pub execute_with_advice :
      Opcode → Operands → Adv → BasicMachine → Outcome (Adv × BasicMachine)
  execute_with_advice op ops adv s =
      if code op == code Opcode.read_advice
      then (Core.read_advice (p.get_advice adv).0 ops s >>= λ r. ok ((p.get_advice adv).1, r.1))
      else (execute op ops s >>= λ r. ok (adv, r.1))

  unfoldable pub step : Adv → BasicMachine → Outcome (StoppingFlag × Adv × BasicMachine)
  unfolding execute_with_advice count_word
  step adv s = get_instruction s.program.program_rom s.cpu.pc >>= λ instruction.
      or_panic (unrecognized_opcode instruction.opcode) (try_from instruction.opcode) >>= λ op.
      execute_with_advice op instruction.operands adv s >>= λ r. count_word s.cpu.pc r.1 >>= λ t.
      ok (if instruction.opcode == code Opcode.stop then did_stop else did_not_stop, r.0, t)
