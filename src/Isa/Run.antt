-- ===== src/Isa/Run.antt =====
-- The specification's step and run: fetch, decode, perform, up to `stop`.
use valida.Prelude.{ℕ, zero, suc, Option, none, some, get_elem?, ◌==◌, if◌then◌else◌}
use valida.Opcode.{Opcode, code, try_from}
use valida.Program.{Operands, InstructionWord, ProgramRom}
use valida.Chips.Advice.{AdviceProvider}
use valida.Isa.{Arch, Isa}
use valida.Isa.Ops.{perform, read_advice}
use valida.Machine.Step.{StoppingFlag, did_stop, did_not_stop}

unfoldable pub flag_of : InstructionWord → StoppingFlag
flag_of word = if word.opcode == code Opcode.stop then did_stop else did_not_stop

module _ {Adv : Type 0} ⦃p : AdviceProvider Adv⦄ where
  -- Only `read_advice` moves the tape.
  unfoldable pub action : Opcode → Operands → Adv → Isa (Unit {0})
  action op ops adv =
      if code op == code Opcode.read_advice
      then read_advice (p.get_advice adv).0 ops
      else perform op ops

  unfoldable pub tape_after : Opcode → Adv → Adv
  tape_after op adv = if code op == code Opcode.read_advice then (p.get_advice adv).1 else adv

  unfoldable pub perform_word :
      InstructionWord → Opcode → Adv → Arch → Option (StoppingFlag × Adv × Arch)
  unfolding action tape_after flag_of
  perform_word word op adv a = elim (action op word.operands adv a) [
    | none ↦ none
    | some (x, b) ↦ some (flag_of word, tape_after op adv, b)
  ]

  unfoldable pub step : ProgramRom → Adv → Arch → Option (StoppingFlag × Adv × Arch)
  unfolding perform_word
  step rom adv a = elim (get_elem? rom a.regs.pc) [
    | none ↦ none
    | some word ↦ elim (try_from word.opcode) [ none ↦ none | some op ↦ perform_word word op adv a ]
  ]

  -- `none` outside when the fuel runs out, and `none` inside on a fault.
  unfoldable pub run : ProgramRom → ℕ → Adv → Arch → Option (Option (Adv × Arch))
  run rom zero adv a = none
  run rom (suc fuel) adv a = elim (step rom adv a) [
    | none ↦ some none
    | some (flag, adv', b) ↦ elim flag [
      | did_stop ↦ some (some (adv', b))
      | did_not_stop ↦ run rom fuel adv' b
    ]
  ]
