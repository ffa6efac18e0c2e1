-- ===== src/Refine/Step/Run.antt =====
-- The machine's step and its loop of steps refine the specification's, while the clock does not
-- wrap.
use valida.Prelude.{
  ℕ, ◌^◌, ◌<◌, ◌≡◌, refl, Option, none, some, Outcome, ok, panic, Panic, get_elem?, lt_of-get_elem?,
  Bool-cases, Option-cases, inl, inr, ◌==◌, if◌then◌else◌, ◌>>=◌, index_out_of_bounds,
  unrecognized_opcode, length,
}
use valida.Opcode.{Opcode, code, try_from}
use valida.Program.{Operands, IsOperands, InstructionWord, ProgramRom, ProgramChip, get_instruction}
use valida.Program.Counts.{IsCounted, counted_at, read_word_total}
use valida.Chips.Advice.{AdviceProvider}
use valida.Machine.{BasicMachine}
use valida.Machine.Step.{
  StoppingFlag, did_stop, did_not_stop, execute_with_advice, count_word, step,
}
use valida.Machine.Invariant.{IsTraced, advised, plain, execute_with_advice-Finished}
use valida.Machine.Invariant.Steps.{started}
use valida.Isa.{Arch}
use valida.Isa.Run as IsaRun
use valida.Refine.{view, IsMachine, Agrees, fail, go}
use valida.Refine.Core.{read_advice-Refines}
use valida.Refine.Step.{execute-Refines}

-- What the types guarantee of the program and of the tape.
abbrev pub IsRom : ProgramRom → Type 0
IsRom rom =
    (pc : ℕ) (word : InstructionWord) → get_elem? rom pc ≡ some word → IsOperands word.operands

-- A tape that is valid gives a byte, and stays valid.
pub record GivesBytes {Adv : Type 0} (p : AdviceProvider Adv) (Valid : Adv → Type 0) : Type 0 where
  pub gives_byte :
      (adv : Adv) (byte : ℕ) → Valid adv → (p.get_advice adv).0 ≡ some byte → byte < 2 ^ 8
  pub stays : (adv : Adv) → Valid adv → Valid (p.get_advice adv).1

-- Both steps stop with a panic and a fault, or go on alike.
pub data StepAgrees {Adv : Type 0} (Valid : Adv → Type 0)
    : Outcome (StoppingFlag × Adv × BasicMachine)
      → Option (StoppingFlag × Adv × Arch)
      → Type 0 where
  both_fail : (e : Panic) → StepAgrees Valid (panic e) none
  both_go :
      (flag : StoppingFlag) (adv : Adv) (t : BasicMachine)
      → IsMachine t
      → Valid adv
      → StepAgrees Valid (ok (flag, adv, t)) (some (flag, adv, view t))

module _ {Adv : Type 0} ⦃p : AdviceProvider Adv⦄ (Valid : Adv → Type 0)
    (bytes : GivesBytes p Valid) where
  -- The instruction's action, with its tape.
  data RunAgrees : Outcome (Adv × BasicMachine) → Adv → Option (Unit {0} × Arch) → Type 0 where
    ran_fail : (e : Panic) (adv : Adv) → RunAgrees (panic e) adv none
    ran_go :
        (adv : Adv) (t : BasicMachine)
        → IsMachine t
        → Valid adv
        → RunAgrees (ok (adv, t)) adv (some (tt, view t))

  with_tape :
      (r : Outcome (Unit {0} × BasicMachine)) (o : Option (Unit {0} × Arch)) (adv : Adv)
      → Valid adv
      → Agrees r o
      → RunAgrees (◌>>=◌ {B = Adv × BasicMachine} r (λ x. ok (adv, x.1))) adv o
  with_tape r o adv valid (fail e) = ran_fail e adv
  with_tape r o adv valid (go s wf) = ran_go adv s wf valid

  execute_with_advice-RunAgrees :
      (op : Opcode) (ops : Operands) (adv : Adv) (s : BasicMachine)
      → IsOperands ops
      → IsMachine s
      → Valid adv
      → RunAgrees
          (execute_with_advice op ops adv s)
          (IsaRun.tape_after op adv)
          (IsaRun.action op ops adv (view s))
  unfolding IsaRun.tape_after IsaRun.action
  execute_with_advice-RunAgrees op ops adv s fits wf valid =
      elim (Bool-cases (code op == code Opcode.read_advice)) [
        | inl reads ↦
            rw (advised op ops adv s reads, reads)
              (with_tape _ _ _ (bytes.stays adv valid) (
                (read_advice-Refines (p.get_advice adv).0 ops
                    (λ byte e. bytes.gives_byte adv byte valid e)).agrees
                  s wf))
        | inr runs ↦
            rw (plain op ops adv s runs, runs)
              (with_tape _ _ _ valid ((execute-Refines op ops fits).agrees s wf))
      ]

  -- The count of the instruction, after the action.
  abbrev tail :
      BasicMachine
      → InstructionWord
      → Adv × BasicMachine
      → Outcome (StoppingFlag × Adv × BasicMachine)
  tail s word r = count_word s.cpu.pc r.1 >>= λ t.
      ok (if word.opcode == code Opcode.stop then did_stop else did_not_stop, r.0, t)

  step_ran :
      (adv : Adv) (s : BasicMachine) (word : InstructionWord) (op : Opcode)
      → get_elem? s.program.program_rom s.cpu.pc ≡ some word
      → try_from word.opcode ≡ some op
      → step adv s ≡ (execute_with_advice op word.operands adv s >>= tail s word)
  unfolding step get_instruction
  step_ran adv s word op h k = rw (h, k) refl

  step_no_fetch :
      (adv : Adv) (s : BasicMachine)
      → get_elem? s.program.program_rom s.cpu.pc ≡ none
      → step adv s ≡ panic index_out_of_bounds
  unfolding step get_instruction
  step_no_fetch adv s h = rw h refl

  step_no_decode :
      (adv : Adv) (s : BasicMachine) (word : InstructionWord)
      → get_elem? s.program.program_rom s.cpu.pc ≡ some word
      → try_from word.opcode ≡ none
      → step adv s ≡ panic (unrecognized_opcode word.opcode)
  unfolding step get_instruction
  step_no_decode adv s word h k = rw (h, k) refl

  counted :
      (s t : BasicMachine)
      → IsCounted s.program
      → t.program ≡ s.program
      → s.cpu.pc < length s.program.program_rom
      → (chip : ProgramChip) × (count_word s.cpu.pc t ≡ ok (record t { program = chip }))
  unfolding count_word
  counted s t counters same inside =
      let (n, found, e) = read_word_total s.cpu.pc s.program counters inside in
      (counted_at s.program s.cpu.pc n, rw (same, e) refl)

  finish :
      (adv adv' : Adv) (s : BasicMachine) (word : InstructionWord) (op : Opcode)
      (r : Outcome (Adv × BasicMachine)) (o : Option (Unit {0} × Arch))
      → IsTraced s
      → s.cpu.pc < length s.program.program_rom
      → execute_with_advice op word.operands adv s ≡ r
      → RunAgrees r adv' o
      → StepAgrees Valid
          (r >>= tail s word)
          (elim o [ none ↦ none | some (x, b) ↦ some (IsaRun.flag_of word, adv', b) ])
  unfolding IsaRun.flag_of view
  finish adv adv' s word op r o traced inside e (ran_fail x a) = both_fail x
  finish adv adv' s word op r o traced inside e (ran_go a t wf valid) =
      let finished =
        execute_with_advice-Finished s op word.operands adv _ s t (started s traced) e in
      let (chip, h) = counted s t traced.counters finished.same_program inside in
      rw h (both_go _ a (record t { program = chip }) (record { cells_fit = wf.cells_fit }) valid)

  -- A step from a machine between two steps, with 32-bit operands and a tape of bytes, panics
  -- where the specification's step faults, and else both go on with the same stopping flag and
  -- the same tape, in states that correspond.
  pub step-StepAgrees :
      (adv : Adv) (s : BasicMachine)
      → IsMachine s
      → IsTraced s
      → IsRom s.program.program_rom
      → Valid adv
      → StepAgrees Valid (step adv s) (IsaRun.step s.program.program_rom adv (view s))
  unfolding IsaRun.step IsaRun.perform_word view
  step-StepAgrees adv s wf traced fits valid =
      elim (Option-cases (get_elem? s.program.program_rom s.cpu.pc)) [
        | inl absent ↦
            rw (step_no_fetch adv s absent, IsaRun.step, absent) (both_fail index_out_of_bounds)
        | inr (word, h) ↦ elim (Option-cases (try_from word.opcode)) [
          | inl unknown ↦
              rw (step_no_decode adv s word h unknown, IsaRun.step, h, unknown)
                (both_fail (unrecognized_opcode word.opcode))
          | inr (op, k) ↦
              rw (step_ran adv s word op h k, IsaRun.step, h, k)
                (finish adv _ s word op _ _ traced
                  (lt_of-get_elem? s.program.program_rom s.cpu.pc word h) refl
                  (execute_with_advice-RunAgrees op word.operands adv s (fits s.cpu.pc word h) wf
                    valid))
        ]
      ]
