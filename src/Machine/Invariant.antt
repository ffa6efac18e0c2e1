-- ===== src/Machine/Invariant.antt =====
-- basic/src/lib.rs, `step`: what a step that returns has done to the traces, the memory's log and
-- the program's counters.
pub mod Steps
pub mod Loop
pub mod Padding
pub mod Whole
use valida.Prelude.{
  or_panic-some, ℕ, suc, ◌+◌, ◌%◌, ◌^◌, ◌<◌, ◌≡◌, refl, ap, sym, ◌∙◌, arith, [], ◌∷◌, ◌++◌,
  Bool-cases, inl, inr, ◌==◌, ==_iff, Bool, true, false, map_outcome, Option, none, some, Outcome,
  ok, panic, or_panic, Outcome-cases, unrecognized_opcode, if◌then◌else◌, length, length-append,
  Panic, ◌>>=◌,
}
use valida.Opcode.{Opcode, code, try_from}
use valida.Opcode.Codes.{try_from_iff, code-injective}
use valida.Program.{Operands, InstructionWord, ProgramChip, get_instruction, read_word}
use valida.Program.Counts.{IsCounted, Counts, read_word-Counts, total}
use valida.Memory.Log.{IsLogged, IsLogged-le}
use valida.Chips.Advice.{AdviceProvider}
use valida.Chips.Cpu.{CpuChip}
use valida.Machine.{BasicMachine}
use valida.Machine.Exec.Core
use valida.Machine.Step.{
  StoppingFlag, did_stop, did_not_stop, execute, execute_with_advice, count_word, step,
}
use valida.Machine.Hoare.Trace.{Running, Finished, accesses_by}
use valida.Machine.Hoare.Trace.Execute.{read_advice-Traced}
use valida.Machine.Hoare.Trace.Opcodes.{execute-Traced}
use mathlib.Core.Path.{subst}

-- The parts of a chain that returned.
data Parts {A B : Type 0} (r : Outcome A) (f : A → Outcome B) (b : B) : Type 0 where
  parts : (a : A) → r ≡ ok a → f a ≡ ok b → Parts r f b

bind-Parts :
    {A B : Type 0} (r : Outcome A) (f : A → Outcome B) (b : B) → (r >>= f) ≡ ok b → Parts r f b
bind-Parts (ok a) f b e = parts a refl e
bind-Parts (panic p) f b e = cc e

-- The machine between two steps, after the registers before the first one were saved: the saved
-- registers are one more than the cycles, the other traces have one entry for each cycle, the
-- counters count the cycles, and the log explains the memory.
pub record IsTraced (s : BasicMachine) : Type 0 where
  pub registers : length s.cpu.registers ≡ s.cpu.clock + 1
  pub operations : length s.cpu.operations ≡ s.cpu.clock
  pub instructions : length s.cpu.instructions ≡ s.cpu.clock
  pub counters : IsCounted s.program
  pub counted : total s.program.counts ≡ s.cpu.clock
  pub logged : IsLogged s.cpu.clock s.mem

-- The machine that a run of an action ends in.
ran :
    {Adv : Type 0} (r : Outcome (Unit {0} × BasicMachine)) (adv adv' : Adv) (t : BasicMachine)
    → ◌>>=◌ {B = Adv × BasicMachine} r (λ x. ok (adv, x.1)) ≡ ok (adv', t)
    → (r ≡ ok (tt, t)) × (adv ≡ adv')
ran (ok (x, u)) adv adv' t e = (ap (λ (v : BasicMachine). ok (x, v)) (cc e), cc e)
ran (panic p) adv adv' t e = cc e

module _ {Adv : Type 0} ⦃p : AdviceProvider Adv⦄ where
  -- The tape is read, or the instruction is run as without it.
  pub advised :
      (op : Opcode) (ops : Operands) (adv : Adv) (s : BasicMachine)
      → (code op == code Opcode.read_advice) ≡ true
      → execute_with_advice op ops adv s
        ≡ (Core.read_advice (p.get_advice adv).0 ops s >>= λ r. ok ((p.get_advice adv).1, r.1))
  unfolding execute_with_advice
  advised op ops adv s e = rw e refl

  pub plain :
      (op : Opcode) (ops : Operands) (adv : Adv) (s : BasicMachine)
      → (code op == code Opcode.read_advice) ≡ false
      → execute_with_advice op ops adv s ≡ (execute op ops s >>= λ r. ok (adv, r.1))
  unfolding execute_with_advice
  plain op ops adv s e = rw e refl

  -- An instruction that returns has added one cycle to the clock and one entry to each trace of
  -- the CPU (the instruction itself, and the registers as they are after it). It has logged the
  -- reads and writes of its opcode, in their order and no others, at the end of the log and of
  -- the entry of the cycle that it began in; the other entries are as before, and the log still
  -- explains the values read and the cells. The program chip is as before.
  pub execute_with_advice-Finished :
      (start : BasicMachine) (op : Opcode) (ops : Operands) (adv adv' : Adv) (s t : BasicMachine)
      → Running start [] s
      → execute_with_advice op ops adv s ≡ ok (adv', t)
      → Finished start (accesses_by op ops) (record { opcode = code op; operands = ops }) t
  execute_with_advice-Finished start op ops adv adv' s t running e =
      elim (Bool-cases (code op == code Opcode.read_advice)) [
        | inl reads ↦
            let advice = (p.get_advice adv).0 in
            let (r, same) =
              ran (Core.read_advice advice ops s) _ _ t (sym (advised op ops adv s reads) ∙ e) in
            let is_read =
              code-injective Opcode.read_advice op
                (sym ((==_iff (code op) (code Opcode.read_advice)).0 reads)) in
            subst
              (λ o.
                Finished start (accesses_by o ops) (record { opcode = code o; operands = ops }) t)
              is_read ((read_advice-Traced start advice ops).holds s t tt running r)
        | inr runs ↦
            let (r, same) = ran (execute op ops s) _ _ t (sym (plain op ops adv s runs) ∙ e) in
            (execute-Traced start op ops).holds s t tt running r
      ]

  -- A step is the fetch, the execution, and the count of the instruction.
  pub record Stepped (adv adv' : Adv) (s t : BasicMachine) (flag : StoppingFlag) : Type 0 where
    pub word : InstructionWord
    pub op : Opcode
    pub executed : BasicMachine
    pub fetched : get_instruction s.program.program_rom s.cpu.pc ≡ ok word
    pub decoded : code op ≡ word.opcode
    pub runs : execute_with_advice op word.operands adv s ≡ ok (adv', executed)
    pub chip : ProgramChip
    pub read : read_word s.cpu.pc executed.program ≡ ok chip
    pub result : t ≡ record executed { program = chip }
    pub stops : flag ≡ (if word.opcode == code Opcode.stop then did_stop else did_not_stop)

  pub step-Stepped :
      (adv adv' : Adv) (s t : BasicMachine) (flag : StoppingFlag)
      → step adv s ≡ ok (flag, adv', t)
      → Stepped adv adv' s t flag
  unfolding step count_word
  step-Stepped adv adv' s t flag e =
      elim (bind-Parts (get_instruction s.program.program_rom s.cpu.pc) _ _ e) [
        | parts word fetched e1 ↦
            elim (bind-Parts (or_panic (unrecognized_opcode word.opcode) (try_from word.opcode)) _ _
              e1) [
                | parts op decoded e2 ↦
                    elim (bind-Parts (execute_with_advice op word.operands adv s) _ _ e2) [
                      | parts r runs e3 ↦ elim (bind-Parts (count_word s.cpu.pc r.1) _ _ e3) [
                        | parts v counted e4 ↦
                            elim (bind-Parts (read_word s.cpu.pc r.1.program) _ _ counted) [
                              | parts chip read e5 ↦ record {
                                word = word;
                                op = op;
                                executed = r.1;
                                fetched = fetched;
                                decoded =
                                    (try_from_iff word.opcode op).0 (or_panic-some _ _ op decoded);
                                runs = cc (runs, e4);
                                chip = chip;
                                read = read;
                                result = cc (e4, e5);
                                stops = cc e4;
                              }
                            ]
                      ]
                    ]
              ]
      ]
