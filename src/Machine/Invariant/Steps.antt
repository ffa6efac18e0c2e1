-- ===== src/Machine/Invariant/Steps.antt =====
-- The traces stay in step with the clock over one step.
use valida.Prelude.{
  ℕ, ◌+◌, ◌^◌, ◌<◌, ◌≡◌, refl, ap, sym, arith, List, [], ◌∷◌, ◌++◌, ok, length, length-append,
}
use valida.Opcode.{Opcode, code}
use valida.Program.{InstructionWord, ProgramChip, get_instruction, read_word}
use valida.Program.Counts.{Counts, read_word-Counts, one_more}
use valida.Memory.Log.{IsLogged-le}
use valida.Memory.Entries.{Extends, nothing-Extends}
use valida.Chips.Advice.{AdviceProvider}
use valida.Machine.{BasicMachine}
use valida.Machine.Step.{StoppingFlag, step}
use valida.Machine.Hoare.Trace.{Running, Finished, accesses_by}
use valida.Machine.Invariant.{IsTraced, step-Stepped, execute_with_advice-Finished}
use mathlib.Core.Path.{subst}

-- What a step has done.
pub record Advanced (s t : BasicMachine) : Type 0 where
  pub traced : IsTraced t
  pub clock : t.cpu.clock ≡ s.cpu.clock + 1
  pub same_rom : t.program.program_rom ≡ s.program.program_rom
  pub word : InstructionWord
  pub fetched : get_instruction s.program.program_rom s.cpu.pc ≡ ok word
  pub recorded : t.cpu.instructions ≡ s.cpu.instructions ++ word ∷ []
  pub counted : Counts s.cpu.pc s.program t.program
  pub op : Opcode
  pub decoded : code op ≡ word.opcode
  pub extends : Extends s.cpu.clock (accesses_by op word.operands) s.mem.operations t.mem.operations

-- One more entry.
one_longer :
    {A : Type 0} (xs ys : List A) (x : A) (n m : ℕ)
    → ys ≡ xs ++ x ∷ []
    → length xs ≡ n
    → m ≡ n + 1
    → length ys ≡ m
one_longer xs ys x n m e h k = omega (arith, ap length e, length-append xs (x ∷ []), h, k)

pub started : (s : BasicMachine) → IsTraced s → Running s [] s
started s traced = record {
  clock = refl;
  registers = refl;
  operations = refl;
  instructions = refl;
  same_program = refl;
  logged = traced.logged;
  extends = nothing-Extends s.cpu.clock s.mem.operations;
}

-- The machine after the instruction, with the program chip after its count.
module _ (s u : BasicMachine) (word : InstructionWord) (op : Opcode) (chip : ProgramChip) where
  Finished-Advanced :
      IsTraced s
      → s.cpu.clock + 1 < 2 ^ 32
      → get_instruction s.program.program_rom s.cpu.pc ≡ ok word
      → code op ≡ word.opcode
      → Finished s (accesses_by op word.operands) word u
      → Counts s.cpu.pc s.program chip
      → Advanced s (record u { program = chip })
  Finished-Advanced traced room fetched decoded finished counted =
      let clock : u.cpu.clock ≡ s.cpu.clock + 1 = omega (arith, finished.clock, room) in
      record {
        traced = record {
          registers =
              one_longer s.cpu.registers u.cpu.registers _ (s.cpu.clock + 1) (u.cpu.clock + 1)
                finished.registers traced.registers (ap (λ k. k + 1) clock);
          operations =
              one_longer s.cpu.operations u.cpu.operations _ s.cpu.clock u.cpu.clock
                finished.operations traced.operations clock;
          instructions =
              one_longer s.cpu.instructions u.cpu.instructions _ s.cpu.clock u.cpu.clock
                finished.instructions traced.instructions clock;
          counters = counted.counted;
          counted = omega (
            arith,
            one_more s.cpu.pc s.program chip counted (omega (arith, traced.counted, room)),
            traced.counted,
            clock,
          );
          logged = IsLogged-le s.cpu.clock u.cpu.clock u.mem (omega (arith, clock)) finished.logged;
        };
        clock = clock;
        same_rom = counted.same_rom;
        word = word;
        fetched = fetched;
        recorded = finished.instructions;
        counted = counted;
        op = op;
        decoded = decoded;
        extends = finished.extends;
      }

module _ {Adv : Type 0} ⦃p : AdviceProvider Adv⦄ where
  -- A step that returns, before the clock wraps, keeps the saved registers one more than the
  -- cycles of the clock, the other traces as long as the clock, the sum of the counters equal to
  -- it, and the memory explained by its log; it adds one cycle, appends the fetched instruction,
  -- counts it, keeps the program, and logs the reads and writes of its opcode, in their order and
  -- no others, at the end of the entry of the cycle it began in.
  pub step-Advanced :
      (adv adv' : Adv) (s t : BasicMachine) (flag : StoppingFlag)
      → IsTraced s
      → s.cpu.clock + 1 < 2 ^ 32
      → step adv s ≡ ok (flag, adv', t)
      → Advanced s t
  step-Advanced adv adv' s t flag traced room e =
      let d = step-Stepped adv adv' s t flag e in
      let finished =
        execute_with_advice-Finished s d.op (d.word.operands) adv adv' s (d.executed)
          (started s traced) d.runs in
      subst (Advanced s) (sym d.result) (
        Finished-Advanced s d.executed d.word d.op d.chip traced room d.fetched d.decoded
          (subst
            (λ c.
              Finished s (accesses_by d.op d.word.operands)
                (record { opcode = c; operands = d.word.operands }) d.executed)
            d.decoded finished)
          (read_word-Counts s.cpu.pc s.program d.chip traced.counters
            (subst (λ c. read_word s.cpu.pc c ≡ ok d.chip) finished.same_program d.read)))
