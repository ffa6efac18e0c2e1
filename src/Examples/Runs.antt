-- ===== src/Examples/Runs.antt =====
-- Tests and examples of the machine: its instructions, its steps and its run.
use valida.Prelude.{ℕ, [], ◌∷◌, ◌^◌, ◌<◌, ◌≡◌, refl, arith, some, ok, Option, Outcome}
use valida.Prelude.BTreeMap.{get, insert}
use valida.Opcode.{code, try_from}
use valida.Program.{IsOperands, get_instruction, read_word}
use valida.Program.Counts.{total}
use valida.Memory.Log.{history, replay, IsHistory}
use valida.Chips.Advice.{FixedAdviceProvider, fixed_advice}
use valida.Word.{into_u32, from_u32}
use valida.Word.Ops
use valida.Memory.{write_cell, read_cell, log_operation, push_entry}
use valida.Chips.Range
use valida.Chips.Range.{count_byte}
use valida.Chips.Cpu.{push_op, push_bus_op, increment_pc, save_register_state}
use valida.Chips.StaticData.{initialize_cells}
use valida.Machine
use valida.Machine.{BasicMachine, get_cpu, write, read, update_cpu, lift}
use valida.Machine.Exec.Core
use valida.Machine.Exec.Core.{advance, second_operand}
use valida.Machine.Exec.Alu
use valida.Machine.Exec.Alu.{binary_op, push_add}
use valida.Machine.Exec.Write.{write_output, push_output, assert}
use valida.Machine.Run.{run, run_steps, initialize_memory}
use valida.Machine.Step.{execute, execute_with_advice, count_word, step}
use valida.Machine.Invariant.{IsTraced}
use valida.Machine.Invariant.Whole.{
  IsLoaded, Completed, run-Completed, initialize_memory-IsTraced, Padded, count_padding-Padded,
}
use valida.Machine.Invariant.Loop.{Within, run_steps_sound, RanFrom, Steps-RanFrom}
use valida.Isa.Run as IsaRun
use valida.Refine.{view, IsMachine}
use valida.Refine.Step.Run.{IsRom, StepAgrees, step-StepAgrees}
use valida.Refine.Step.Loop.{LoopAgrees, run_steps-LoopAgrees}
use valida.Refine.Step.Inputs.{All-IsRom, HasBytes, fixed_advice-GivesBytes}
use valida.Examples.{sum_machine, sum_program}

abbrev pub no_advice : FixedAdviceProvider
no_advice = record { advice = []; index = 0 }

pub sum_machine-IsMachine : IsMachine sum_machine
unfolding get
sum_machine-IsMachine = record { cells_fit = λ addr w e. cc e }

pub sum_machine-IsTraced : IsTraced sum_machine
unfolding history replay IsHistory total
sum_machine-IsTraced = record {
  registers = refl;
  operations = refl;
  instructions = refl;
  counters = record { each = refl };
  counted = refl;
  logged = record { sorted = tt; in_time = tt; explained = tt; current = λ addr. refl };
}

pub small :
    (a b c d e : ℕ)
    → a < 2 ^ 32
    → b < 2 ^ 32
    → c < 2 ^ 32
    → d < 2 ^ 32
    → e < 2 ^ 32
    → IsOperands (record { a = a; b = b; c = c; d = d; e = e })
small a b c d e fa fb fc fd fe = record {
  fits_a = fa;
  fits_b = fb;
  fits_c = fc;
  fits_d = fd;
  fits_e = fe;
}

sum_program-IsRom : IsRom sum_program
sum_program-IsRom = All-IsRom sum_program (
  small 4 0 0 0 5 (omega arith) (omega arith) (omega arith) (omega arith) (omega arith),
  (
    small 8 0 0 0 7 (omega arith) (omega arith) (omega arith) (omega arith) (omega arith),
    (
      small 12 4 8 0 0 (omega arith) (omega arith) (omega arith) (omega arith) (omega arith),
      (
        small 0 12 0 0 1 (omega arith) (omega arith) (omega arith) (omega arith) (omega arith),
        (small 0 0 0 0 0 (omega arith) (omega arith) (omega arith) (omega arith) (omega arith), tt),
      ),
    ),
  ),
)

run_steps-LoopAgrees_example :
    LoopAgrees
      (run_steps 5 no_advice sum_machine)
      (IsaRun.run sum_program 5 no_advice (view sum_machine))
run_steps-LoopAgrees_example =
    run_steps-LoopAgrees HasBytes fixed_advice-GivesBytes sum_program 5 no_advice sum_machine
      sum_machine-IsMachine sum_machine-IsTraced refl sum_program-IsRom (omega arith) tt

step-StepAgrees_example :
    StepAgrees HasBytes
      (step no_advice sum_machine)
      (IsaRun.step sum_program no_advice (view sum_machine))
step-StepAgrees_example =
    step-StepAgrees HasBytes fixed_advice-GivesBytes no_advice sum_machine sum_machine-IsMachine
      sum_machine-IsTraced sum_program-IsRom tt

sum_machine-IsLoaded : IsLoaded sum_machine
unfolding total
sum_machine-IsLoaded = record {
  clock = refl;
  registers = refl;
  operations = refl;
  instructions = refl;
  counters = record { each = refl };
  counted = refl;
  nothing_logged = refl;
  static_cells = λ addr. refl;
}

abbrev state_of : Option (Outcome (FixedAdviceProvider × BasicMachine)) → BasicMachine
state_of (some (ok (adv, t))) = t
state_of _ = sum_machine

abbrev pub sum_final : BasicMachine
sum_final = state_of (run_steps 5 no_advice (initialize_memory sum_machine))

pub sum_returns :
    run_steps 5 no_advice (initialize_memory sum_machine) ≡ some (ok (no_advice, sum_final))
unfolding run_steps step get_instruction try_from code execute execute_with_advice count_word
    read_word Core.imm32 Core.stop Machine.◌>>=◌ Machine.◌>>◌ get_cpu write read update_cpu
    Machine.range_check lift advance push_op increment_pc save_register_state push_bus_op write_cell
    read_cell log_operation push_entry insert get Alu.add32 binary_op push_add second_operand
    Ops.add into_u32 from_u32 write_output push_output assert Range.range_check count_byte
    initialize_memory initialize_cells
sum_returns = refl

sum_output : sum_final.output ≡ (3, 12) ∷ []
unfolding run_steps step get_instruction try_from code execute execute_with_advice count_word
    read_word Core.imm32 Core.stop Machine.◌>>=◌ Machine.◌>>◌ get_cpu write read update_cpu
    Machine.range_check lift advance push_op increment_pc save_register_state push_bus_op write_cell
    read_cell log_operation push_entry insert get Alu.add32 binary_op push_add second_operand
    Ops.add into_u32 from_u32 write_output push_output assert Range.range_check count_byte
    initialize_memory initialize_cells
sum_output = refl

abbrev sum_steps : Within 5 no_advice (initialize_memory sum_machine) no_advice sum_final
sum_steps =
    run_steps_sound 5 no_advice no_advice (initialize_memory sum_machine) sum_final sum_returns

run-Completed_example :
    Completed (sum_steps.0) sum_machine sum_final no_advice (run 5 no_advice sum_machine)
run-Completed_example =
    run-Completed sum_steps.0 5 no_advice no_advice sum_machine sum_final sum_machine-IsLoaded
      sum_steps.2 sum_steps.1 (omega (arith, sum_steps.1))

Steps-RanFrom_example : RanFrom (sum_steps.0) (initialize_memory sum_machine) sum_final
unfolding initialize_memory
Steps-RanFrom_example =
    Steps-RanFrom sum_steps.2 (initialize_memory-IsTraced sum_machine sum_machine-IsLoaded)
      (omega (arith, sum_steps.1))

count_padding-Padded_example : Padded 3 sum_machine
unfolding total
count_padding-Padded_example =
    count_padding-Padded 3 sum_machine (record { each = refl }) (omega arith) (omega arith)
