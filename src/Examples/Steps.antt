-- ===== src/Examples/Steps.antt =====
-- Examples of one instruction and of one step.
use valida.Memory.Entries.{writing}
use valida.Prelude.{[], ◌∷◌, ◌≡◌, refl, arith, ok, panic, Outcome}
use valida.Prelude.BTreeMap.{get, insert}
use valida.Opcode.{Opcode, code, try_from}
use valida.Program.{get_instruction, read_word}
use valida.Memory.{write_cell, log_operation, push_entry}
use valida.Chips.Cpu.{push_op, increment_pc, save_register_state}
use valida.Chips.Advice.{FixedAdviceProvider, fixed_advice}
use valida.Machine
use valida.Machine.{BasicMachine, get_cpu, write, update_cpu}
use valida.Machine.Exec.Core
use valida.Machine.Exec.Core.{advance}
use valida.Machine.Step.{execute, execute_with_advice, count_word, step, StoppingFlag, did_not_stop}
use valida.Machine.Hoare.Trace.{Finished}
use valida.Machine.Invariant.{execute_with_advice-Finished}
use valida.Machine.Invariant.Steps.{Advanced, step-Advanced, started}
use valida.Isa.Ops.{perform}
use valida.Refine.{view, Agrees}
use valida.Refine.Step.{execute-Agrees}
use valida.Examples.{sum_machine, operands, instruction}
use valida.Examples.Runs.{no_advice, sum_machine-IsTraced, sum_machine-IsMachine, small}

abbrev executed : Outcome (FixedAdviceProvider × BasicMachine) → BasicMachine
executed (ok (adv, t)) = t
executed (panic e) = sum_machine

abbrev stepped : Outcome (StoppingFlag × FixedAdviceProvider × BasicMachine) → BasicMachine
stepped (ok (flag, adv, t)) = t
stepped (panic e) = sum_machine

abbrev five_word : Outcome (FixedAdviceProvider × BasicMachine)
five_word = execute_with_advice Opcode.imm32 (operands 4 0 0 0 5) no_advice sum_machine

five_word_returns : five_word ≡ ok (no_advice, executed five_word)
unfolding step get_instruction try_from code execute execute_with_advice count_word read_word
    Core.imm32 Machine.◌>>=◌ Machine.◌>>◌ get_cpu write update_cpu advance push_op increment_pc
    save_register_state write_cell log_operation push_entry insert get
five_word_returns = refl

first_step_returns :
    step no_advice sum_machine ≡ ok (did_not_stop, no_advice, stepped (step no_advice sum_machine))
unfolding step get_instruction try_from code execute execute_with_advice count_word read_word
    Core.imm32 Machine.◌>>=◌ Machine.◌>>◌ get_cpu write update_cpu advance push_op increment_pc
    save_register_state write_cell log_operation push_entry insert get
first_step_returns = refl

execute_with_advice-Finished_example :
    Finished sum_machine
      (writing ∷ [])
      (instruction (code Opcode.imm32) (operands 4 0 0 0 5))
      (executed five_word)
execute_with_advice-Finished_example =
    execute_with_advice-Finished sum_machine Opcode.imm32 (operands 4 0 0 0 5) no_advice no_advice
      sum_machine (executed five_word) (started sum_machine sum_machine-IsTraced) five_word_returns

step-Advanced_example : Advanced sum_machine (stepped (step no_advice sum_machine))
step-Advanced_example =
    step-Advanced no_advice no_advice sum_machine (stepped (step no_advice sum_machine))
      did_not_stop sum_machine-IsTraced (omega arith) first_step_returns

execute-Agrees_example :
    Agrees
      (execute Opcode.imm32 (operands 4 0 0 0 5) sum_machine)
      (perform Opcode.imm32 (operands 4 0 0 0 5) (view sum_machine))
execute-Agrees_example =
    execute-Agrees Opcode.imm32 (operands 4 0 0 0 5) sum_machine
      (small 4 0 0 0 5 (omega arith) (omega arith) (omega arith) (omega arith) (omega arith))
      sum_machine-IsMachine
