-- ===== src/Refine/Step/Loop.antt =====
-- basic/src/lib.rs, `run`: the machine's loop of steps refines the specification's run.
use valida.Prelude.{
  ℕ, zero, suc, ◌+◌, ◌^◌, ◌<◌, ◌≡◌, refl, arith, Option, none, some, Outcome, ok, panic, Panic,
}
use valida.Program.{ProgramRom}
use valida.Chips.Advice.{AdviceProvider}
use valida.Machine.{BasicMachine}
use valida.Machine.Step.{StoppingFlag, did_stop, did_not_stop, step}
use valida.Machine.Run.{run_steps}
use valida.Machine.Invariant.{IsTraced}
use valida.Machine.Invariant.Steps.{step-Advanced}
use valida.Isa.{Arch}
use valida.Isa.Run as IsaRun
use valida.Refine.{view, IsMachine}
use valida.Refine.Step.Run.{IsRom, GivesBytes, StepAgrees, both_fail, both_go, step-StepAgrees}
use mathlib.Core.Path.{subst}

-- Both runs use up the fuel, or fail, or stop in one state with one tape.
pub data LoopAgrees {Adv : Type 0}
    : Option (Outcome (Adv × BasicMachine)) → Option (Option (Adv × Arch)) → Type 0 where
  both_run : LoopAgrees none none
  both_panic : (e : Panic) → LoopAgrees (some (panic e)) (some none)
  both_stop :
      (adv : Adv) (t : BasicMachine)
      → IsMachine t
      → LoopAgrees (some (ok (adv, t))) (some (some (adv, view t)))

module _ {Adv : Type 0} ⦃p : AdviceProvider Adv⦄ (Valid : Adv → Type 0)
    (bytes : GivesBytes p Valid) where
  -- The loops after a step on which they agree.
  after_step :
      (rom : ProgramRom) (fuel : ℕ) (adv : Adv) (s : BasicMachine)
      (r : Outcome (StoppingFlag × Adv × BasicMachine)) (o : Option (StoppingFlag × Adv × Arch))
      → ((adv' : Adv) (t : BasicMachine)
          → step adv s ≡ ok (did_not_stop, adv', t)
          → IsMachine t
          → Valid adv'
          → LoopAgrees (run_steps fuel adv' t) (IsaRun.run rom fuel adv' (view t)))
      → step adv s ≡ r
      → IsaRun.step rom adv (view s) ≡ o
      → StepAgrees Valid r o
      → LoopAgrees (run_steps (suc fuel) adv s) (IsaRun.run rom (suc fuel) adv (view s))
  unfolding run_steps IsaRun.run
  after_step rom fuel adv s r o rest h k (both_fail e) =
      rw (run_steps, h, IsaRun.run, k) (both_panic e)
  after_step rom fuel adv s r o rest h k (both_go did_stop adv' t wf valid) =
      rw (run_steps, h, IsaRun.run, k) (both_stop adv' t wf)
  after_step rom fuel adv s r o rest h k (both_go did_not_stop adv' t wf valid) =
      rw (run_steps, h, IsaRun.run, k) (rest adv' t h wf valid)

  -- From a machine between two steps whose program's operands are 32-bit numbers, with fuel below
  -- the cycles that are left before the clock wraps and a tape of bytes, the code's loop and the
  -- specification's run agree: both use up the fuel, or the code panics where the specification
  -- faults, or both stop with the same tape, and the machine has the specification's registers,
  -- memory values and output.
  pub run_steps-LoopAgrees :
      (rom : ProgramRom) (fuel : ℕ) (adv : Adv) (s : BasicMachine)
      → IsMachine s
      → IsTraced s
      → s.program.program_rom ≡ rom
      → IsRom rom
      → s.cpu.clock + fuel < 2 ^ 32
      → Valid adv
      → LoopAgrees (run_steps fuel adv s) (IsaRun.run rom fuel adv (view s))
  unfolding run_steps IsaRun.run
  run_steps-LoopAgrees rom zero adv s wf traced same fits room valid = both_run
  run_steps-LoopAgrees rom (suc fuel) adv s wf traced same fits room valid =
      after_step rom fuel adv s _ _
        (λ adv' t e wf' valid'.
          let a = step-Advanced adv adv' s t did_not_stop traced (omega arith) e in
          run_steps-LoopAgrees rom fuel adv' t wf' a.traced (cc (a.same_rom, same)) fits
            (omega (arith, a.clock)) valid')
        refl refl
        (subst (λ x. StepAgrees Valid (step adv s) (IsaRun.step x adv (view s))) same
          (step-StepAgrees Valid bytes adv s wf traced (subst IsRom (cc same) fits) valid))
