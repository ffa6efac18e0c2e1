-- ===== src/Machine/Invariant/Loop.antt =====
-- basic/src/lib.rs, `run`: the loop of steps, as a relation that needs no fuel, and the traces over
-- the loop.
use valida.Prelude.{
  ℕ, zero, suc, ◌+◌, ◌^◌, ◌≤◌, ◌<◌, ◌≡◌, refl, sym, ◌∙◌, arith, some, ok, panic, Panic,
  Outcome-cases, inl, inr,
}
use valida.Chips.Advice.{AdviceProvider}
use valida.Machine.{BasicMachine}
use valida.Machine.Step.{StoppingFlag, did_stop, did_not_stop, step}
use valida.Machine.Run.{run_steps}
use valida.Machine.Invariant.{IsTraced}
use valida.Machine.Invariant.Steps.{step-Advanced}

-- What a run of `n` steps has done.
pub record RanFrom (n : ℕ) (s t : BasicMachine) : Type 0 where
  pub traced : IsTraced t
  pub clock : t.cpu.clock ≡ s.cpu.clock + n
  pub same_rom : t.program.program_rom ≡ s.program.program_rom

module _ {Adv : Type 0} ⦃p : AdviceProvider Adv⦄ where
  -- `n` steps, of which the last stops.
  pub data Steps : ℕ → Adv → BasicMachine → Adv → BasicMachine → Type 0 where
    stop :
        {adv adv' : Adv} {s t : BasicMachine}
        → step adv s ≡ ok (did_stop, adv', t)
        → Steps 1 adv s adv' t
    go_on :
        {n : ℕ} {adv adv' adv'' : Adv} {s t u : BasicMachine}
        → step adv s ≡ ok (did_not_stop, adv', t)
        → Steps n adv' t adv'' u
        → Steps (suc n) adv s adv'' u

  -- `n` steps, the last of which stops, from a machine between two steps whose clock does not
  -- wrap in them, end in such a machine again, `n` cycles later and with the same program.
  pub Steps-RanFrom :
      {n : ℕ} {adv adv' : Adv} {s t : BasicMachine}
      → Steps n adv s adv' t
      → IsTraced s
      → s.cpu.clock + n < 2 ^ 32
      → RanFrom n s t
  Steps-RanFrom (stop e) traced room =
      let a = step-Advanced _ _ _ _ did_stop traced room e in
      record { traced = a.traced; clock = a.clock; same_rom = a.same_rom }
  Steps-RanFrom (go_on e rest) traced room =
      let a = step-Advanced _ _ _ _ did_not_stop traced (omega arith) e in
      let r = Steps-RanFrom rest a.traced (omega (arith, a.clock)) in
      record {
        traced = r.traced;
        clock = omega (arith, a.clock, r.clock);
        same_rom = r.same_rom ∙ a.same_rom;
      }

  -- How the loop goes on from each outcome of a step.
  run_steps_panic :
      (fuel : ℕ) (adv : Adv) (s : BasicMachine) (e : Panic)
      → step adv s ≡ panic e
      → run_steps (suc fuel) adv s ≡ some (panic e)
  unfolding run_steps
  run_steps_panic fuel adv s e h = rw (run_steps, h) refl

  run_steps_stop :
      (fuel : ℕ) (adv adv' : Adv) (s t : BasicMachine)
      → step adv s ≡ ok (did_stop, adv', t)
      → run_steps (suc fuel) adv s ≡ some (ok (adv', t))
  unfolding run_steps
  run_steps_stop fuel adv adv' s t h = rw (run_steps, h) refl

  run_steps_go :
      (fuel : ℕ) (adv adv' : Adv) (s t : BasicMachine)
      → step adv s ≡ ok (did_not_stop, adv', t)
      → run_steps (suc fuel) adv s ≡ run_steps fuel adv' t
  unfolding run_steps
  run_steps_go fuel adv adv' s t h = rw (run_steps, h) refl

  -- Where `n` steps end with one that stops, the loop with any fuel from `n` on returns their
  -- result.
  pub run_steps_complete :
      (fuel : ℕ) {n : ℕ} {adv adv' : Adv} {s t : BasicMachine}
      → Steps n adv s adv' t
      → n ≤ fuel
      → run_steps fuel adv s ≡ some (ok (adv', t))
  run_steps_complete zero (stop e) h = absurd (omega arith)
  run_steps_complete (suc fuel) (stop e) h = run_steps_stop fuel _ _ _ _ e
  run_steps_complete zero (go_on e rest) h = absurd (omega arith)
  run_steps_complete (suc fuel) (go_on e rest) h =
      run_steps_go fuel _ _ _ _ e ∙ run_steps_complete fuel rest (omega arith)

  abbrev pub Within : ℕ → Adv → BasicMachine → Adv → BasicMachine → Type 0
  Within fuel adv s adv' t = (n : ℕ) × (n ≤ fuel) × Steps n adv s adv' t

  -- From the outcome of the first step, and from what holds of the rest.
  from_step :
      (fuel : ℕ) (adv adv' : Adv) (s t : BasicMachine) (flag : StoppingFlag) (next : Adv)
      (u : BasicMachine)
      → (run_steps fuel next u ≡ some (ok (adv', t)) → Within fuel next u adv' t)
      → step adv s ≡ ok (flag, next, u)
      → run_steps (suc fuel) adv s ≡ some (ok (adv', t))
      → Within (suc fuel) adv s adv' t
  from_step fuel adv adv' s t did_stop next u rest h e =
      (1, omega arith, stop (cc (h, e, run_steps_stop fuel adv next s u h)))
  from_step fuel adv adv' s t did_not_stop next u rest h e =
      let (n, le, steps) = rest (sym (run_steps_go fuel adv next s u h) ∙ e) in
      (suc n, omega (arith, le), go_on h steps)

  -- Where the loop returns a machine, that machine is reached by steps of which only the last
  -- stops, and these are no more than the fuel.
  pub run_steps_sound :
      (fuel : ℕ) (adv adv' : Adv) (s t : BasicMachine)
      → run_steps fuel adv s ≡ some (ok (adv', t))
      → Within fuel adv s adv' t
  unfolding run_steps
  run_steps_sound zero adv adv' s t e = cc e
  run_steps_sound (suc fuel) adv adv' s t e = elim (Outcome-cases (step adv s)) [
    | inl (x, h) ↦ absurd (cc (e, run_steps_panic fuel adv s x h))
    | inr ((flag, next, u), h) ↦
        from_step fuel adv adv' s t flag next u (run_steps_sound fuel next adv' u t) h e
  ]
