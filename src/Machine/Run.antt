-- ===== src/Machine/Run.antt =====
-- basic/src/lib.rs: `run`, the loop of steps up to `STOP`, and the padding after it.
use valida.Prelude.{
  ℕ, zero, suc, ◌+◌, ◌-◌, ◌*◌, ◌%◌, ◌^◌, Option, none, some, Outcome, ok, panic, leb, if◌then◌else◌,
  ◌>>=◌,
}
use valida.Chips.Advice.{AdviceProvider}
use valida.Chips.StaticData.{initialize_cells}
use valida.Machine.{BasicMachine}
use valida.Machine.Step.{did_stop, did_not_stop, step, count_word}

unfoldable pub initialize_memory : BasicMachine → BasicMachine
initialize_memory s = record s { mem = initialize_cells s.static_data s.mem }

unfoldable pub double_up : ℕ → ℕ → ℕ → ℕ
double_up zero power n = power
double_up (suc k) power n =
    let rest = double_up k (2 * power) n in if leb n power then power else rest

-- `u32::next_power_of_two`: the least power of two that is not below, or 0 where it has 33 bits,
-- in a release build.
unfoldable pub next_power_of_two : ℕ → ℕ
unfolding double_up
next_power_of_two n = double_up 32 1 n % 2 ^ 32

-- `usize::next_power_of_two`
unfoldable pub next_power_of_two_usize : ℕ → ℕ
unfolding double_up
next_power_of_two_usize n = double_up 64 1 n % 2 ^ 64

module _ {Adv : Type 0} ⦃p : AdviceProvider Adv⦄ where
  -- The loop, with fuel; `none` when it runs out.
  unfoldable pub run_steps : ℕ → Adv → BasicMachine → Option (Outcome (Adv × BasicMachine))
  run_steps zero adv s = none
  run_steps (suc fuel) adv s = elim (step adv s) [
    | panic e ↦ some (panic e)
    | ok (flag, adv', t) ↦ elim flag [
      | did_stop ↦ some (ok (adv', t))
      | did_not_stop ↦ run_steps fuel adv' t
    ]
  ]

-- The `for` loop that counts the padded `STOP` instructions.
unfoldable pub count_padding : ℕ → BasicMachine → Outcome BasicMachine
count_padding zero s = ok s
count_padding (suc n) s = count_word s.cpu.pc s >>= λ t. count_padding n t

unfoldable pub padding : ℕ → ℕ
padding clock = (next_power_of_two clock + 2 ^ 32 - clock) % 2 ^ 32

module _ {Adv : Type 0} ⦃p : AdviceProvider Adv⦄ where
  unfoldable pub run : ℕ → Adv → BasicMachine → Option (Outcome (Adv × BasicMachine))
  run fuel adv s = elim (run_steps fuel adv (initialize_memory s)) [
    | none ↦ none
    | some (panic e) ↦ some (panic e)
    | some (ok (adv', t)) ↦ some (count_padding (padding t.cpu.clock) t >>= λ u. ok (adv', u))
  ]
