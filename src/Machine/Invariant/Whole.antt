-- ===== src/Machine/Invariant/Whole.antt =====
-- basic/src/lib.rs, `run`: from the loaded machine to the padded counters.
use valida.Prelude.{
  ℕ, zero, suc, ◌+◌, ◌^◌, ◌≤◌, ◌<◌, ◌≡◌, ◌≢◌, get_elem?, refl, ap, sym, ◌∙◌, arith, Option, some,
  Outcome, ok, panic, length, ◌>>=◌, [], ◌∷◌, if◌then◌else◌, ◌==◌, ==_iff, Bool-cases, inl, inr,
}
use valida.Prelude.BTreeMap.{get, get-insert}
use valida.Opcode.{Opcode, code}
use valida.Opcode.Codes.{code-injective}
use valida.Program.{Operands, ProgramChip}
use valida.Program.Counts.{
  IsCounted, one_more, one_count, read_word_total, read_word-Counts, total, counted_at,
}
use valida.Memory.{MemoryChip, write_static}
use valida.Memory.Log.{IsLogged, history, replay, IsHistory}
use valida.Chips.Advice.{AdviceProvider}
use valida.Chips.StaticData.{StaticDataChip, initialize_cells}
use valida.Chips.Cpu.{push_op, save_register_state}
use valida.Machine.{BasicMachine, update_cpu}
use valida.Machine.Exec.Core
use valida.Machine.Step.{did_stop, did_not_stop, execute, execute_with_advice, count_word, step}
use valida.Machine.Run.{
  initialize_memory, run_steps, count_padding, padding, next_power_of_two, run,
}
use valida.Machine.Invariant.{IsTraced, step-Stepped}
use valida.Machine.Invariant.Loop.{Steps, stop, go_on, Steps-RanFrom, run_steps_complete}
use valida.Machine.Invariant.Steps.{step-Advanced}
use valida.Machine.Invariant.Padding.{next_power_of_two-IsNextPower, padding_lem}
use mathlib.Core.Path.{subst}

-- The machine before a run, as its callers prepare it: no cycle has passed, `save_register_state`
-- has been called once, and the memory holds what its static data says.
pub record IsLoaded (s : BasicMachine) : Type 0 where
  pub clock : s.cpu.clock ≡ 0
  pub registers : s.cpu.registers ≡ record { pc = s.cpu.pc; fp = s.cpu.fp } ∷ []
  pub operations : s.cpu.operations ≡ []
  pub instructions : s.cpu.instructions ≡ []
  pub counters : IsCounted s.program
  pub counted : total s.program.counts ≡ 0
  pub nothing_logged : s.mem.operations ≡ []
  pub static_cells : (addr : ℕ) → get addr s.mem.static_data ≡ get addr s.mem.cells

-- Both maps of the memory get the cells.
initialize_cells_lem :
    (cells : StaticDataChip) (m : MemoryChip)
    → m.operations ≡ []
    → ((addr : ℕ) → get addr m.static_data ≡ get addr m.cells)
    → ((initialize_cells cells m).operations ≡ [])
      × ((addr : ℕ)
          → get addr (initialize_cells cells m).static_data
            ≡ get addr (initialize_cells cells m).cells)
unfolding initialize_cells write_static
initialize_cells_lem [] m none_yet same = (none_yet, same)
initialize_cells_lem ((a, value) ∷ rest) m none_yet same =
    initialize_cells_lem rest (write_static a value m) none_yet λ addr.
      get-insert a addr value m.static_data
      ∙ ap (λ o. if addr == a then some value else o) (same addr)
      ∙ sym (get-insert a addr value m.cells)

nothing-IsLogged :
    (clk : ℕ) (m : MemoryChip)
    → m.operations ≡ []
    → ((addr : ℕ) → get addr m.static_data ≡ get addr m.cells)
    → IsLogged clk m
unfolding history replay IsHistory
nothing-IsLogged clk m e same = record {
  sorted = rw e tt;
  in_time = rw e tt;
  explained = rw e tt;
  current = λ addr. rw e (same addr);
}

pub initialize_memory-IsTraced : (s : BasicMachine) → IsLoaded s → IsTraced (initialize_memory s)
unfolding initialize_memory
initialize_memory-IsTraced s h =
    let m = initialize_cells_lem s.static_data s.mem h.nothing_logged h.static_cells in
    record {
      registers = ap length h.registers ∙ ap (λ k. k + 1) (sym h.clock);
      operations = ap length h.operations ∙ sym h.clock;
      instructions = ap length h.instructions ∙ sym h.clock;
      counters = h.counters;
      counted = h.counted ∙ sym h.clock;
      logged = nothing-IsLogged s.cpu.clock _ m.0 m.1;
    }

-- The padding counts the instruction at the last `pc`.
pub record Padded (n : ℕ) (s : BasicMachine) : Type 0 where
  pub chip : ProgramChip
  pub runs : count_padding n s ≡ ok (record s { program = chip })
  pub same_rom : chip.program_rom ≡ s.program.program_rom
  pub counters : IsCounted chip
  pub padded : total chip.counts ≡ total s.program.counts + n
  pub elsewhere : (j : ℕ) → s.cpu.pc ≢ j → get_elem? chip.counts j ≡ get_elem? s.program.counts j
  pub at_pc :
      (c : ℕ)
      → get_elem? s.program.counts s.cpu.pc ≡ some c
      → get_elem? chip.counts s.cpu.pc ≡ some (c + n)

-- With one counter for each instruction, `pc` inside the program and room in the counters, the
-- padding returns: it changes the program's counters alone, adding its length to the one of the
-- instruction at `pc`, so that their sum grows by that length.
pub count_padding-Padded :
    (n : ℕ) (s : BasicMachine)
    → IsCounted s.program
    → s.cpu.pc < length s.program.program_rom
    → total s.program.counts + n < 2 ^ 32
    → Padded n s
unfolding count_padding count_word
count_padding-Padded zero s counters inside room = record {
  chip = s.program;
  runs = refl;
  same_rom = refl;
  counters = counters;
  padded = omega arith;
  elsewhere = λ j ne. refl;
  at_pc = λ c e. e ∙ ap some (omega arith);
}
count_padding-Padded (suc n) s counters inside room =
    let (c, found, e) = read_word_total s.cpu.pc s.program counters inside in
    let next = counted_at s.program s.cpu.pc c in
    let k = read_word-Counts s.cpu.pc s.program next counters e in
    let rest =
      count_padding-Padded n (record s { program = next }) k.counted inside
        (omega (arith, one_more s.cpu.pc s.program next k (omega (arith, room)))) in
    record {
      chip = rest.chip;
      runs = rw e (rest.runs);
      same_rom = rest.same_rom ∙ k.same_rom;
      counters = rest.counters;
      elsewhere = λ j ne. rest.elsewhere j ne ∙ k.elsewhere j ne;
      at_pc = λ d e.
          rest.at_pc (d + 1) (one_count s.cpu.pc s.program next d k (omega (arith, room)) e)
          ∙ ap some (omega arith);
      padded = omega (arith, rest.padded, one_more s.cpu.pc s.program next k (omega (arith, room)));
    }

-- `stop` leaves `pc` where it is.
stop_pc :
    {Adv : Type 0} ⦃p : AdviceProvider Adv⦄ (ops : Operands) (adv adv' : Adv) (s u : BasicMachine)
    → execute_with_advice Opcode.stop ops adv s ≡ ok (adv', u)
    → u.cpu.pc ≡ s.cpu.pc
unfolding execute_with_advice code execute Core.stop update_cpu push_op save_register_state
stop_pc ops adv adv' s u e = ap (λ r. elim r [ ok (a, t) ↦ t.cpu.pc | panic x ↦ 0 ]) (sym e)

flag_stops :
    (word_code : ℕ)
    → did_stop ≡ (if word_code == code Opcode.stop then did_stop else did_not_stop)
    → word_code ≡ code Opcode.stop
flag_stops word_code e = elim (Bool-cases (word_code == code Opcode.stop)) [
  | inl same ↦ (==_iff word_code (code Opcode.stop)).0 same
  | inr other ↦ absurd (cc (e, ap (λ t. if t then did_stop else did_not_stop) other))
]

module _ {Adv : Type 0} ⦃p : AdviceProvider Adv⦄ where
  stop_inside :
      (adv adv' : Adv) (s t : BasicMachine)
      → step adv s ≡ ok (did_stop, adv', t)
      → t.cpu.pc ≡ s.cpu.pc
  stop_inside adv adv' s t e =
      let d = step-Stepped adv adv' s t did_stop e in
      let is_stop =
        code-injective d.op Opcode.stop (d.decoded ∙ flag_stops d.word.opcode d.stops) in
      ap (λ (m : BasicMachine). m.cpu.pc) d.result
      ∙ stop_pc d.word.operands adv adv' s d.executed (
          subst (λ o. execute_with_advice o d.word.operands adv s ≡ ok (adv', d.executed)) is_stop
            d.runs)

  -- The loop ends inside the program.
  Steps-inside :
      {n : ℕ} {adv adv' : Adv} {s t : BasicMachine}
      → Steps n adv s adv' t
      → IsTraced s
      → s.cpu.clock + n < 2 ^ 32
      → t.cpu.pc < length t.program.program_rom
  Steps-inside {n} {adv} {adv'} {s} {t} (stop e) traced room =
      let a = step-Advanced adv adv' s t did_stop traced room e in
      subst (λ k. k < length t.program.program_rom) (sym (stop_inside adv adv' s t e))
        (subst (λ r. s.cpu.pc < length r) (sym a.same_rom) a.counted.inside)
  Steps-inside (go_on e rest) traced room =
      let a = step-Advanced _ _ _ _ did_not_stop traced (omega arith) e in
      Steps-inside rest a.traced (omega (arith, a.clock))

  Steps-positive : {n : ℕ} {adv adv' : Adv} {s t : BasicMachine} → Steps n adv s adv' t → 1 ≤ n
  Steps-positive (stop e) = omega arith
  Steps-positive (go_on e rest) = omega arith

  -- A whole run.
  pub record Completed (n : ℕ) (s t : BasicMachine) (adv' : Adv)
      (r : Option (Outcome (Adv × BasicMachine))) : Type 0 where
    pub chip : ProgramChip
    pub returns : r ≡ some (ok (adv', record t { program = chip }))
    pub clock : t.cpu.clock ≡ n
    pub padded : total chip.counts ≡ next_power_of_two n
    pub same_rom : chip.program_rom ≡ s.program.program_rom
    pub traced : IsTraced t

  run_lem :
      (fuel : ℕ) (adv adv' : Adv) (s t : BasicMachine)
      → run_steps fuel adv (initialize_memory s) ≡ some (ok (adv', t))
      → run fuel adv s ≡ some (count_padding (padding t.cpu.clock) t >>= λ u. ok (adv', u))
  unfolding run
  run_lem fuel adv adv' s t e = rw (run, e) refl

  -- Where the loop of a loaded machine, whose registers have been saved once, stops after `n`
  -- steps, `n` at most 2 ^ 31 and at most the fuel, the whole run returns: it ends in the machine
  -- of the last step, with `n` cycles on its clock and the program as it was loaded, and the
  -- program's counters sum to the least power of two that is not below `n`.
  pub run-Completed :
      (n fuel : ℕ) (adv adv' : Adv) (s t : BasicMachine)
      → IsLoaded s
      → Steps n adv (initialize_memory s) adv' t
      → n ≤ fuel
      → n ≤ 2 ^ 31
      → Completed n s t adv' (run fuel adv s)
  unfolding initialize_memory
  run-Completed n fuel adv adv' s t loaded steps enough small =
      let begun = initialize_memory-IsTraced s loaded in
      let ran = Steps-RanFrom steps begun (omega (arith, loaded.clock)) in
      let clock : t.cpu.clock ≡ n = omega (arith, ran.clock, loaded.clock) in
      let pos = Steps-positive steps in
      let power = next_power_of_two-IsNextPower n pos small in
      let pad : n + padding n ≡ next_power_of_two n = padding_lem n pos small in
      let q =
        count_padding-Padded (padding n) t ran.traced.counters
          (Steps-inside steps begun (omega (arith, loaded.clock)))
          (omega (arith, ran.traced.counted, clock, pad, power.least)) in
      record {
        chip = q.chip;
        returns =
            run_lem fuel adv adv' s t (run_steps_complete fuel steps enough)
            ∙ ap (λ k. some (count_padding (padding k) t >>= λ u. ok (adv', u))) clock
            ∙ ap (λ r. some (r >>= λ u. ok (adv', u))) q.runs;
        clock = clock;
        padded = omega (arith, q.padded, ran.traced.counted, clock, pad);
        traced = ran.traced;
        same_rom = q.same_rom ∙ ran.same_rom;
      }
