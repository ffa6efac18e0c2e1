-- ===== src/Machine/Hoare/Trace/Actions.antt =====
-- The rule of each action for the traces.
use valida.Prelude.{
  ℕ, ◌+◌, ◌%◌, ◌^◌, ◌≡◌, refl, ap, sym, ◌∙◌, List, [], ◌∷◌, ◌++◌, Bool, true, false, Option, none,
  some, Outcome, ok, panic, read_before_write, ◌==◌, if◌then◌else◌, Option-cases, inl, inr,
}
use valida.Prelude.BTreeMap.{get}
use valida.Word.{Word, from_u32}
use valida.Opcode.{Opcode, code}
use valida.Program.{Operands, InstructionWord}
use valida.Memory.{
  MemoryChip, Operation as MemoryOperation, log_operation, push_entry, write_cell, read_cell,
  read_or_init, zero_word,
}
use valida.Memory.Entries.{Extends, Access, reading, writing, access_of, pushed-Extends}
use valida.Memory.Log.{IsLogged, read-IsLogged, write-IsLogged}
use valida.Chips.Cpu.{CpuChip, Operation, increment_pc, push_op, push_bus_op, save_register_state}
use valida.Machine.{
  BasicMachine, M, read, read_init, write, update_cpu, modify, lift, range_check, ◌>>=◌,
}
use valida.Machine.Exec.Core.{advance, set_pc, set_fp, second_operand}
use valida.Machine.Exec.Compare.{first_operand}
use valida.Machine.Exec.Write.{push_output, assert}
use valida.Machine.Hoare.{Triple, Keeps, Triple-bind, Triple-then, Triple-modify, Keeps-lift}
use valida.Machine.Hoare.Trace.{Running, Finished, source}
use mathlib.Core.Path.{subst}
use mathlib.Core.Option.{get_or}
use mathlib.Core.List.{append-nil}

read_empty :
    (clk addr : ℕ) (s : BasicMachine)
    → get addr s.mem.cells ≡ none
    → read clk addr s ≡ panic (read_before_write addr)
unfolding read read_cell
read_empty clk addr s e = rw (e, read_cell)

read_found :
    (clk addr : ℕ) (w : Word ℕ) (s : BasicMachine)
    → get addr s.mem.cells ≡ some w
    → read clk addr s
      ≡ ok (w, record s { mem = log_operation clk (MemoryOperation.read addr w) s.mem })
unfolding read read_cell
read_found clk addr w s e = rw (e, read_cell)

abbrev second_of : {A : Type 0} → BasicMachine → Outcome (A × BasicMachine) → BasicMachine
second_of u (ok (a, t)) = t
second_of u (panic e) = u

same_end :
    {A : Type 0} (r : Outcome (A × BasicMachine)) (u t : BasicMachine) (b a : A)
    → r ≡ ok (b, u)
    → r ≡ ok (a, t)
    → u ≡ t
same_end r u t b a h e = ap (second_of u) (sym h ∙ e)

-- An action that returns in one state returns in no other.
returned :
    {A : Type 0} (P : BasicMachine → Type 0) (r : Outcome (A × BasicMachine)) (u t : BasicMachine)
    (b a : A)
    → r ≡ ok (b, u)
    → r ≡ ok (a, t)
    → P u
    → P t
returned P r u t b a h e p = subst P (same_end r u t b a h e) p

module _ (start : BasicMachine) (ks : List Access) where
  -- A change of the machine that leaves the traces alone.
  module _ (k : BasicMachine → BasicMachine) (mem : (s : BasicMachine) → (k s).mem ≡ s.mem)
      (program : (s : BasicMachine) → (k s).program ≡ s.program)
      (clock : (s : BasicMachine) → (k s).cpu.clock ≡ s.cpu.clock)
      (registers : (s : BasicMachine) → (k s).cpu.registers ≡ s.cpu.registers)
      (operations : (s : BasicMachine) → (k s).cpu.operations ≡ s.cpu.operations)
      (instructions : (s : BasicMachine) → (k s).cpu.instructions ≡ s.cpu.instructions) where
    pub Keeps-change : Keeps (Running start ks) (modify k)
    Keeps-change = Triple-modify _ _ k λ s p. record {
      clock = clock s ∙ p.clock;
      registers = registers s ∙ p.registers;
      operations = operations s ∙ p.operations;
      instructions = instructions s ∙ p.instructions;
      same_program = program s ∙ p.same_program;
      logged = rw (mem s) (p.logged);
      extends = rw (mem s) (p.extends);
    }

  pub set_pc-Keeps : (pc : ℕ) → Keeps (Running start ks) (set_pc pc)
  unfolding set_pc update_cpu
  set_pc-Keeps pc =
      Keeps-change _ (λ s. refl) (λ s. refl) (λ s. refl) (λ s. refl) (λ s. refl) (λ s. refl)

  pub set_fp-Keeps : (fp : ℕ) → Keeps (Running start ks) (set_fp fp)
  unfolding set_fp update_cpu
  set_fp-Keeps fp =
      Keeps-change _ (λ s. refl) (λ s. refl) (λ s. refl) (λ s. refl) (λ s. refl) (λ s. refl)

  pub push_output-Keeps : (clk byte : ℕ) → Keeps (Running start ks) (modify (push_output clk byte))
  unfolding push_output
  push_output-Keeps clk byte =
      Keeps-change (push_output clk byte) (λ s. refl) (λ s. refl) (λ s. refl) (λ s. refl)
        (λ s. refl) (λ s. refl)

  -- A change of the memory that keeps its log.
  with_mem :
      {ks' : List Access} (s : BasicMachine) (m : MemoryChip)
      → Running start ks s
      → IsLogged start.cpu.clock m
      → Extends start.cpu.clock ks' start.mem.operations m.operations
      → Running start ks' (record s { mem = m })
  with_mem s m p logged extends = record {
    clock = p.clock;
    registers = p.registers;
    operations = p.operations;
    instructions = p.instructions;
    same_program = p.same_program;
    logged = logged;
    extends = extends;
  }

  pushed :
      {s : BasicMachine} (p : Running start ks s) (op : MemoryOperation)
      → Extends start.cpu.clock
          (ks ++ access_of op ∷ [])
          start.mem.operations
          (push_entry start.cpu.clock op s.mem.operations)
  pushed {s} p op =
      pushed-Extends start.cpu.clock ks start.mem.operations s.mem op p.logged p.extends

  module _ (clk : ℕ) (now : clk ≡ start.cpu.clock) where
    pub write-Triple :
        (addr : ℕ) (w : Word ℕ)
        → Triple (Running start ks) (write clk addr w) (λ _. Running start (ks ++ writing ∷ []))
    unfolding write write_cell log_operation
    write-Triple addr w = Triple-modify _ _ _ λ s p.
        with_mem s _ p (rw now (write-IsLogged start.cpu.clock s.mem p.logged addr w))
          (rw now (pushed p (MemoryOperation.write addr w)))

    pub read_init-Triple :
        (addr : ℕ)
        → Triple (Running start ks) (read_init clk addr) (λ _. Running start (ks ++ reading ∷ []))
    unfolding read_init read_or_init log_operation
    read_init-Triple addr = record {
      holds = λ s t a p e.
          let value = get_or (get addr s.mem.cells) zero_word in
          returned (Running start (ks ++ reading ∷ [])) (read_init clk addr s) _ t value a refl e (
            with_mem s (log_operation clk (MemoryOperation.read addr value) s.mem) p
              (rw now (read-IsLogged start.cpu.clock s.mem p.logged addr value refl))
              (rw now (pushed p (MemoryOperation.read addr value))));
    }

    pub read-Triple :
        (addr : ℕ)
        → Triple (Running start ks) (read clk addr) (λ _. Running start (ks ++ reading ∷ []))
    unfolding read read_cell log_operation
    read-Triple addr = record {
      holds = λ s t a p e. elim (Option-cases (get addr s.mem.cells)) [
        | inl empty ↦ absurd (cc (e, read_empty clk addr s empty))
        | inr (w, found) ↦
            returned (Running start (ks ++ reading ∷ [])) (read clk addr s) _ t w a
              (read_found clk addr w s found) e
              (with_mem s (log_operation clk (MemoryOperation.read addr w) s.mem) p
                (rw now (
                  read-IsLogged start.cpu.clock s.mem p.logged addr w
                    (ap (λ o. get_or o zero_word) found)))
                (rw now (pushed p (MemoryOperation.read addr w))))
      ];
    }

    -- The operands that may be immediate.
    operand-Triple :
        (imm : Bool) (w : Word ℕ) (addr : ℕ)
        → Triple {A = Word ℕ × Option (Word ℕ)}
            (Running start ks)
            (if imm then lift (ok (w, some w)) else (read clk addr >>= λ c. lift (ok (c, none))))
            (λ _. Running start (ks ++ (if imm then [] else reading ∷ [])))
    operand-Triple true w addr =
        subst
          (λ l.
            Triple {A = Word ℕ × Option (Word ℕ)} (Running start ks) (lift (ok (w, some w)))
              (λ _. Running start l))
          (sym (append-nil ks)) (Keeps-lift _ _)
    operand-Triple false w addr =
        Triple-bind _ (λ _. Running start (ks ++ reading ∷ [])) _ _ _ (read-Triple addr)
          λ c. Keeps-lift _ _

    pub second_operand-Triple :
        (fp : ℕ) (ops : Operands)
        → Triple
            (Running start ks)
            (second_operand clk fp ops)
            (λ _. Running start (ks ++ source ops.e))
    unfolding second_operand
    second_operand-Triple fp ops = operand-Triple (ops.e == 1) (from_u32 ops.c) _

    pub first_operand-Triple :
        (fp : ℕ) (ops : Operands)
        → Triple
            (Running start ks)
            (first_operand clk fp ops)
            (λ _. Running start (ks ++ source ops.d))
    unfolding first_operand
    first_operand-Triple fp ops = operand-Triple (ops.d == 1) (from_u32 ops.b) _

  -- The end of an instruction.
  module _ (opcode : ℕ) (ops : Operands) where
    abbrev Ends : M (Unit {0}) → Type 0
    Ends m =
        Triple (Running start ks) m
          (λ _. Finished start ks (record { opcode = opcode; operands = ops }))

    push_op-finishes :
        (op : Operation) (c : CpuChip) (s : BasicMachine)
        → c.clock ≡ s.cpu.clock
        → c.registers ≡ s.cpu.registers
        → c.operations ≡ s.cpu.operations
        → c.instructions ≡ s.cpu.instructions
        → Running start ks s
        → Finished start ks
            (record { opcode = opcode; operands = ops })
            (record s { cpu = push_op op opcode ops c })
    unfolding push_op save_register_state
    push_op-finishes op c s clock registers operations instructions p = record {
      clock = ap (λ k. (k + 1) % 2 ^ 32) (clock ∙ p.clock);
      registers = ap (λ r. r ++ record { pc = c.pc; fp = c.fp } ∷ []) (registers ∙ p.registers);
      operation = op;
      operations = ap (λ o. o ++ op ∷ []) (operations ∙ p.operations);
      instructions =
          ap (λ i. i ++ record { opcode = opcode; operands = ops } ∷ [])
            (instructions ∙ p.instructions);
      same_program = p.same_program;
      logged = p.logged;
      extends = p.extends;
    }

    pub push_op-Ends : (op : Operation) → Ends (update_cpu (push_op op opcode ops))
    unfolding update_cpu
    push_op-Ends op = Triple-modify _ _ _ λ s p. push_op-finishes op s.cpu s refl refl refl refl p

    pub push_bus_op-Ends : (imm : Option (Word ℕ)) → Ends (update_cpu (push_bus_op imm opcode ops))
    unfolding update_cpu push_bus_op increment_pc
    push_bus_op-Ends imm =
        Triple-modify _ _ _ λ s p. push_op-finishes (Operation.bus imm) _ s refl refl refl refl p

  pub advance-Ends :
      (op : Operation) (opcode : Opcode) (ops : Operands)
      → Ends (code opcode) ops (advance op opcode ops)
  unfolding advance update_cpu increment_pc
  advance-Ends op opcode ops =
      Triple-then _ (Running start ks) _ _ _
        (Keeps-change _ (λ s. refl) (λ s. refl) (λ s. refl) (λ s. refl) (λ s. refl) (λ s. refl))
        (push_op-Ends (code opcode) ops op)

module _ (start : BasicMachine) (ks : List Access) (word : InstructionWord) where
  -- A change after the end that leaves the traces alone.
  pub Keeps-end :
      (k : BasicMachine → BasicMachine)
      → ((s : BasicMachine) → (k s).cpu ≡ s.cpu)
      → ((s : BasicMachine) → (k s).mem ≡ s.mem)
      → ((s : BasicMachine) → (k s).program ≡ s.program)
      → Keeps (Finished start ks word) (modify k)
  Keeps-end k cpu mem program = Triple-modify _ _ k λ s p. record {
    clock = rw (cpu s) (p.clock);
    registers = rw (cpu s) (p.registers);
    operation = p.operation;
    operations = rw (cpu s) (p.operations);
    instructions = rw (cpu s) (p.instructions);
    same_program = program s ∙ p.same_program;
    logged = rw (mem s) (p.logged);
    extends = rw (mem s) (p.extends);
  }

  pub range_check-Keeps : (w : Word ℕ) → Keeps (Finished start ks word) (range_check w)
  unfolding range_check
  range_check-Keeps w = Keeps-end _ (λ s. refl) (λ s. refl) (λ s. refl)

  pub assert-Keeps : (test : Bool) → Keeps (Finished start ks word) (assert test)
  unfolding assert
  assert-Keeps test = Keeps-lift _ _
