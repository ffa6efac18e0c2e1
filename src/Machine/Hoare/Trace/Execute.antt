-- ===== src/Machine/Hoare/Trace/Execute.antt =====
-- Every instruction that returns has logged its memory operations and ends with one entry of
-- each trace.
use valida.Prelude.{List, [], ◌∷◌, ℕ, ◌≡◌, Bool, Option, Outcome, panic, Panic}
use valida.Word.{Word}
use valida.Opcode.{Opcode, code}
use valida.Program.{Operands, InstructionWord}
use valida.Chips.Cpu.{CpuChip, Operation}
use valida.Machine.{BasicMachine, M, get_cpu, lift, modify, ◌>>=◌, ◌>>◌}
use valida.Machine.Exec.Core
use valida.Machine.Exec.Alu.{Recorder, binary_op}
use valida.Machine.Exec.Compare.{order_op}
use valida.Machine.Exec.Write.{write_output}
use valida.Machine.Hoare.{Triple, Keeps, Triple-bind, Triple-then, Keeps-lift}
use valida.Memory.Entries.{Access, reading, writing}
use valida.Machine.Hoare.Trace.{Running, Finished, source, binary, order, accesses_by}
use valida.Machine.Hoare.Trace.Actions.{
  set_pc-Keeps, set_fp-Keeps, push_output-Keeps, write-Triple, read-Triple, read_init-Triple,
  second_operand-Triple, first_operand-Triple, push_op-Ends, push_bus_op-Ends, advance-Ends,
  assert-Keeps,
}

module _ (start : BasicMachine) where
  -- The action, and then one that keeps the traces or ends the instruction.
  module _ {ks ls : List Access} {A B : Type 0} (Q : B → BasicMachine → Type 0) (m : M A)
      (f : A → M B) where
    first :
        Triple (Running start ks) m (λ _. Running start ls)
        → ((a : A) → Triple (Running start ls) (f a) Q)
        → Triple (Running start ks) (m >>= f) Q
    first = Triple-bind (Running start ks) (λ _. Running start ls) Q m f

  module _ {ks ls : List Access} {B : Type 0} (Q : B → BasicMachine → Type 0) (m : M (Unit {0}))
      (f : M B) where
    next :
        Triple (Running start ks) m (λ _. Running start ls)
        → Triple (Running start ls) f Q
        → Triple (Running start ks) (m >> f) Q
    next = Triple-then (Running start ks) (Running start ls) Q m f

    last :
        (word : InstructionWord)
        → Triple (Running start ks) m (λ _. Finished start ls word)
        → Triple (Finished start ls word) f Q
        → Triple (Running start ks) (m >> f) Q
    last word = Triple-then (Running start ks) (Finished start ls word) Q m f

  started :
      {B : Type 0} (Q : B → BasicMachine → Type 0) (f : CpuChip → M B)
      → ((c : CpuChip) → c.clock ≡ start.cpu.clock → Triple (Running start []) (f c) Q)
      → Triple (Running start []) (get_cpu >>= f) Q
  unfolding get_cpu ◌>>=◌
  started Q f h = record { holds = λ s t b p e. (h s.cpu p.clock).holds s t b p e }

  abbrev Does : (Operands → List Access) → (Operands → M (Unit {0})) → Opcode → Type 0
  Does accesses m op =
      (ops : Operands)
      → Triple (Running start []) (m ops)
          (λ _. Finished start (accesses ops) (record { opcode = code op; operands = ops }))

  abbrev pub Traced : (Operands → M (Unit {0})) → Opcode → Type 0
  Traced m op = Does (accesses_by op) m op

  pub read_advice-Traced : (advice : Option ℕ) → Traced (Core.read_advice advice) Opcode.read_advice
  unfolding Core.read_advice
  read_advice-Traced advice ops =
      started _ _ λ c now. next _ _ _ (write-Triple _ _ _ now _ _) (advance-Ends _ _ _ _ _)

  pub load32-Traced : Traced Core.load32 Opcode.load32
  unfolding Core.load32
  load32-Traced ops = started _ _ λ c now. first _ _ _ (read-Triple _ _ _ now _) λ p.
      first _ _ _ (read-Triple _ _ _ now _)
        λ w. next _ _ _ (write-Triple _ _ _ now _ _) (advance-Ends _ _ _ _ _)

  pub load_byte-Traced :
      (extend : ℕ → Word ℕ) (op : Operation) (opcode : Opcode)
      → Does (λ ops. reading ∷ reading ∷ writing ∷ []) (Core.load_byte extend op opcode) opcode
  unfolding Core.load_byte
  load_byte-Traced extend op opcode ops = started _ _ λ c now.
      first _ _ _ (read-Triple _ _ _ now _) λ p. first _ _ _ (read-Triple _ _ _ now _) λ w.
        first _ _ _ (Keeps-lift _ _)
          λ byte. next _ _ _ (write-Triple _ _ _ now _ _) (advance-Ends _ _ _ _ _)

  pub store32-Traced : Traced Core.store32 Opcode.store32
  unfolding Core.store32
  store32-Traced ops = started _ _ λ c now. first _ _ _ (read-Triple _ _ _ now _) λ p.
      first _ _ _ (read-Triple _ _ _ now _)
        λ w. next _ _ _ (write-Triple _ _ _ now _ _) (advance-Ends _ _ _ _ _)

  pub storeu8-Traced : Traced Core.storeu8 Opcode.storeu8
  unfolding Core.storeu8
  storeu8-Traced ops = started _ _ λ c now. first _ _ _ (read-Triple _ _ _ now _) λ p.
      first _ _ _ (read-Triple _ _ _ now _) λ w. first _ _ _ (Keeps-lift _ _) λ byte.
        first _ _ _ (read_init-Triple _ _ _ now _) λ old.
          first _ _ _ (Keeps-lift _ _)
            λ new. next _ _ _ (write-Triple _ _ _ now _ _) (advance-Ends _ _ _ _ _)

  pub jal-Traced : Traced Core.jal Opcode.jal
  unfolding Core.jal
  jal-Traced ops = started _ _ λ c now.
      next _ _ _ (write-Triple _ _ _ now _ _)
        (next _ _ _ (set_pc-Keeps _ _ _) (next _ _ _ (set_fp-Keeps _ _ _) (push_op-Ends _ _ _ _ _)))

  pub jalv-Traced : Traced Core.jalv Opcode.jalv
  unfolding Core.jalv
  jalv-Traced ops = started _ _ λ c now. next _ _ _ (write-Triple _ _ _ now _ _) (
      first _ _ _ (read-Triple _ _ _ now _) λ target. next _ _ _ (set_pc-Keeps _ _ _) (
        first _ _ _ (read-Triple _ _ _ now _)
          λ cell. next _ _ _ (set_fp-Keeps _ _ _) (push_op-Ends _ _ _ _ _)))

  pub branch-Traced :
      (taken : Word ℕ → Word ℕ → Bool) (op : Option (Word ℕ) → Operation) (opcode : Opcode)
      → Does (λ ops. reading ∷ source ops.e) (Core.branch taken op opcode) opcode
  unfolding Core.branch
  branch-Traced taken op opcode ops = started _ _ λ c now.
      first _ _ _ (read-Triple _ _ _ now _) λ x.
        first _ _ _ (second_operand-Triple _ _ _ now _ _)
          λ y. next _ _ _ (set_pc-Keeps _ _ _) (push_op-Ends _ _ _ _ _)

  pub imm32-Traced : Traced Core.imm32 Opcode.imm32
  unfolding Core.imm32
  imm32-Traced ops =
      started _ _ λ c now. next _ _ _ (write-Triple _ _ _ now _ _) (advance-Ends _ _ _ _ _)

  pub stop-Traced : Traced Core.stop Opcode.stop
  unfolding Core.stop
  stop-Traced ops = push_op-Ends _ _ _ _ _

  pub loadfp-Traced : Traced Core.loadfp Opcode.loadfp
  unfolding Core.loadfp
  loadfp-Traced ops =
      started _ _ λ c now. next _ _ _ (write-Triple _ _ _ now _ _) (advance-Ends _ _ _ _ _)

  -- A chip's record leaves the traces alone.
  abbrev pub Records : Recorder → Type 0
  Records record_op =
      (ks : List Access) (a b c : Word ℕ) → Keeps (Running start ks) (modify (record_op a b c))

  -- A check at the end leaves them alone too.
  abbrev pub Checks : (Word ℕ → M (Unit {0})) → Type 0
  Checks check =
      (ks : List Access) (word : InstructionWord) (a : Word ℕ)
      → Keeps (Finished start ks word) (check a)

  pub binary_op-Traced :
      (op : Opcode) (f : Word ℕ → Word ℕ → Outcome (Word ℕ)) (record_op : Recorder)
      (check : Word ℕ → M (Unit {0}))
      → Records record_op
      → Checks check
      → Does binary (binary_op op f record_op check) op
  unfolding binary_op
  binary_op-Traced op f record_op check records checks ops = started _ _ λ c now.
      first _ _ _ (read-Triple _ _ _ now _) λ x.
        first _ _ _ (second_operand-Triple _ _ _ now _ _) λ y. first _ _ _ (Keeps-lift _ _) λ a.
          next _ _ _ (write-Triple _ _ _ now _ _) (
            next _ _ _ (records _ a x y.0)
              (last _ _ _ _ (push_bus_op-Ends _ _ _ _ _) (checks _ _ a)))

  pub order_op-Traced :
      (op : Opcode) (test : Word ℕ → Word ℕ → Bool) (record_op : Recorder)
      → Records record_op
      → Does order (order_op op test record_op) op
  unfolding order_op
  order_op-Traced op test record_op records ops = started _ _ λ c now.
      first _ _ _ (first_operand-Triple _ _ _ now _ _) λ x.
        first _ _ _ (second_operand-Triple _ _ _ now _ _) λ y.
          next _ _ _ (write-Triple _ _ _ now _ _)
            (next _ _ _ (records _ _ x.0 y.0) (push_bus_op-Ends _ _ _ _ _))

  pub write_output-Traced : Traced write_output Opcode.write
  unfolding write_output
  write_output-Traced ops = started _ _ λ c now. first _ _ _ (read-Triple _ _ _ now _) λ x.
      next _ _ _ (push_output-Keeps _ _ _ _) (
        last _ _ _ _ (push_bus_op-Ends _ _ _ _ _)
          (Triple-then _ _ _ _ _ (assert-Keeps _ _ _ _) (assert-Keeps _ _ _ _)))

  pub faults-Traced :
      (accesses : Operands → List Access) (p : Panic) (op : Opcode)
      → Does accesses (λ ops. lift (panic p)) op
  unfolding lift
  faults-Traced accesses p op ops = record { holds = λ s t a q e. cc e }
