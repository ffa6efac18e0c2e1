-- ===== src/Refine/Ends.antt =====
-- Rules for the changes of the CPU, of the chips' records and of the output.
use valida.Prelude.{
  ℕ, ◌≡◌, refl, ap, Option, none, some, ok, assertion_failed, if◌then◌else◌, Bool, true, false,
}
use valida.Word.{Word}
use valida.Opcode.{Opcode, code}
use valida.Program.{Operands}
use valida.Chips.Cpu.{Operation, increment_pc, push_op, push_bus_op}
use valida.Chips.Output.{bytes}
use valida.Machine.{BasicMachine, M, lift, modify, update_cpu, range_check, ◌>>=◌, ◌>>◌}
use valida.Machine.Exec.Core.{advance, set_pc, set_fp}
use valida.Machine.Exec.Alu.{no_check}
use valida.Machine.Exec.Write.{push_output, assert}
use valida.Isa.{Arch, Isa}
use valida.Isa
use valida.Refine.{view, IsMachine, Agrees, fail, go, Refines}
use valida.Refine.Rules.{failing, going, Refines-Meets, Refines-then}
use mathlib.Core.List.{map-append}
use mathlib.Core.Path.{subst}

-- A change that the specification does not see.
pub record IsSilent (k : BasicMachine → BasicMachine) : Type 0 where
  pub same_view : (s : BasicMachine) → view (k s) ≡ view s
  pub same_cells : (s : BasicMachine) → (k s).mem.cells ≡ s.mem.cells

module _ (k : BasicMachine → BasicMachine) (silent : IsSilent k) where
  silent-IsMachine : (s : BasicMachine) → IsMachine s → IsMachine (k s)
  silent-IsMachine s wf = record { cells_fit = rw (silent.same_cells s) (wf.cells_fit) }

  pub Refines-silent :
      (f : M (Unit {0})) (g : Isa (Unit {0})) → Refines f g → Refines (modify k >> f) g
  unfolding ◌>>◌ ◌>>=◌
  Refines-silent f g r = record {
    agrees = λ s wf.
        subst (λ a. Agrees (f (k s)) (g a)) (silent.same_view s)
          (r.agrees (k s) (silent-IsMachine s wf));
  }

  pub Refines-silent_end : Refines (modify k) Isa.done
  unfolding Isa.done
  Refines-silent_end = record {
    agrees = λ s wf.
        subst (λ a. Agrees (ok (tt, k s)) (some (tt, a))) (silent.same_view s)
          (go (k s) (silent-IsMachine s wf));
  }

-- An action and the rest, where the action changes the machine by `k` and the specification's
-- state by `l`.
module _ (k : BasicMachine → BasicMachine) (n : Isa (Unit {0}))
    (same : (s : BasicMachine) → n (view s) ≡ some (tt, view (k s)))
    (cells : (s : BasicMachine) → (k s).mem.cells ≡ s.mem.cells) where
  kept : (s : BasicMachine) → IsMachine s → IsMachine (k s)
  kept s wf = record { cells_fit = rw (cells s) (wf.cells_fit) }

  pub Refines-change :
      (f : M (Unit {0})) (g : Isa (Unit {0})) → Refines f g → Refines (modify k >> f) (Isa.◌>>◌ n g)
  Refines-change f g r = Refines-then (modify k) n f g (λ s wf. (k s, refl, same s, kept s wf)) r

  pub Refines-change_end : Refines (modify k) n
  Refines-change_end = record { agrees = λ s wf. rw (same s) (go (k s) (kept s wf)) }

pub Refines-set_pc :
    (f : M (Unit {0})) (g : Isa (Unit {0})) (pc v : ℕ)
    → pc ≡ v
    → Refines f g
    → Refines (set_pc pc >> f) (Isa.◌>>◌ (Isa.jump v) g)
unfolding set_pc update_cpu Isa.jump view
Refines-set_pc f g pc v e =
    Refines-change (λ s. record s { cpu = record (s.cpu) { pc = pc } }) (Isa.jump v) (λ s. rw e)
      (λ s. refl) f g

pub Refines-set_fp :
    (f : M (Unit {0})) (g : Isa (Unit {0})) (fp : ℕ)
    → Refines f g
    → Refines (set_fp fp >> f) (Isa.◌>>◌ (Isa.move_frame fp) g)
unfolding set_fp update_cpu Isa.move_frame view
Refines-set_fp f g fp =
    Refines-change (λ s. record s { cpu = record (s.cpu) { fp = fp } }) (Isa.move_frame fp)
      (λ s. refl) (λ s. refl) f g

-- `push_op` alone is not seen by the specification.
pub Refines-push_op :
    (op : Operation) (opcode : ℕ) (ops : Operands)
    → Refines (update_cpu (push_op op opcode ops)) Isa.done
unfolding update_cpu push_op view
Refines-push_op op opcode ops =
    Refines-silent_end _ (record { same_view = λ s. refl; same_cells = λ s. refl })

pub Refines-advance :
    (op : Operation) (opcode : Opcode) (ops : Operands)
    → Refines (advance op opcode ops) Isa.advance_pc
unfolding advance update_cpu increment_pc push_op view Isa.advance_pc ◌>>◌ ◌>>=◌
Refines-advance op opcode ops =
    Refines-change_end (λ s. record s { cpu = push_op op (code opcode) ops (increment_pc s.cpu) })
      Isa.advance_pc (λ s. refl) (λ s. refl)

module _ (imm : Option (Word ℕ)) (opcode : ℕ) (ops : Operands) where
  same_bus :
      (s : BasicMachine)
      → Isa.advance_pc (view s)
        ≡ some (tt, view (record s { cpu = push_bus_op imm opcode ops s.cpu }))
  unfolding Isa.advance_pc view push_bus_op
  same_bus s = refl

  pub Refines-push_bus_op :
      (f : M (Unit {0})) (g : Isa (Unit {0}))
      → Refines f g
      → Refines (update_cpu (push_bus_op imm opcode ops) >> f) (Isa.◌>>◌ Isa.advance_pc g)
  unfolding update_cpu
  Refines-push_bus_op = Refines-change _ Isa.advance_pc same_bus (λ s. refl)

  pub Refines-push_bus_op_end : Refines (update_cpu (push_bus_op imm opcode ops)) Isa.advance_pc
  unfolding update_cpu
  Refines-push_bus_op_end = Refines-change_end _ Isa.advance_pc same_bus (λ s. refl)

  -- With a last action that the specification does not see.
  pub Refines-push_bus_op_check :
      (f : M (Unit {0}))
      → Refines f Isa.done
      → Refines (update_cpu (push_bus_op imm opcode ops) >> f) Isa.advance_pc
  unfolding Isa.advance_pc Isa.done Isa.◌>>◌ Isa.◌>>=◌
  Refines-push_bus_op_check f r = record { agrees = (Refines-push_bus_op f Isa.done r).agrees }

pub Refines-range_check : (w : Word ℕ) → Refines (range_check w) Isa.done
unfolding range_check view
Refines-range_check w =
    Refines-silent_end _ (record { same_view = λ s. refl; same_cells = λ s. refl })

pub Refines-no_check : (w : Word ℕ) → Refines (no_check w) Isa.done
Refines-no_check w = Refines-silent_end _ (record { same_view = λ s. refl; same_cells = λ s. refl })

pub Refines-push_output :
    (f : M (Unit {0})) (g : Isa (Unit {0})) (clk byte v : ℕ)
    → byte ≡ v
    → Refines f g
    → Refines (modify (push_output clk byte) >> f) (Isa.◌>>◌ (Isa.emit v) g)
unfolding push_output Isa.emit view bytes
Refines-push_output f g clk byte v e =
    Refines-change (push_output clk byte) (Isa.emit v)
      (λ s. ap (λ o. some (tt, record (view s) { output = o })) (rw (map-append, e))) (λ s. refl) f
      g

pub Refines-assert :
    (f : M (Unit {0})) (g : Isa (Unit {0})) (test : Bool)
    → Refines f g
    → Refines (assert test >> f) (Isa.◌>>◌ (Isa.lift (if test then some tt else none)) g)
unfolding assert lift Isa.lift ◌>>◌ Isa.◌>>◌
Refines-assert f g true r =
    Refines-Meets (λ _. f) (λ _. g) (assert true) (Isa.lift (some tt))
      λ s wf. going tt tt s refl refl wf r
Refines-assert f g false r =
    Refines-Meets (λ _. f) (λ _. g) (assert false) (Isa.lift {A = Unit {0}} none)
      λ s wf. failing assertion_failed refl refl

pub Refines-assert_end :
    (test : Bool) → Refines (assert test) (Isa.lift (if test then some tt else none))
unfolding assert lift Isa.lift
Refines-assert_end true = record { agrees = λ s wf. go s wf }
Refines-assert_end false = record { agrees = λ s wf. fail assertion_failed }
