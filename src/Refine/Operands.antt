-- ===== src/Refine/Operands.antt =====
-- Rules for the operands that may be immediate, and for values that may fail.
use valida.Prelude.{
  ℕ, ◌+◌, ◌%◌, ◌^◌, ◌<◌, ◌≡◌, refl, Option, none, some, Outcome, ok, panic, read_before_write, ◌==◌,
  if◌then◌else◌, Option-cases, inl, inr, Bool, true, false, map_outcome, to_option,
}
use valida.Prelude.BTreeMap.{get}
use valida.Word.{Word, IsWord, into_u32, from_u32}
use valida.Word.Bytes.{from_u32-IsWord, into_u32-from_u32}
use valida.Memory.{Operation, log_operation, read_cell}
use valida.Program.{Operands}
use valida.Machine.{BasicMachine, M, read, lift, ◌>>=◌}
use valida.Machine.Exec.Core.{second_operand}
use valida.Machine.Exec.Compare.{first_operand}
use valida.Isa.{Isa}
use valida.Isa
use valida.Isa.Ops.{second_operand as isa_second, first_operand as isa_first}
use valida.Refine.{values, view, Refines}
use valida.Refine.Rules.{failing, going, Refines-Meets}

-- The code's operand and the specification's.
operand : Bool → ℕ → ℕ → ℕ → M (Word ℕ × Option (Word ℕ))
operand imm x clk addr =
    if imm
    then lift (ok (from_u32 x, some (from_u32 x)))
    else (read clk addr >>= λ c. lift (ok (c, none)))

isa_operand : Bool → ℕ → ℕ → Isa ℕ
isa_operand imm x addr = if imm then Isa.ret x else Isa.load addr

Refines-operand :
    (imm : Bool) (x clk addr : ℕ) (f : Word ℕ × Option (Word ℕ) → M (Unit {0}))
    (g : ℕ → Isa (Unit {0}))
    → x < 2 ^ 32
    → ((w : Word ℕ) (i : Option (Word ℕ)) → IsWord w → Refines (f (w, i)) (g (into_u32 w)))
    → Refines (operand imm x clk addr >>= f) (Isa.◌>>=◌ (isa_operand imm x addr) g)
unfolding operand isa_operand ◌>>=◌ lift read read_cell Isa.ret Isa.load view values
Refines-operand true x clk addr f g fits h =
    Refines-Meets f g (operand true x clk addr) (isa_operand true x addr) λ s wf.
      going (from_u32 x, some (from_u32 x)) (into_u32 (from_u32 x)) s refl
        (rw (into_u32-from_u32 x fits)) wf (h (from_u32 x) _ (from_u32-IsWord x))
Refines-operand false x clk addr f g fits h =
    Refines-Meets f g (operand false x clk addr) (isa_operand false x addr) λ s wf.
      elim (Option-cases (get addr s.mem.cells)) [
        | inl e ↦
            failing (read_before_write addr) (rw (e, ◌>>=◌, read, read_cell)) (rw (e, Isa.load))
        | inr (w, e) ↦
            going (w, none) (into_u32 w) (logged s w) (rw (e, ◌>>=◌, read, read_cell))
              (rw (e, Isa.load)) (record { cells_fit = wf.cells_fit })
              (h w none (wf.cells_fit addr w e))
      ]
  where
    logged : BasicMachine → Word ℕ → BasicMachine
    logged s w = record s { mem = log_operation clk (Operation.read addr w) s.mem }

module _ (f : Word ℕ × Option (Word ℕ) → M (Unit {0})) (g : ℕ → Isa (Unit {0})) (clk fp : ℕ)
    (ops : Operands)
    (h : (w : Word ℕ) (i : Option (Word ℕ)) → IsWord w → Refines (f (w, i)) (g (into_u32 w))) where
  pub Refines-second :
      ops.c < 2 ^ 32 → Refines (second_operand clk fp ops >>= f) (Isa.◌>>=◌ (isa_second fp ops) g)
  unfolding second_operand isa_second operand isa_operand
  Refines-second fits = Refines-operand (ops.e == 1) ops.c clk ((fp + ops.c) % 2 ^ 32) f g fits h

  pub Refines-first :
      ops.b < 2 ^ 32 → Refines (first_operand clk fp ops >>= f) (Isa.◌>>=◌ (isa_first fp ops) g)
  unfolding first_operand isa_first operand isa_operand
  Refines-first fits = Refines-operand (ops.d == 1) ops.b clk ((fp + ops.b) % 2 ^ 32) f g fits h

-- A computed word, or its panic.
pub Refines-lift :
    (f : Word ℕ → M (Unit {0})) (g : ℕ → Isa (Unit {0})) (r : Outcome (Word ℕ)) (o : Option ℕ)
    → to_option (map_outcome into_u32 r) ≡ o
    → ((w : Word ℕ) → r ≡ ok w → Refines (f w) (g (into_u32 w)))
    → Refines (lift r >>= f) (Isa.◌>>=◌ (Isa.lift o) g)
unfolding lift Isa.lift
Refines-lift f g (ok w) o e h =
    Refines-Meets f g (lift (ok w)) (Isa.lift o)
      λ s wf. going w (into_u32 w) s refl (rw (← e)) wf (h w refl)
Refines-lift f g (panic p) o e h =
    Refines-Meets f g (lift (panic p)) (Isa.lift o) λ s wf. failing p refl (rw (← e))
