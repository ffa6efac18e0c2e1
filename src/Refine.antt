-- ===== src/Refine.antt =====
-- The instructions' code refines the specification `Isa`.
pub mod Rules
pub mod Operands
pub mod Ends
pub mod Core
pub mod Alu
pub mod Step
use valida.Prelude.{
  ℕ, ◌^◌, ◌<◌, ◌≡◌, List, Option, none, some, Outcome, ok, panic, Panic, get_elem?,
}
use valida.Prelude.BTreeMap.{BTreeMap, get}
use valida.Word.{Word, IsWord, into_u32}
use valida.Program.{InstructionWord, IsInstruction}
use valida.Chips.Output.{bytes}
use valida.Machine.{BasicMachine, M}
use valida.Isa.{Arch, Isa}
use mathlib.Core.Option

-- The cells by value.
unfoldable pub values : BTreeMap (Word ℕ) → ℕ → Option ℕ
values cells addr = Option.map into_u32 (get addr cells)

unfoldable pub view : BasicMachine → Arch
view s = record {
  regs = record { pc = s.cpu.pc; fp = s.cpu.fp };
  mem = values s.mem.cells;
  output = bytes s.output;
}

-- What the types of the program guarantee.
pub record IsMachine (s : BasicMachine) : Type 0 where
  pub cells_fit : (addr : ℕ) (w : Word ℕ) → get addr s.mem.cells ≡ some w → IsWord w

-- The two runs panic and fault together, or end in one state.
pub data Agrees : Outcome (Unit {0} × BasicMachine) → Option (Unit {0} × Arch) → Type 0 where
  fail : (e : Panic) → Agrees (panic e) none
  go : (s : BasicMachine) → IsMachine s → Agrees (ok (tt, s)) (some (tt, view s))

pub record Refines (m : M (Unit {0})) (n : Isa (Unit {0})) : Type 0 where
  pub agrees : (s : BasicMachine) → IsMachine s → Agrees (m s) (n (view s))
