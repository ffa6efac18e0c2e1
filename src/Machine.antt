-- ===== src/Machine.antt =====
-- basic/src/lib.rs: the state of the basic machine, and the monad of the instructions, which
-- change it or panic. A chip with one field stands as that field.
pub mod Exec
pub mod Step
pub mod Run
pub mod Hoare
pub mod Invariant
use valida.Prelude.{ℕ, ◌+◌, ◌%◌, ◌^◌, List, Outcome, ok, panic, Option, none, some, ◌>>=◌ as bind}
use valida.Prelude.BTreeMap.{BTreeMap}
use valida.Word.{Word}
use valida.Opcode.{Opcode, code}
use valida.Program.{Operands, ProgramChip}
use valida.Memory.{MemoryChip, read_cell, read_or_init, write_cell}
use valida.Chips.Cpu.{CpuChip, Operation, increment_pc, push_op, push_bus_op}
use valida.Chips.Alu.{
  AddOperation, SubOperation, MulOperation, DivOperation, ShiftOperation, LtOperation, ComOperation,
  BitwiseOperation,
}
use valida.Chips.Output.{OutputChip}
use valida.Chips.StaticData.{StaticDataChip}
use valida.Chips.Range

pub record BasicMachine : Type 0 where
  pub cpu : CpuChip
  pub program : ProgramChip
  pub mem : MemoryChip
  pub add_u32 : List AddOperation
  pub sub_u32 : List SubOperation
  pub mul_u32 : List MulOperation
  pub div_u32 : List DivOperation
  pub shift_u32 : List ShiftOperation
  pub lt_u32 : List LtOperation
  pub com_u32 : List ComOperation
  pub bitwise_u32 : List BitwiseOperation
  pub output : OutputChip
  pub range : BTreeMap ℕ
  pub static_data : StaticDataChip

abbrev pub M : Type 0 → Type 0
M A = BasicMachine → Outcome (A × BasicMachine)

infixl 5 ◌>>=◌ ◌>>◌
unfoldable pub ◌>>=◌ : {A B : Type 0} → M A → (A → M B) → M B
◌>>=◌ m f s = elim (m s) [ panic e ↦ panic e | ok (a, t) ↦ f a t ]

unfoldable pub ◌>>◌ : {B : Type 0} → M (Unit {0}) → M B → M B
unfolding ◌>>=◌
m >> n = m >>= λ _. n

abbrev pub modify : (BasicMachine → BasicMachine) → M (Unit {0})
modify f s = ok (tt, f s)

-- A computation that may panic and leaves the machine alone.
unfoldable pub lift : {A : Type 0} → Outcome A → M A
lift (ok a) s = ok (a, s)
lift (panic e) s = panic e

unfoldable pub get_cpu : M CpuChip
get_cpu s = ok (s.cpu, s)

-- `(fp as i32 + x) as u32`
abbrev pub offset : ℕ → ℕ → ℕ
offset fp x = (fp + x) % 2 ^ 32

-- `state.mem_mut().read(clk, address, true, …)`
unfoldable pub read : ℕ → ℕ → M (Word ℕ)
read clk address s = bind (read_cell clk address s.mem) (λ r. ok (r.0, record s { mem = r.1 }))

unfoldable pub read_init : ℕ → ℕ → M (Word ℕ)
read_init clk address s = let r = read_or_init clk address s.mem in ok (r.0, record s { mem = r.1 })

unfoldable pub write : ℕ → ℕ → Word ℕ → M (Unit {0})
write clk address value = modify λ s. record s { mem = write_cell clk address value s.mem }

-- A change of the CPU chip alone: `state.cpu_mut().…`
unfoldable pub update_cpu : (CpuChip → CpuChip) → M (Unit {0})
update_cpu f = modify λ s. record s { cpu = f s.cpu }

unfoldable pub range_check : Word ℕ → M (Unit {0})
range_check w = modify λ s. record s { range = Range.range_check w s.range }
