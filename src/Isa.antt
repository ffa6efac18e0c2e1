-- ===== src/Isa.antt =====
-- What the instructions of the basic machine promise, on 32-bit numbers: the specification that
-- the instructions' code is held to. It has no chips, no log and no bytes but those of the
-- output, and an operand is its bit pattern.
pub mod Ops
pub mod Run
use valida.Prelude.{ℕ, ◌+◌, ◌%◌, ◌^◌, ◌∷◌, ◌++◌, [], List, Option, none, some, ◌==◌, if◌then◌else◌}

pub record Regs : Type 0 where
  pub pc : ℕ
  pub fp : ℕ

-- A cell that was never written has no value.
pub record Arch : Type 0 where
  pub regs : Regs
  pub mem : ℕ → Option ℕ
  pub output : List ℕ

-- `none` is a fault.
abbrev pub Isa : Type 0 → Type 0
Isa A = Arch → Option (A × Arch)

infixl 5 ◌>>=◌ ◌>>◌
unfoldable pub ◌>>=◌ : {A B : Type 0} → Isa A → (A → Isa B) → Isa B
◌>>=◌ m f a = elim (m a) [ none ↦ none | some (x, b) ↦ f x b ]

unfoldable pub ◌>>◌ : {B : Type 0} → Isa (Unit {0}) → Isa B → Isa B
unfolding ◌>>=◌
m >> n = m >>= λ _. n

unfoldable pub ret : {A : Type 0} → A → Isa A
ret x a = some (x, a)

unfoldable pub lift : {A : Type 0} → Option A → Isa A
lift none a = none
lift (some x) a = some (x, a)

abbrev pub update : (ℕ → Option ℕ) → ℕ → ℕ → ℕ → Option ℕ
update mem k v j = if j == k then some v else mem j

unfoldable pub get_regs : Isa Regs
get_regs a = some (a.regs, a)

unfoldable pub load : ℕ → Isa ℕ
load addr a = elim (a.mem addr) [ none ↦ none | some v ↦ some (v, a) ]

-- A cell that was never written counts as zero.
unfoldable pub load_or_zero : ℕ → Isa ℕ
load_or_zero addr a = some (elim (a.mem addr) [ none ↦ 0 | some v ↦ v ], a)

unfoldable pub store : ℕ → ℕ → Isa (Unit {0})
store addr v a = some (tt, record a { mem = update a.mem addr v })

unfoldable pub jump : ℕ → Isa (Unit {0})
jump pc a = some (tt, record a { regs = record { pc = pc; fp = a.regs.fp } })

unfoldable pub move_frame : ℕ → Isa (Unit {0})
move_frame fp a = some (tt, record a { regs = record { pc = a.regs.pc; fp = fp } })

unfoldable pub emit : ℕ → Isa (Unit {0})
emit byte a = some (tt, record a { output = a.output ++ byte ∷ [] })

-- To the next instruction.
unfoldable pub advance_pc : Isa (Unit {0})
advance_pc a =
    some (tt, record a { regs = record { pc = (a.regs.pc + 1) % 2 ^ 32; fp = a.regs.fp } })

unfoldable pub done : Isa (Unit {0})
done a = some (tt, a)
