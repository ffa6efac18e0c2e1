-- ===== src/Opcode/Codes.antt =====
-- Decoding an instruction code inverts the discriminant.
use valida.Prelude.{ℕ, ◌≡◌, ◌↔◌, ◌⊎◌, inl, inr, ◌∙◌, refl, arith, Option, none, some, sym, ap}
use valida.Opcode.{Opcode, code, try_from, core_of, alu_of, other_of, or_else}

pub try_from-code : (op : Opcode) → try_from (code op) ≡ some op
unfolding try_from code
try_from-code Opcode.load32 = refl
try_from-code _ = refl

core_of-code : (n : ℕ) (op : Opcode) → core_of n ≡ some op → code op ≡ n
unfolding core_of code
core_of-code n op h = ground arith

alu_of-code : (n : ℕ) (op : Opcode) → alu_of n ≡ some op → code op ≡ n
unfolding alu_of code
alu_of-code n op h = ground arith

other_of-code : (n : ℕ) (op : Opcode) → other_of n ≡ some op → code op ≡ n
unfolding other_of code
other_of-code n op h = ground arith

or_else-some :
    (a b : Option Opcode) {op : Opcode} → or_else a b ≡ some op → (a ≡ some op) ⊎ (b ≡ some op)
unfolding or_else
or_else-some (some x) b h = inl h
or_else-some none b h = inr h

code_of : (n : ℕ) (op : Opcode) → try_from n ≡ some op → code op ≡ n
unfolding try_from
code_of n op h = elim (or_else-some (core_of n) (or_else (alu_of n) (other_of n)) h) [
  | inl core ↦ core_of-code n op core
  | inr rest ↦ elim (or_else-some (alu_of n) (other_of n) rest) [
    | inl alu ↦ alu_of-code n op alu
    | inr other ↦ other_of-code n op other
  ]
]

-- A number decodes to an opcode exactly where it is that opcode's discriminant.
pub try_from_iff : (n : ℕ) (op : Opcode) → (try_from n ≡ some op) ↔ (code op ≡ n)
try_from_iff n op = (code_of n op, λ e. ap try_from (sym e) ∙ try_from-code op)

pub code-injective : (op other : Opcode) → code op ≡ code other → op ≡ other
code-injective op other e = cc (try_from-code op, try_from-code other, ap try_from e)
