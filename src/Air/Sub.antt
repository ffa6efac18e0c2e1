-- ===== src/Air/Sub.antt =====
-- alu_u32/src/sub: the columns of the subtraction chip, the row of an operation and the constraints.
pub mod Borrows
use valida.Prelude.{ℕ, ◌^◌, ◌≡◌, List, [], ◌∷◌, All, ltb, if◌then◌else◌}
use valida.Word.{Word, transform}
use valida.Chips.Alu.{SubOperation, sub32}
use valida.Air.{PrimeField}

pub record Sub32Cols (F : Type 0) : Type 0 where
  pub input_1 : Word F
  pub input_2 : Word F
  pub borrow_1 : F
  pub borrow_2 : F
  pub borrow_3 : F
  pub output : Word F
  pub is_real : F

module _ {F : Type 0} (p : PrimeField F) where
  abbrev pub flag_if : ℕ → ℕ → F
  flag_if b c = if ltb b c then p.field_one else p.field_zero

  -- Each borrow is set from the bytes alone.
  unfoldable pub op_to_row : SubOperation → Sub32Cols F
  op_to_row (sub32 a b c) = record {
    input_1 = transform p.from_canonical b;
    input_2 = transform p.from_canonical c;
    borrow_1 = flag_if b.byte_3 c.byte_3;
    borrow_2 = flag_if b.byte_2 c.byte_2;
    borrow_3 = flag_if b.byte_1 c.byte_1;
    output = transform p.from_canonical a;
    is_real = p.field_one;
  }

  -- `assert_eq`
  abbrev pub equal_constraint : F → F → F
  equal_constraint x y = p.minus x y

  abbrev pub borrowed : F → F → F → F
  borrowed borrow x y = p.minus (p.plus (p.times (p.from_canonical (2 ^ 8)) borrow) x) y

  -- What `eval` asserts to be zero, in its order.
  unfoldable pub eval : Sub32Cols F → List F
  eval r =
      equal_constraint r.output.byte_3 (borrowed r.borrow_1 r.input_1.byte_3 r.input_2.byte_3)
      ∷ equal_constraint r.output.byte_2
          (p.minus (borrowed r.borrow_2 r.input_1.byte_2 r.input_2.byte_2) r.borrow_1)
      ∷ equal_constraint r.output.byte_1
          (p.minus (borrowed r.borrow_3 r.input_1.byte_1 r.input_2.byte_1) r.borrow_2)
      ∷ equal_constraint r.output.byte_0
          (p.minus (p.minus r.input_1.byte_0 r.input_2.byte_0) r.borrow_3)
      ∷ p.times r.borrow_1 (p.minus r.borrow_1 p.field_one)
      ∷ p.times r.borrow_2 (p.minus r.borrow_2 p.field_one)
      ∷ p.times r.borrow_3 (p.minus r.borrow_3 p.field_one)
      ∷ []

  unfoldable pub Holds : List F → Type 0
  Holds = All (λ x. x ≡ p.field_zero)
