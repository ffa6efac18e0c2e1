-- ===== src/Air/Com.antt =====
-- alu_u32/src/com: the columns of the chip of the equality tests, the row of an operation and the
-- constraints.
pub mod Rows
use valida.Prelude.{◌≡◌, List, [], ◌∷◌, ◌++◌}
use valida.Word.{Word}
use valida.Chips.Alu.{ComOperation, ne32, eq32}
use valida.Air.{PrimeField, word_of_zeros}
use valida.Air.Add.{bool_constraint}
use valida.Air.Equality.{equality_constraints}

pub record Com32Cols (F : Type 0) : Type 0 where
  pub input_1 : Word F
  pub input_2 : Word F
  pub diff : F
  pub diff_inv : F
  pub not_equal : F
  pub output : F
  pub is_ne : F
  pub is_eq : F

module _ {F : Type 0} (p : PrimeField F) where
  -- `[F::zero(); NUM_COM_COLS]`
  abbrev pub zero_row : Com32Cols F
  zero_row = record {
    input_1 = word_of_zeros p;
    input_2 = word_of_zeros p;
    diff = p.field_zero;
    diff_inv = p.field_zero;
    not_equal = p.field_zero;
    output = p.field_zero;
    is_ne = p.field_zero;
    is_eq = p.field_zero;
  }

  -- The row has the flag alone.
  unfoldable pub op_to_row : ComOperation → Com32Cols F
  op_to_row (ne32 a b c) = record zero_row { is_ne = p.field_one }
  op_to_row (eq32 a b c) = record zero_row { is_eq = p.field_one }

  unfoldable pub flag_constraints : Com32Cols F → List F
  flag_constraints r =
      bool_constraint p r.is_ne
      ∷ bool_constraint p r.is_eq
      ∷ bool_constraint p (p.plus r.is_ne r.is_eq)
      ∷ []

  unfoldable pub output_constraint : Com32Cols F → F
  output_constraint r =
      p.minus r.output
        (p.plus (p.times r.is_ne r.not_equal) (p.times r.is_eq (p.minus p.field_one r.not_equal)))

  -- What `eval` asserts to be zero, in its order.
  unfoldable pub eval : Com32Cols F → List F
  unfolding flag_constraints output_constraint
  eval r =
      equality_constraints p r.input_1 r.input_2 r.diff r.diff_inv r.not_equal
      ++ (flag_constraints r ++ output_constraint r ∷ [])
