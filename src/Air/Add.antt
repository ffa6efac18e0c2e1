-- ===== src/Air/Add.antt =====
-- alu_u32/src/add: the columns of the addition chip, the row of an operation and the constraints.
pub mod Rows
pub mod Honest
use valida.Prelude.{ℕ, ◌+◌, ◌^◌, ◌<◌, ◌≡◌, List, [], ◌∷◌, All, ltb, if◌then◌else◌}
use valida.Word.{Word, transform}
use valida.Chips.Alu.{AddOperation, add32}
use valida.Air.{PrimeField}

pub record Add32Cols (F : Type 0) : Type 0 where
  pub input_1 : Word F
  pub input_2 : Word F
  pub carry_1 : F
  pub carry_2 : F
  pub carry_3 : F
  pub output : Word F
  pub is_real : F

-- The carry out of two bytes and a carry in.
abbrev pub carry_of : ℕ → ℕ → ℕ → ℕ
carry_of b c carry = if ltb 255 (b + c + carry) then 1 else 0

module _ {F : Type 0} (p : PrimeField F) where
  unfoldable pub op_to_row : AddOperation → Add32Cols F
  op_to_row (add32 a b c) =
      let carry_1 = carry_of b.byte_3 c.byte_3 0 in
      let carry_2 = carry_of b.byte_2 c.byte_2 carry_1 in
      let carry_3 = carry_of b.byte_1 c.byte_1 carry_2 in
      record {
        input_1 = transform p.from_canonical b;
        input_2 = transform p.from_canonical c;
        carry_1 = p.from_canonical carry_1;
        carry_2 = p.from_canonical carry_2;
        carry_3 = p.from_canonical carry_3;
        output = transform p.from_canonical a;
        is_real = p.field_one;
      }

  abbrev pub base : F
  base = p.from_canonical (2 ^ 8)

  -- A limb, from its two inputs and its output.
  abbrev pub limb : F → F → F → F
  limb x y z = p.minus (p.plus x y) z

  unfoldable pub overflow_0 : Add32Cols F → F
  overflow_0 r = limb r.input_1.byte_3 r.input_2.byte_3 r.output.byte_3

  unfoldable pub overflow_1 : Add32Cols F → F
  overflow_1 r = p.plus (limb r.input_1.byte_2 r.input_2.byte_2 r.output.byte_2) r.carry_1

  unfoldable pub overflow_2 : Add32Cols F → F
  overflow_2 r = p.plus (limb r.input_1.byte_1 r.input_2.byte_1 r.output.byte_1) r.carry_2

  unfoldable pub overflow_3 : Add32Cols F → F
  overflow_3 r = p.plus (limb r.input_1.byte_0 r.input_2.byte_0 r.output.byte_0) r.carry_3

  -- An overflow is 0 or 2 ^ 8.
  abbrev pub limb_constraint : F → F
  limb_constraint o = p.times o (p.minus o base)

  abbrev pub carry_constraint : F → F → F
  carry_constraint o carry =
      p.plus (p.times o (p.minus carry p.field_one)) (p.times (p.minus o base) carry)

  -- `assert_bool`
  abbrev pub bool_constraint : F → F
  bool_constraint x = p.times x (p.minus x p.field_one)

  -- What `eval` asserts to be zero, in its order.
  unfoldable pub eval : Add32Cols F → List F
  unfolding overflow_0 overflow_1 overflow_2 overflow_3
  eval r =
      limb_constraint (overflow_0 r)
      ∷ limb_constraint (overflow_1 r)
      ∷ limb_constraint (overflow_2 r)
      ∷ limb_constraint (overflow_3 r)
      ∷ carry_constraint (overflow_0 r) r.carry_1
      ∷ carry_constraint (overflow_1 r) r.carry_2
      ∷ carry_constraint (overflow_2 r) r.carry_3
      ∷ bool_constraint r.carry_1
      ∷ bool_constraint r.carry_2
      ∷ bool_constraint r.carry_3
      ∷ []

  unfoldable pub Holds : List F → Type 0
  Holds = All (λ x. x ≡ p.field_zero)
