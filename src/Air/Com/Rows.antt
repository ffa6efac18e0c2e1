-- ===== src/Air/Com/Rows.antt =====
-- alu_u32/src/com: what the constraints say of a row, and the rows that the chip writes.
use valida.Prelude.{
  All-split, ℕ, ◌≡◌, ◌∙◌, refl, sym, ap, List, [], ◌∷◌, ◌++◌, Bool, Bool-cases, inl, inr,
  if◌then◌else◌,
}
use mathlib.Core.Path.{ap₂}
use valida.Word.{Word, IsWord, transform}
use valida.Word.Ordering.{eq, ne}
use valida.Chips.Alu.{ComOperation, ne32, eq32}
use valida.Air.{
  PrimeField, minus_zero, minus_self, zero_plus, minus_zero_right, one_zero, zero_times, times_zero,
  one_times,
}
use valida.Air.Equality.{equality_constraints, AllZero, not_equal_sound, equality_of_zeros}
use valida.Air.Com.{zero_row, Com32Cols, op_to_row, eval, flag_constraints, output_constraint}

module _ {F : Type 0} (p : PrimeField F) where
  -- 1 or 0
  abbrev pub flag_of : Bool → F
  flag_of b = if b then p.field_one else p.field_zero

  abbrev tests : Com32Cols F → List F
  tests r = equality_constraints p r.input_1 r.input_2 r.diff r.diff_inv r.not_equal

  split : (xs ys : List F) → AllZero p (xs ++ ys) → AllZero p xs × AllZero p ys
  unfolding AllZero
  split xs ys h = All-split (λ x. x ≡ p.field_zero) xs ys h

  module _ (r : Com32Cols F) (a b : Word ℕ) (fits_a : IsWord a) (fits_b : IsWord b)
      (first : r.input_1 ≡ transform p.from_canonical a)
      (second : r.input_2 ≡ transform p.from_canonical b) (holds : AllZero p (eval p r)) where
    test : r.not_equal ≡ (if eq a b then p.field_zero else p.field_one)
    unfolding eval
    test =
        not_equal_sound p a b fits_a fits_b r.diff r.diff_inv r.not_equal
          (rw (first, second) at (split (tests r) _ holds).0)

    last_of : output_constraint p r ≡ p.field_zero
    unfolding eval AllZero flag_constraints
    last_of =
        (split (flag_constraints p r) (output_constraint p r ∷ [])
          (split (tests r) (flag_constraints p r ++ output_constraint p r ∷ []) holds).1).1.0

    output_ne : r.is_ne ≡ p.field_one → r.is_eq ≡ p.field_zero → r.output ≡ flag_of (ne a b)
    unfolding output_constraint ne
    output_ne e f =
        minus_zero p r.output _ last_of
        ∙ ap₂ p.plus (ap (λ t. p.times t r.not_equal) e ∙ one_times p r.not_equal)
            (ap (λ t. p.times t (p.minus p.field_one r.not_equal)) f ∙ zero_times p _)
        ∙ p.plus_zero r.not_equal
        ∙ elim (Bool-cases (eq a b)) [
          | inl same ↦ test ∙ rw same refl
          | inr other ↦ test ∙ rw other refl
        ]

    output_eq : r.is_ne ≡ p.field_zero → r.is_eq ≡ p.field_one → r.output ≡ flag_of (eq a b)
    unfolding output_constraint
    output_eq e f =
        minus_zero p r.output _ last_of
        ∙ ap₂ p.plus (ap (λ t. p.times t r.not_equal) e ∙ zero_times p r.not_equal)
            (ap (λ t. p.times t (p.minus p.field_one r.not_equal)) f ∙ one_times p _)
        ∙ (p.plus_comm _ _ ∙ p.plus_zero (p.minus p.field_one r.not_equal))
        ∙ elim (Bool-cases (eq a b)) [
          | inl same ↦
              ap (p.minus p.field_one) (test ∙ rw same refl) ∙ minus_zero_right p _ ∙ rw same refl
          | inr other ↦
              ap (p.minus p.field_one) (test ∙ rw other refl)
              ∙ minus_self p p.field_one
              ∙ rw other refl
        ]

  -- What an operation tests of its two inputs.
  abbrev pub tested : ComOperation → Bool
  tested (ne32 a b c) = ne b c
  tested (eq32 a b c) = eq b c

  abbrev pub Inputs : ComOperation → Word ℕ → Word ℕ → Type 0
  Inputs (ne32 a b c) x y = (b ≡ x) × (c ≡ y)
  Inputs (eq32 a b c) x y = (b ≡ x) × (c ≡ y)

  -- A row of the chip of the equality tests that has the flag of an operation, its two inputs as
  -- words of bytes, and satisfies the constraints, has the result of the operation's test as its
  -- output, 1 or 0.
  pub output_sound :
      (op : ComOperation) (r : Com32Cols F) (b c : Word ℕ)
      → IsWord b
      → IsWord c
      → Inputs op b c
      → r.input_1 ≡ transform p.from_canonical b
      → r.input_2 ≡ transform p.from_canonical c
      → r.is_ne ≡ (op_to_row p op).is_ne
      → r.is_eq ≡ (op_to_row p op).is_eq
      → AllZero p (eval p r)
      → r.output ≡ flag_of (tested op)
  unfolding op_to_row
  output_sound (ne32 a x y) r b c hb hc (e, f) first second is_ne is_eq holds =
      rw (e, f) (output_ne r b c hb hc first second holds is_ne is_eq)
  output_sound (eq32 a x y) r b c hb hc (e, f) first second is_ne is_eq holds =
      rw (e, f) (output_eq r b c hb hc first second holds is_ne is_eq)

  plus_zeros : p.plus p.field_zero p.field_zero ≡ p.field_zero
  plus_zeros = p.plus_zero p.field_zero

  ne_output : output_constraint p (record (zero_row p) { is_ne = p.field_one }) ≡ p.field_zero
  unfolding output_constraint
  ne_output =
      ap (p.minus p.field_zero)
        (ap₂ p.plus (times_zero p p.field_one) (zero_times p _) ∙ plus_zeros)
      ∙ minus_self p p.field_zero

  eq_output :
      output_constraint p (record (zero_row p) { is_eq = p.field_one }) ≡ p.field_zero
      → p.field_zero ≡ p.field_one
  unfolding output_constraint
  eq_output e =
      minus_zero p p.field_zero _ e
      ∙ simp (zero_times p, minus_zero_right p _, one_times p, zero_plus p) refl

  -- The row that the chip of the equality tests writes for ne32 satisfies all its constraints,
  -- and the row that it writes for eq32 does not, for any words.
  pub rows-AllZero :
      (a b c : Word ℕ)
      → AllZero p (eval p (op_to_row p (ne32 a b c)))
        × ¬ AllZero p (eval p (op_to_row p (eq32 a b c)))
  unfolding op_to_row eval AllZero equality_constraints flag_constraints
  rows-AllZero a b c =
      let (e0, (e1, (e2, (e3, none)))) = equality_of_zeros p in
      let both : p.times (p.plus p.field_one p.field_zero)
            (p.minus (p.plus p.field_one p.field_zero) p.field_one)
          ≡ p.field_zero =
        ap (λ t. p.times t (p.minus t p.field_one)) (p.plus_zero p.field_one)
        ∙ one_times p _
        ∙ minus_self p p.field_one in
      (
        (
          e0,
          (
            e1,
            (e2, (e3, (one_times p _ ∙ minus_self p _, (zero_times p _, (both, (ne_output, tt)))))),
          ),
        ),
        λ h. one_zero p (sym (eq_output h.1.1.1.1.1.1.1.0)),
      )
