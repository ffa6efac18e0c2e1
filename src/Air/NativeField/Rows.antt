-- ===== src/Air/NativeField/Rows.antt =====
-- native_field: the constraints hold of a row exactly where it computes the operation.
use valida.Prelude.{ℕ, ◌^◌, ◌<◌, ◌≡◌, ◌↔◌, ◌∙◌, sym, ap, arith}
use mathlib.Core.Path.{ap₂}
use valida.Word.{Word, into_u32, transform}
use valida.Word.Bytes.{into_u32-from_u32}
use valida.Air.{PrimeField, minus_zero, minus_self, zero_times, one_times}
use valida.Air.Equality.{AllZero}
use valida.Air.NativeField.{Operation, add, sub, mul, op_to_row, value_of, eval, native, result}

abbrev pub destination : Operation → Word ℕ
destination (add a b c) = a
destination (sub a b c) = a
destination (mul a b c) = a

abbrev pub with_destination : Word ℕ → Operation → Operation
with_destination w (add a b c) = add w b c
with_destination w (sub a b c) = sub w b c
with_destination w (mul a b c) = mul w b c

module _ {F : Type 0} (p : PrimeField F) where
  value_of-transform :
      (w : Word ℕ) → value_of p (transform p.from_canonical w) ≡ p.from_canonical (into_u32 w)
  unfolding value_of transform into_u32
  value_of-transform w =
      ap₂ p.plus
        (ap₂ p.plus (ap₂ p.plus (p.from_times _ _) (p.from_times _ _) ∙ p.from_plus _ _)
            (p.from_times _ _)
          ∙ p.from_plus _ _)
        (p.from_times _ _)
      ∙ p.from_plus _ _
      ∙ ap p.from_canonical (omega arith)

  -- An assertion under a flag that is one, and under one that is zero.
  set_flag : (x y : F) → (p.times p.field_one (p.minus x y) ≡ p.field_zero) ↔ (x ≡ y)
  set_flag x y = (
    λ e. minus_zero p x y (sym (one_times p _) ∙ e),
    λ e. one_times p _ ∙ ap (λ t. p.minus t y) e ∙ minus_self p y,
  )

  -- The row of an operation satisfies the constraints exactly where its destination is, as a field
  -- element, the operation on its sources.
  eval_iff :
      (op : Operation)
      → AllZero p (eval p (op_to_row p op))
        ↔ (p.from_canonical (into_u32 (destination op)) ≡ native p op)
  unfolding eval op_to_row AllZero
  eval_iff (add a b c) =
      let (there, back) = set_flag (value_of p (transform p.from_canonical a)) (
        p.plus (value_of p (transform p.from_canonical b))
          (value_of p (transform p.from_canonical c))) in
      let words = ap₂ p.plus (value_of-transform b) (value_of-transform c) in
      (
        λ h. sym (value_of-transform a) ∙ there h.0 ∙ words,
        λ e. (back (value_of-transform a ∙ e ∙ sym words), (zero_times p _, (zero_times p _, tt))),
      )
  eval_iff (sub a b c) =
      let (there, back) = set_flag (value_of p (transform p.from_canonical a)) (
        p.minus (value_of p (transform p.from_canonical b))
          (value_of p (transform p.from_canonical c))) in
      let words = ap₂ p.minus (value_of-transform b) (value_of-transform c) in
      (
        λ h. sym (value_of-transform a) ∙ there h.1.0 ∙ words,
        λ e. (zero_times p _, (back (value_of-transform a ∙ e ∙ sym words), (zero_times p _, tt))),
      )
  eval_iff (mul a b c) =
      let (there, back) = set_flag (value_of p (transform p.from_canonical a)) (
        p.times (value_of p (transform p.from_canonical b))
          (value_of p (transform p.from_canonical c))) in
      let words = ap₂ p.times (value_of-transform b) (value_of-transform c) in
      (
        λ h. sym (value_of-transform a) ∙ there h.1.1.0 ∙ words,
        λ e. (zero_times p _, (zero_times p _, (back (value_of-transform a ∙ e ∙ sym words), tt))),
      )

  completed :
      (w : Word ℕ) (op : Operation)
      → p.from_canonical (into_u32 w) ≡ native p op
      → AllZero p (eval p (op_to_row p (with_destination w op)))
  completed w (add a b c) e = (eval_iff (add w b c)).1 e
  completed w (sub a b c) e = (eval_iff (sub w b c)).1 e
  completed w (mul a b c) e = (eval_iff (mul w b c)).1 e

  -- Where the canonical value of an operation's result is that result and below 2 ^ 32, the row
  -- of the operation satisfies the constraints of the native field chip exactly where the value
  -- of its destination is, in the field, the operation on the values of its sources; and with the
  -- word that the instruction writes as its destination it satisfies them.
  pub op_to_row-AllZero :
      (as_canonical_u32 : F → ℕ) (op : Operation)
      → p.from_canonical (as_canonical_u32 (native p op)) ≡ native p op
      → as_canonical_u32 (native p op) < 2 ^ 32
      → (AllZero p (eval p (op_to_row p op))
          ↔ (p.from_canonical (into_u32 (destination op)) ≡ native p op))
        × AllZero p (eval p (op_to_row p (with_destination (result p as_canonical_u32 op) op)))
  unfolding result
  op_to_row-AllZero as_canonical_u32 op canonical small = (
    eval_iff op,
    completed (result p as_canonical_u32 op) op (
        ap p.from_canonical (into_u32-from_u32 (as_canonical_u32 (native p op)) small) ∙ canonical),
  )
