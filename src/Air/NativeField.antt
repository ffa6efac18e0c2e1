-- ===== src/Air/NativeField.antt =====
-- native_field: the operations of the field, the columns of their chip, the row of an operation and
-- the constraints.
pub mod Rows
use valida.Prelude.{ℕ, ◌^◌, List, [], ◌∷◌}
use valida.Word.{Word, into_u32, from_u32, transform}
use valida.Air.{PrimeField, word_of_zeros}

-- The destination and the two sources.
pub data Operation : Type 0 where
  add sub mul : Word ℕ → Word ℕ → Word ℕ → Operation

pub record NativeFieldCols (F : Type 0) : Type 0 where
  pub input_1 : Word F
  pub input_2 : Word F
  pub output : Word F
  pub is_add : F
  pub is_sub : F
  pub is_mul : F

module _ {F : Type 0} (p : PrimeField F) where
  -- `[F::zero(); NUM_NATIVE_FIELD_COLS]`, with the three words
  abbrev words_row : Word ℕ → Word ℕ → Word ℕ → NativeFieldCols F
  words_row a b c = record {
    input_1 = transform p.from_canonical b;
    input_2 = transform p.from_canonical c;
    output = transform p.from_canonical a;
    is_add = p.field_zero;
    is_sub = p.field_zero;
    is_mul = p.field_zero;
  }

  unfoldable pub op_to_row : Operation → NativeFieldCols F
  op_to_row (add a b c) = record (words_row a b c) { is_add = p.field_one }
  op_to_row (sub a b c) = record (words_row a b c) { is_sub = p.field_one }
  op_to_row (mul a b c) = record (words_row a b c) { is_mul = p.field_one }

  -- A word of bytes as a field element.
  unfoldable pub value_of : Word F → F
  value_of x =
      p.plus
        (p.plus
          (p.plus (p.times (p.from_canonical 1) x.byte_3)
            (p.times (p.from_canonical (2 ^ 8)) x.byte_2))
          (p.times (p.from_canonical (2 ^ 16)) x.byte_1))
        (p.times (p.from_canonical (2 ^ 24)) x.byte_0)

  -- What `eval` asserts to be zero, in its order.
  unfoldable pub eval : NativeFieldCols F → List F
  unfolding value_of
  eval r =
      let b = value_of r.input_1 in
      let c = value_of r.input_2 in
      let a = value_of r.output in
      p.times r.is_add (p.minus a (p.plus b c))
      ∷ p.times r.is_sub (p.minus a (p.minus b c))
      ∷ p.times r.is_mul (p.minus a (p.times b c))
      ∷ []

  -- The operation of the field on two words.
  abbrev pub native : Operation → F
  native (add a b c) = p.plus (p.from_canonical (into_u32 b)) (p.from_canonical (into_u32 c))
  native (sub a b c) = p.minus (p.from_canonical (into_u32 b)) (p.from_canonical (into_u32 c))
  native (mul a b c) = p.times (p.from_canonical (into_u32 b)) (p.from_canonical (into_u32 c))

  -- `Word::from(a_native.as_canonical_u32())`, what the instructions write
  unfoldable pub result : (F → ℕ) → Operation → Word ℕ
  result as_canonical_u32 op = from_u32 (as_canonical_u32 (native op))
