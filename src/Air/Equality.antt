-- ===== src/Air/Equality.antt =====
-- The test of two words for equality that alu_u32/src/com/stark.rs and cpu/src/stark.rs share: the
-- sum of the squares of the bytes' differences, its inverse and a flag.
use valida.Prelude.{
  ℕ, zero, suc, ◌+◌, ◌*◌, ◌^◌, ◌<◌, ◌≤◌, ◌≡◌, ◌≢◌, List, [], ◌∷◌, inl, inr, refl, sym, ap, ◌∙◌,
  arith, All, true, false, ==_iff, Bool-cases, if◌then◌else◌,
}
use mathlib.Core.Path.{ap₂}
use valida.Word.{Word, IsWord, transform}
use valida.Word.Ordering.{eq}
use valida.Air.{PrimeField, minus_zero, minus_self, zero_times, times_zero, word_of_zeros}
use valida.Air.Squares.{square, distance, square-distance}

distinct : true ≢ false
distinct e = cc e

module _ {F : Type 0} (p : PrimeField F) where
  -- The sum of the squares, from zero, in the order of the bytes.
  unfoldable pub sum_squares : Word F → Word F → F
  sum_squares x y =
      p.plus
        (p.plus
          (p.plus (p.plus p.field_zero (square p (p.minus x.byte_0 y.byte_0)))
            (square p (p.minus x.byte_1 y.byte_1)))
          (square p (p.minus x.byte_2 y.byte_2)))
        (square p (p.minus x.byte_3 y.byte_3))

  -- What the four assertions on `diff`, `diff_inv` and `not_equal` say is zero.
  unfoldable pub equality_constraints : Word F → Word F → F → F → F → List F
  unfolding sum_squares
  equality_constraints x y diff diff_inv not_equal =
      p.minus diff (sum_squares x y)
      ∷ p.times not_equal (p.minus not_equal p.field_one)
      ∷ p.minus not_equal (p.times diff diff_inv)
      ∷ p.times (p.minus p.field_one not_equal) diff
      ∷ []

  unfoldable pub AllZero : List F → Type 0
  AllZero = All (λ x. x ≡ p.field_zero)

  abbrev total : Word ℕ → Word ℕ → ℕ
  total a b =
      distance a.byte_0 b.byte_0 * distance a.byte_0 b.byte_0
      + distance a.byte_1 b.byte_1 * distance a.byte_1 b.byte_1
      + distance a.byte_2 b.byte_2 * distance a.byte_2 b.byte_2
      + distance a.byte_3 b.byte_3 * distance a.byte_3 b.byte_3

  sum_squares-total :
      (a b : Word ℕ)
      → sum_squares (transform p.from_canonical a) (transform p.from_canonical b)
        ≡ p.from_canonical (total a b)
  unfolding sum_squares transform
  sum_squares-total a b =
      ap₂ p.plus
        (ap₂ p.plus
            (ap₂ p.plus (p.plus_comm _ _ ∙ p.plus_zero _ ∙ square-distance p a.byte_0 b.byte_0)
                (square-distance p a.byte_1 b.byte_1)
              ∙ p.from_plus _ _)
            (square-distance p a.byte_2 b.byte_2)
          ∙ p.from_plus _ _)
        (square-distance p a.byte_3 b.byte_3)
      ∙ p.from_plus _ _

  product_le : (m n k : ℕ) → m ≤ k → n ≤ k → m * n ≤ k * k
  product_le m n k h l = grind arith

  square_small : (m n : ℕ) → m < 2 ^ 8 → n < 2 ^ 8 → distance m n * distance m n ≤ 2 ^ 16
  square_small m n h k =
      omega (arith, product_le (distance m n) (distance m n) 255 (omega arith) (omega arith))

  -- The number is zero exactly for equal words.
  total-bound : (a b : Word ℕ) → IsWord a → IsWord b → total a b < 2 ^ 30
  total-bound a b ha hb = omega (
    arith,
    square_small a.byte_0 b.byte_0 ha.fits_0 hb.fits_0,
    square_small a.byte_1 b.byte_1 ha.fits_1 hb.fits_1,
    square_small a.byte_2 b.byte_2 ha.fits_2 hb.fits_2,
    square_small a.byte_3 b.byte_3 ha.fits_3 hb.fits_3,
  )

  root_zero : (k : ℕ) → k * k ≡ 0 → k ≡ 0
  root_zero zero e = refl
  root_zero (suc k) e = absurd (grind arith)

  square_zero : (m n : ℕ) → distance m n * distance m n ≡ 0 → m ≡ n
  square_zero m n e = omega (arith, root_zero (distance m n) e)

  total-eq : (a b : Word ℕ) → total a b ≡ 0 → eq a b ≡ true
  unfolding eq
  total-eq a b e =
      rw
        (
          (==_iff _ _).1 (square_zero a.byte_0 b.byte_0 (omega arith)),
          (==_iff _ _).1 (square_zero a.byte_1 b.byte_1 (omega arith)),
          (==_iff _ _).1 (square_zero a.byte_2 b.byte_2 (omega arith)),
          (==_iff _ _).1 (square_zero a.byte_3 b.byte_3 (omega arith)),
        )
        refl

  eq-total : (a b : Word ℕ) → eq a b ≡ true → total a b ≡ 0
  unfolding eq
  eq-total a b e = ground arith

  module _ (a b : Word ℕ) (fits_a : IsWord a) (fits_b : IsWord b) (diff diff_inv not_equal : F)
      (holds : AllZero (
        equality_constraints
          (transform p.from_canonical a)
          (transform p.from_canonical b)
          diff
          diff_inv
          not_equal)) where
    diff-total : diff ≡ p.from_canonical (total a b)
    unfolding equality_constraints AllZero sum_squares
    diff-total =
        minus_zero p diff
          (sum_squares (transform p.from_canonical a) (transform p.from_canonical b)) holds.0
        ∙ sum_squares-total a b

    of_equal : eq a b ≡ true → not_equal ≡ p.field_zero
    unfolding equality_constraints AllZero
    of_equal e =
        let none : diff ≡ p.field_zero =
          diff-total ∙ ap p.from_canonical (eq-total a b e) ∙ p.from_zero in
        minus_zero p not_equal (p.times diff diff_inv) holds.1.1.0
        ∙ ap (λ t. p.times t diff_inv) none
        ∙ zero_times p diff_inv

    of_unequal : eq a b ≡ false → not_equal ≡ p.field_one
    unfolding equality_constraints AllZero
    of_unequal e = elim ((p.times_iff (p.minus p.field_one not_equal) diff).0 holds.1.1.1.0) [
      | inl set ↦ sym (minus_zero p p.field_one not_equal set)
      | inr none ↦
          let empty : total a b ≡ 0 =
            p.from_injective (total a b) 0 (total-bound a b fits_a fits_b) (omega arith)
              (sym diff-total ∙ none ∙ sym p.from_zero) in
          absurd (distinct (sym (total-eq a b empty) ∙ e))
    ]

    -- The flag says whether the words differ.
    pub not_equal_sound : not_equal ≡ (if eq a b then p.field_zero else p.field_one)
    not_equal_sound = elim (Bool-cases (eq a b)) [
      | inl same ↦ rw same (of_equal same)
      | inr other ↦ rw other (of_unequal other)
    ]

  sums_zero :
      (x : F)
      → x ≡ p.field_zero
      → p.plus (p.plus (p.plus (p.plus p.field_zero x) x) x) x ≡ p.field_zero
  sums_zero x e = let none = p.plus_zero p.field_zero in rw (e, none, none, none) none

  -- A row of zeros satisfies the constraints.
  pub equality_of_zeros : AllZero (
      equality_constraints
        (word_of_zeros p)
        (word_of_zeros p)
        p.field_zero
        p.field_zero
        p.field_zero)
  unfolding equality_constraints AllZero sum_squares
  equality_of_zeros = (
    ap (p.minus p.field_zero) (
          sums_zero _
            (ap (λ t. p.times t t) (minus_self p p.field_zero) ∙ zero_times p p.field_zero))
        ∙ minus_self p p.field_zero,
    (
      zero_times p _,
      (ap (p.minus p.field_zero) (zero_times p _) ∙ minus_self p _, (times_zero p _, tt)),
    ),
  )

  -- The columns that the sum of the squares gives satisfy the constraints, with any inverse.
  pub equality_complete :
      (x y : Word F) (inverse : F)
      → (p.is_zero (sum_squares x y) ≡ false → p.times (sum_squares x y) inverse ≡ p.field_one)
      → AllZero (
          equality_constraints x y
            (sum_squares x y)
            inverse
            (if p.is_zero (sum_squares x y) then p.field_zero else p.field_one))
  unfolding equality_constraints AllZero
  equality_complete x y inverse h = elim (Bool-cases (p.is_zero (sum_squares x y))) [
    | inl none ↦
        let z = (p.is_zero_iff (sum_squares x y)).0 none in
        rw none (
          minus_self p _,
          (
            zero_times p _,
            (
              ap (p.minus p.field_zero) (ap (λ t. p.times t inverse) z ∙ zero_times p inverse)
                  ∙ minus_self p p.field_zero,
              (ap (p.times (p.minus p.field_one p.field_zero)) z ∙ times_zero p _, tt),
            ),
          ),
        )
    | inr some_diff ↦ rw some_diff (
      minus_self p _,
      (
        ap (p.times p.field_one) (minus_self p p.field_one) ∙ times_zero p _,
        (
          ap (p.minus p.field_one) (h some_diff) ∙ minus_self p p.field_one,
          (ap (λ t. p.times t (sum_squares x y)) (minus_self p p.field_one) ∙ zero_times p _, tt),
        ),
      ),
    )
  ]
