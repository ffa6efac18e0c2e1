-- ===== src/Air/Squares.antt =====
-- Squares of differences in the field, as numbers.
use valida.Prelude.{
  ℕ, ◌+◌, ◌-◌, ◌*◌, ◌≤◌, ◌≡◌, refl, sym, ap, ◌∙◌, arith, inl, inr, Bool-cases, ltb, ltb→lt, ltb→le,
}
use valida.Air.{PrimeField, carried, plus_cancel}

-- The distance of two numbers.
abbrev pub distance : ℕ → ℕ → ℕ
distance a b = (a - b) + (b - a)

module _ {F : Type 0} (p : PrimeField F) where
  abbrev pub square : F → F
  square x = p.times x x

  pub from_minus :
      (m n : ℕ)
      → n ≤ m
      → p.minus (p.from_canonical m) (p.from_canonical n) ≡ p.from_canonical (m - n)
  from_minus m n h =
      (p.minus_iff _ _ _).1 (ap p.from_canonical (omega arith) ∙ sym (p.from_plus n (m - n)))

  -- `u + v = 0` where `u` and `v` are the two differences.
  opposite : (x y : F) → p.plus (p.minus x y) (p.minus y x) ≡ p.field_zero
  opposite x y =
      (carried p x y (p.minus y x) p.field_zero).1
        (sym ((p.minus_iff y x (p.minus y x)).0 refl) ∙ sym (p.plus_zero y))

  by_opposite :
      (u v : F) → p.plus u v ≡ p.field_zero → p.plus (p.times u v) (square u) ≡ p.field_zero
  by_opposite u v e =
      sym (p.times_plus u v u)
      ∙ ap (p.times u) (p.plus_comm v u ∙ e)
      ∙ (p.times_iff u p.field_zero).1 (inr refl)

  square_opposite : (x y : F) → square (p.minus x y) ≡ square (p.minus y x)
  square_opposite x y =
      let u = p.minus x y in
      let v = p.minus y x in
      plus_cancel p (p.times u v) (square u) (square v) (
        by_opposite u v (opposite x y)
        ∙ sym (ap (λ t. p.plus t (square v)) (p.times_comm u v) ∙ by_opposite v u (opposite y x)))

  pub square-distance :
      (m n : ℕ)
      → square (p.minus (p.from_canonical m) (p.from_canonical n))
        ≡ p.from_canonical (distance m n * distance m n)
  square-distance m n = elim (Bool-cases (ltb m n)) [
    | inl less ↦
        square_opposite (p.from_canonical m) (p.from_canonical n)
        ∙ ap square (from_minus n m (omega (arith, ltb→lt m n less)))
        ∙ p.from_times (n - m) (n - m)
        ∙ ap p.from_canonical (ap (λ k. k * k) (omega (arith, ltb→lt m n less)))
    | inr more ↦
        ap square (from_minus m n (ltb→le m n more))
        ∙ p.from_times (m - n) (m - n)
        ∙ ap p.from_canonical (ap (λ k. k * k) (omega (arith, ltb→le m n more)))
  ]
