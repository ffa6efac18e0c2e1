-- ===== src/Air/Add/Honest.antt =====
-- alu_u32/src/add: the row that the chip writes for a sum satisfies the constraints.
use valida.Prelude.{ℕ, zero, suc, ◌+◌, ◌*◌, ◌%◌, ◌^◌, ◌≤◌, ◌<◌, ◌≡◌, inl, inr, ◌∙◌, refl, ap, arith}
use valida.Word.{Word, IsWord, into_u32, transform}
use valida.Chips.Alu.{add32}
use valida.Air.{PrimeField, minus_self}
use valida.Air.Add.{
  Add32Cols, carry_of, op_to_row, base, overflow_0, overflow_1, overflow_2, overflow_3,
  limb_constraint, carry_constraint, bool_constraint, eval, Holds,
}
use valida.Air.Add.Rows.{overflow_value, no_carry}

-- The carries of the sum of two words, and its bytes.
record IsSum (a b c : Word ℕ) (k1 k2 k3 k4 : ℕ) : Type 0 where
  small_1 : k1 ≤ 1
  small_2 : k2 ≤ 1
  small_3 : k3 ≤ 1
  small_4 : k4 ≤ 1
  sum_3 : b.byte_3 + c.byte_3 + 0 ≡ a.byte_3 + 2 ^ 8 * k1
  sum_2 : b.byte_2 + c.byte_2 + k1 ≡ a.byte_2 + 2 ^ 8 * k2
  sum_1 : b.byte_1 + c.byte_1 + k2 ≡ a.byte_1 + 2 ^ 8 * k3
  sum_0 : b.byte_0 + c.byte_0 + k3 ≡ a.byte_0 + 2 ^ 8 * k4

carry_of-le : (x y k : ℕ) → carry_of x y k ≤ 1
carry_of-le x y k = ground arith

carry_of-sum :
    (x y k : ℕ)
    → x < 2 ^ 8
    → y < 2 ^ 8
    → k ≤ 1
    → x + y + k ≡ (x + y + k) % 2 ^ 8 + 2 ^ 8 * carry_of x y k
carry_of-sum x y k hx hy hk = ground arith

carries-IsSum :
    (a b c : Word ℕ)
    → IsWord a
    → IsWord b
    → IsWord c
    → into_u32 a ≡ (into_u32 b + into_u32 c) % 2 ^ 32
    → (k1 k2 k3 k4 : ℕ) → k1 ≡ carry_of b.byte_3 c.byte_3 0
    → k2 ≡ carry_of b.byte_2 c.byte_2 k1
    → k3 ≡ carry_of b.byte_1 c.byte_1 k2
    → k4 ≡ carry_of b.byte_0 c.byte_0 k3
    → IsSum a b c k1 k2 k3 k4
unfolding into_u32
carries-IsSum a b c ha hb hc e k1 k2 k3 k4 e1 e2 e3 e4 =
    let s1 : k1 ≤ 1 = omega (arith, e1, carry_of-le b.byte_3 c.byte_3 0) in
    let s2 : k2 ≤ 1 = omega (arith, e2, carry_of-le b.byte_2 c.byte_2 k1) in
    let s3 : k3 ≤ 1 = omega (arith, e3, carry_of-le b.byte_1 c.byte_1 k2) in
    let s4 : k4 ≤ 1 = omega (arith, e4, carry_of-le b.byte_0 c.byte_0 k3) in
    let c3 = carry_of-sum b.byte_3 c.byte_3 0 hb.fits_3 hc.fits_3 (omega arith) in
    let c2 = carry_of-sum b.byte_2 c.byte_2 k1 hb.fits_2 hc.fits_2 s1 in
    let c1 = carry_of-sum b.byte_1 c.byte_1 k2 hb.fits_1 hc.fits_1 s2 in
    let c0 = carry_of-sum b.byte_0 c.byte_0 k3 hb.fits_0 hc.fits_0 s3 in
    record {
      small_1 = s1;
      small_2 = s2;
      small_3 = s3;
      small_4 = s4;
      sum_3 = omega (arith, e, e1, c3);
      sum_2 = omega (arith, e, e1, e2, c3, c2);
      sum_1 = omega (arith, e, e1, e2, e3, c3, c2, c1);
      sum_0 = omega (arith, e, e1, e2, e3, e4, c3, c2, c1, c0);
    }

module _ {F : Type 0} (p : PrimeField F) where
  limb_holds :
      (k : ℕ) (o : F)
      → k ≤ 1
      → o ≡ p.from_canonical (2 ^ 8 * k)
      → limb_constraint p o ≡ p.field_zero
  limb_holds zero o small e = (p.times_iff o _).1 (inl (e ∙ p.from_zero))
  limb_holds (suc zero) o small e =
      (p.times_iff o _).1 (inr (ap (λ t. p.minus t (base p)) e ∙ minus_self p (base p)))
  limb_holds (suc (suc k)) o small e = absurd (omega arith)

  zeros : (u v : F) → u ≡ p.field_zero → v ≡ p.field_zero → p.plus u v ≡ p.field_zero
  zeros u v h k = ap (λ t. p.plus t v) h ∙ ap (p.plus p.field_zero) k ∙ p.plus_zero p.field_zero

  one_less : p.minus (p.from_canonical 1) p.field_one ≡ p.field_zero
  one_less = ap (λ t. p.minus t p.field_one) p.from_one ∙ minus_self p p.field_one

  carry_holds :
      (k : ℕ) (o : F)
      → k ≤ 1
      → o ≡ p.from_canonical (2 ^ 8 * k)
      → carry_constraint p o (p.from_canonical k) ≡ p.field_zero
  carry_holds zero o small e =
      zeros _ _ ((p.times_iff o _).1 (inl (e ∙ p.from_zero)))
        ((p.times_iff _ (p.from_canonical 0)).1 (inr p.from_zero))
  carry_holds (suc zero) o small e = zeros _ _ ((p.times_iff o _).1 (inr one_less)) (
      (p.times_iff _ (p.from_canonical 1)).1
        (inl (ap (λ t. p.minus t (base p)) e ∙ minus_self p (base p))))
  carry_holds (suc (suc k)) o small e = absurd (omega arith)

  bool_holds : (k : ℕ) → k ≤ 1 → bool_constraint p (p.from_canonical k) ≡ p.field_zero
  bool_holds zero small = (p.times_iff _ _).1 (inl p.from_zero)
  bool_holds (suc zero) small = (p.times_iff _ _).1 (inr one_less)
  bool_holds (suc (suc k)) small = absurd (omega arith)

  row_of : (a b c : Word ℕ) (k1 k2 k3 : ℕ) → Add32Cols F
  row_of a b c k1 k2 k3 = record {
    input_1 = transform p.from_canonical b;
    input_2 = transform p.from_canonical c;
    carry_1 = p.from_canonical k1;
    carry_2 = p.from_canonical k2;
    carry_3 = p.from_canonical k3;
    output = transform p.from_canonical a;
    is_real = p.field_one;
  }

  row_of-Holds :
      (a b c : Word ℕ) (k1 k2 k3 k4 : ℕ)
      → IsSum a b c k1 k2 k3 k4
      → Holds p (eval p (row_of a b c k1 k2 k3))
  unfolding eval Holds overflow_0 overflow_1 overflow_2 overflow_3 transform row_of
  row_of-Holds a b c k1 k2 k3 k4 s =
      let v0 : overflow_0 p (row_of a b c k1 k2 k3) ≡ p.from_canonical (2 ^ 8 * k1) =
        no_carry p _ ∙ overflow_value p b.byte_3 c.byte_3 a.byte_3 0 (2 ^ 8 * k1) s.sum_3 in
      let v1 : overflow_1 p (row_of a b c k1 k2 k3) ≡ p.from_canonical (2 ^ 8 * k2) =
        overflow_value p b.byte_2 c.byte_2 a.byte_2 k1 (2 ^ 8 * k2) s.sum_2 in
      let v2 : overflow_2 p (row_of a b c k1 k2 k3) ≡ p.from_canonical (2 ^ 8 * k3) =
        overflow_value p b.byte_1 c.byte_1 a.byte_1 k2 (2 ^ 8 * k3) s.sum_1 in
      let v3 : overflow_3 p (row_of a b c k1 k2 k3) ≡ p.from_canonical (2 ^ 8 * k4) =
        overflow_value p b.byte_0 c.byte_0 a.byte_0 k3 (2 ^ 8 * k4) s.sum_0 in
      (
        limb_holds k1 _ s.small_1 v0,
        (
          limb_holds k2 _ s.small_2 v1,
          (
            limb_holds k3 _ s.small_3 v2,
            (
              limb_holds k4 _ s.small_4 v3,
              (
                carry_holds k1 _ s.small_1 v0,
                (
                  carry_holds k2 _ s.small_2 v1,
                  (
                    carry_holds k3 _ s.small_3 v2,
                    (
                      bool_holds k1 s.small_1,
                      (bool_holds k2 s.small_2, (bool_holds k3 s.small_3, tt)),
                    ),
                  ),
                ),
              ),
            ),
          ),
        ),
      )

  -- The row that the addition chip writes for a sum of two words mod 2 ^ 32 satisfies all its
  -- constraints.
  pub eval_complete :
      (a b c : Word ℕ)
      → IsWord a
      → IsWord b
      → IsWord c
      → into_u32 a ≡ (into_u32 b + into_u32 c) % 2 ^ 32
      → Holds p (eval p (op_to_row p (add32 a b c)))
  unfolding op_to_row row_of
  eval_complete a b c ha hb hc e =
      row_of-Holds a b c _ _ _ _ (carries-IsSum a b c ha hb hc e _ _ _ _ refl refl refl refl)
