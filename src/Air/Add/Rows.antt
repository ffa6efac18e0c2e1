-- ===== src/Air/Add/Rows.antt =====
-- alu_u32/src/add: the constraints hold of a row exactly where it adds, for words of bytes.
use valida.Prelude.{
  ℕ, zero, suc, ◌+◌, ◌*◌, ◌%◌, ◌^◌, ◌≤◌, ◌<◌, ◌≡◌, ◌≢◌, inl, inr, ◌∙◌, refl, sym, ap, arith,
}
use valida.Word.{Word, IsWord, into_u32, transform}
use valida.Air.{PrimeField, carried, minus_self, minus_zero, zero_plus}
use valida.Air.Add.{
  Add32Cols, base, limb, overflow_0, overflow_1, overflow_2, overflow_3, limb_constraint,
  carry_constraint, eval, Holds,
}

module _ {F : Type 0} (p : PrimeField F) where
  -- The overflow of a limb is 2 ^ 8 times its carry.
  record IsLimb (x y z k : ℕ) (o : F) : Type 0 where
    carry : ℕ
    small : carry ≤ 1
    value : o ≡ p.from_canonical (2 ^ 8 * carry)
    sums : x + y + k ≡ z + 2 ^ 8 * carry

  sum_of :
      (x y k : ℕ)
      → p.plus (p.plus (p.from_canonical x) (p.from_canonical y)) (p.from_canonical k)
        ≡ p.from_canonical (x + y + k)
  sum_of x y k = ap (λ t. p.plus t (p.from_canonical k)) (p.from_plus x y) ∙ p.from_plus (x + y) k

  -- An overflow that is a number balances the bytes, and conversely.
  balanced :
      (x y z k v : ℕ)
      → x + y + k < 2 ^ 30
      → z + v < 2 ^ 30
      → p.plus
          (limb p (p.from_canonical x) (p.from_canonical y) (p.from_canonical z))
          (p.from_canonical k)
        ≡ p.from_canonical v
      → x + y + k ≡ z + v
  balanced x y z k v h j e = p.from_injective (x + y + k) (z + v) h j (
      sym (sum_of x y k)
      ∙ (carried p _ (p.from_canonical z) (p.from_canonical k) (p.from_canonical v)).0 e
      ∙ p.from_plus z v)

  pub overflow_value :
      (x y z k v : ℕ)
      → x + y + k ≡ z + v
      → p.plus
          (limb p (p.from_canonical x) (p.from_canonical y) (p.from_canonical z))
          (p.from_canonical k)
        ≡ p.from_canonical v
  overflow_value x y z k v e =
      (carried p _ (p.from_canonical z) (p.from_canonical k) (p.from_canonical v)).1
        (sum_of x y k ∙ ap p.from_canonical e ∙ sym (p.from_plus z v))

  limb-IsLimb :
      (x y z k : ℕ) (o : F)
      → x < 2 ^ 8
      → y < 2 ^ 8
      → z < 2 ^ 8
      → k ≤ 1
      → o
        ≡ p.plus
            (limb p (p.from_canonical x) (p.from_canonical y) (p.from_canonical z))
            (p.from_canonical k)
      → limb_constraint p o ≡ p.field_zero
      → IsLimb x y z k o
  limb-IsLimb x y z k o hx hy hz hk same e = elim ((p.times_iff o (p.minus o (base p))).0 e) [
    | inl none_over ↦
        let value : o ≡ p.from_canonical 0 = none_over ∙ sym p.from_zero in
        record {
          carry = 0;
          small = omega arith;
          value = value;
          sums = balanced x y z k 0 (omega arith) (omega arith) (sym same ∙ value);
        }
    | inr over ↦
        let value : o ≡ p.from_canonical (2 ^ 8) = minus_zero p o (base p) over in
        record {
          carry = 1;
          small = omega arith;
          value = value;
          sums = balanced x y z k (2 ^ 8) (omega arith) (omega arith) (sym same ∙ value);
        }
  ]

  base_nonzero : p.from_canonical 0 ≢ p.from_canonical (2 ^ 8)
  base_nonzero e = absurd (omega (arith, p.from_injective 0 (2 ^ 8) (omega arith) (omega arith) e))

  -- The carry's column is the limb's carry.
  carry-links :
      (k : ℕ) (o carry : F)
      → k ≤ 1
      → o ≡ p.from_canonical (2 ^ 8 * k)
      → carry_constraint p o carry ≡ p.field_zero
      → carry ≡ p.from_canonical k
  carry-links zero o carry small value e =
      let none_over : o ≡ p.field_zero = value ∙ p.from_zero in
      let first = (p.times_iff o (p.minus carry p.field_one)).1 (inl none_over) in
      let second : p.times (p.minus o (base p)) carry ≡ p.field_zero =
        sym (zero_plus p _)
        ∙ ap (λ t. p.plus t (p.times (p.minus o (base p)) carry)) (sym first)
        ∙ e in
      elim ((p.times_iff (p.minus o (base p)) carry).0 second) [
        | inl over ↦ absurd (base_nonzero (sym value ∙ minus_zero p o (base p) over))
        | inr unset ↦ unset ∙ sym p.from_zero
      ]
  carry-links (suc zero) o carry small value e =
      let second =
        (p.times_iff (p.minus o (base p)) carry).1
          (inl (ap (λ t. p.minus t (base p)) value ∙ minus_self p (base p))) in
      let first : p.times o (p.minus carry p.field_one) ≡ p.field_zero =
        sym (p.plus_zero _)
        ∙ ap (p.plus (p.times o (p.minus carry p.field_one))) (sym second)
        ∙ e in
      elim ((p.times_iff o (p.minus carry p.field_one)).0 first) [
        | inl none_over ↦ absurd (base_nonzero (p.from_zero ∙ sym none_over ∙ value))
        | inr set ↦ minus_zero p carry p.field_one set ∙ sym p.from_one
      ]
  carry-links (suc (suc k)) o carry small value e = absurd (omega arith)

  -- The first limb has no carry in.
  pub no_carry : (o : F) → o ≡ p.plus o (p.from_canonical 0)
  no_carry o = sym (ap (p.plus o) p.from_zero ∙ p.plus_zero o)

  same_limb :
      (u v w s x y z k : F)
      → u ≡ x
      → v ≡ y
      → w ≡ z
      → s ≡ k
      → p.plus (limb p u v w) s ≡ p.plus (limb p x y z) k
  same_limb u v w s x y z k hu hv hw hs = cc

  -- A row of the addition chip whose inputs and output are three words of bytes and which
  -- satisfies the constraints, with any carries, has the sum of the inputs mod 2 ^ 32 as its
  -- output, in a field of order above 2 ^ 30.
  pub eval_sound :
      (r : Add32Cols F) (a b c : Word ℕ)
      → IsWord a
      → IsWord b
      → IsWord c
      → r.input_1 ≡ transform p.from_canonical b
      → r.input_2 ≡ transform p.from_canonical c
      → r.output ≡ transform p.from_canonical a
      → Holds p (eval p r)
      → into_u32 a ≡ (into_u32 b + into_u32 c) % 2 ^ 32
  unfolding eval Holds overflow_0 overflow_1 overflow_2 overflow_3 transform into_u32
  eval_sound r a b c ha hb hc e1 e2 e3 (h0, (h1, (h2, (h3, (c1, (c2, (c3, bools))))))) =
      let l0 =
        limb-IsLimb b.byte_3 c.byte_3 a.byte_3 0 (overflow_0 p r) hb.fits_3 hc.fits_3 ha.fits_3
          (omega arith)
          (no_carry _
            ∙ same_limb _ _ _ _ _ _ _ _ (ap (λ w. w.byte_3) e1) (ap (λ w. w.byte_3) e2)
                (ap (λ w. w.byte_3) e3) refl)
          h0 in
      let k1 = carry-links l0.carry (overflow_0 p r) r.carry_1 l0.small l0.value c1 in
      let l1 =
        limb-IsLimb b.byte_2 c.byte_2 a.byte_2 l0.carry (overflow_1 p r) hb.fits_2 hc.fits_2
          ha.fits_2 l0.small
          (same_limb _ _ _ _ _ _ _ _ (ap (λ w. w.byte_2) e1) (ap (λ w. w.byte_2) e2)
            (ap (λ w. w.byte_2) e3) k1)
          h1 in
      let k2 = carry-links l1.carry (overflow_1 p r) r.carry_2 l1.small l1.value c2 in
      let l2 =
        limb-IsLimb b.byte_1 c.byte_1 a.byte_1 l1.carry (overflow_2 p r) hb.fits_1 hc.fits_1
          ha.fits_1 l1.small
          (same_limb _ _ _ _ _ _ _ _ (ap (λ w. w.byte_1) e1) (ap (λ w. w.byte_1) e2)
            (ap (λ w. w.byte_1) e3) k2)
          h2 in
      let k3 = carry-links l2.carry (overflow_2 p r) r.carry_3 l2.small l2.value c3 in
      let l3 =
        limb-IsLimb b.byte_0 c.byte_0 a.byte_0 l2.carry (overflow_3 p r) hb.fits_0 hc.fits_0
          ha.fits_0 l2.small
          (same_limb _ _ _ _ _ _ _ _ (ap (λ w. w.byte_0) e1) (ap (λ w. w.byte_0) e2)
            (ap (λ w. w.byte_0) e3) k3)
          h3 in
      omega (arith, l0.sums, l1.sums, l2.sums, l3.sums, l3.small)
