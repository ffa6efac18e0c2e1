-- ===== src/Air/Sub/Borrows.antt =====
-- alu_u32/src/sub: a row that satisfies the constraints subtracts without a borrow at the end.
use valida.Prelude.{ℕ, ◌+◌, ◌*◌, ◌^◌, ◌≤◌, ◌<◌, ◌≡◌, ◌∙◌, refl, sym, ap, arith}
use valida.Word.{Word, IsWord, into_u32, transform}
use valida.Air.{PrimeField, minus_zero, times_digit, digit_of}
use valida.Air.Sub.{Sub32Cols, borrowed, eval, Holds}

module _ {F : Type 0} (p : PrimeField F) where
  -- A difference of a difference, as an equation of sums.
  difference_lem :
      (u v w z : ℕ)
      → u < 2 ^ 30
      → v + (w + z) < 2 ^ 30
      → p.from_canonical z
        ≡ p.minus (p.minus (p.from_canonical u) (p.from_canonical v)) (p.from_canonical w)
      → u ≡ v + (w + z)
  difference_lem u v w z hu hv e = p.from_injective u (v + (w + z)) hu hv (
      (p.minus_iff (p.from_canonical u) (p.from_canonical v) (p.from_canonical (w + z))).0
        ((p.minus_iff _ (p.from_canonical w) (p.from_canonical z)).0 (sym e) ∙ p.from_plus w z)
      ∙ p.from_plus v (w + z))

  with_borrow :
      (x k : ℕ)
      → k ≤ 1
      → p.plus (p.times (p.from_canonical (2 ^ 8)) (p.from_canonical k)) (p.from_canonical x)
        ≡ p.from_canonical (2 ^ 8 * k + x)
  with_borrow x k small =
      ap (λ t. p.plus t (p.from_canonical x)) (times_digit p (2 ^ 8) k small)
      ∙ p.from_plus (2 ^ 8 * k) x

  -- One byte of the subtraction, with the borrow that it makes and the one that it gives.
  byte_lem :
      (x y z k w : ℕ) (out u v s t : F)
      → x < 2 ^ 8
      → y < 2 ^ 8
      → z < 2 ^ 8
      → k ≤ 1
      → w ≤ 1
      → out ≡ p.from_canonical z
      → u ≡ p.from_canonical x
      → v ≡ p.from_canonical y
      → s ≡ p.from_canonical k
      → t ≡ p.from_canonical w
      → p.minus out (p.minus (borrowed p s u v) t) ≡ p.field_zero
      → 2 ^ 8 * k + x ≡ y + (w + z)
  byte_lem x y z k w out u v s t hx hy hz hk hw eo eu ev es et e =
      difference_lem (2 ^ 8 * k + x) y w z (omega arith) (omega arith) (
        sym eo
        ∙ minus_zero p out (p.minus (borrowed p s u v) t) e
        ∙ same
        ∙ ap (λ q. p.minus (p.minus q (p.from_canonical y)) (p.from_canonical w))
            (with_borrow x k hk))
    where
      same :
          p.minus (borrowed p s u v) t
          ≡ p.minus
              (borrowed p (p.from_canonical k) (p.from_canonical x) (p.from_canonical y))
              (p.from_canonical w)
      same = cc (eu, ev, es, et)

  minus_none : (x : F) → x ≡ p.minus x (p.from_canonical 0)
  minus_none x = sym (
      (p.minus_iff x (p.from_canonical 0) x).1 (
        sym (p.plus_zero x) ∙ ap (p.plus x) (sym p.from_zero) ∙ p.plus_comm x (p.from_canonical 0)))

  -- The last byte makes no borrow.
  last_byte_lem :
      (x y z w : ℕ) (out u v t : F)
      → x < 2 ^ 8
      → y < 2 ^ 8
      → z < 2 ^ 8
      → w ≤ 1
      → out ≡ p.from_canonical z
      → u ≡ p.from_canonical x
      → v ≡ p.from_canonical y
      → t ≡ p.from_canonical w
      → p.minus out (p.minus (p.minus u v) t) ≡ p.field_zero
      → x ≡ y + (w + z)
  last_byte_lem x y z w out u v t hx hy hz hw eo eu ev et e =
      difference_lem x y w z (omega arith) (omega arith)
        (sym eo ∙ minus_zero p out (p.minus (p.minus u v) t) e ∙ cc (eu, ev, et))

  -- A row of the subtraction chip with words of bytes that satisfies the constraints has a first
  -- input that is the sum of the second and the output, without a wrap.
  pub eval_no_wrap :
      (r : Sub32Cols F) (a b c : Word ℕ)
      → IsWord a
      → IsWord b
      → IsWord c
      → r.input_1 ≡ transform p.from_canonical b
      → r.input_2 ≡ transform p.from_canonical c
      → r.output ≡ transform p.from_canonical a
      → Holds p (eval p r)
      → into_u32 b ≡ into_u32 c + into_u32 a
  unfolding eval Holds transform into_u32
  eval_no_wrap r a b c ha hb hc e1 e2 e3 (h3, (h2, (h1, (h0, (d1, (d2, (d3, rest))))))) =
      let (k1, s1, v1) = digit_of p r.borrow_1 d1 in
      let (k2, s2, v2) = digit_of p r.borrow_2 d2 in
      let (k3, s3, v3) = digit_of p r.borrow_3 d3 in
      let b3 =
        byte_lem b.byte_3 c.byte_3 a.byte_3 k1 0 r.output.byte_3 r.input_1.byte_3 r.input_2.byte_3
          r.borrow_1 (p.from_canonical 0) hb.fits_3 hc.fits_3 ha.fits_3 s1 (omega arith)
          (ap (λ w. w.byte_3) e3) (ap (λ w. w.byte_3) e1) (ap (λ w. w.byte_3) e2) v1 refl
          (ap (p.minus r.output.byte_3) (sym (minus_none _)) ∙ h3) in
      let b2 =
        byte_lem b.byte_2 c.byte_2 a.byte_2 k2 k1 r.output.byte_2 r.input_1.byte_2 r.input_2.byte_2
          r.borrow_2 r.borrow_1 hb.fits_2 hc.fits_2 ha.fits_2 s2 s1 (ap (λ w. w.byte_2) e3)
          (ap (λ w. w.byte_2) e1) (ap (λ w. w.byte_2) e2) v2 v1 h2 in
      let b1 =
        byte_lem b.byte_1 c.byte_1 a.byte_1 k3 k2 r.output.byte_1 r.input_1.byte_1 r.input_2.byte_1
          r.borrow_3 r.borrow_2 hb.fits_1 hc.fits_1 ha.fits_1 s3 s2 (ap (λ w. w.byte_1) e3)
          (ap (λ w. w.byte_1) e1) (ap (λ w. w.byte_1) e2) v3 v2 h1 in
      let b0 =
        last_byte_lem b.byte_0 c.byte_0 a.byte_0 k3 r.output.byte_0 r.input_1.byte_0
          r.input_2.byte_0 r.borrow_3 hb.fits_0 hc.fits_0 ha.fits_0 s3 (ap (λ w. w.byte_0) e3)
          (ap (λ w. w.byte_0) e1) (ap (λ w. w.byte_0) e2) v3 h0 in
      omega (arith, b3, b2, b1, b0)
