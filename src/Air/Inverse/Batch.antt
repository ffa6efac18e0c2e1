-- ===== src/Air/Inverse/Batch.antt =====
-- util/src/lib.rs: what the loops over a batch give.
use valida.Prelude.{
  suc, ◌≡◌, refl, sym, ap, ◌∙◌, arith, List, [], ◌∷◌, ◌++◌, ok, set, length, true, false,
  Bool-cases, inl, inr, if◌then◌else◌, length-append,
}
use mathlib.Core.List.{append_assoc}
use mathlib.Core.Path.{ap₂}
use valida.Air.{PrimeField}
use valida.Air.Inverse.{
  nonzero_values, indices, reconstruct, batch_multiplicative_inverse_allowing_zero,
}

set-append :
    {A : Type 0} (before after : List A) (x y : A)
    → set (before ++ x ∷ after) (length before) y ≡ before ++ y ∷ after
set-append [] after x y = refl
set-append (z ∷ before) after x y = ap (λ l. z ∷ l) (set-append before after x y)

module _ {F : Type 0} (p : PrimeField F) where
  -- The second list holds an inverse of each element of the first.
  unfoldable pub AreInverses : List F → List F → Type 0
  AreInverses [] [] = Unit
  AreInverses [] (y ∷ ys) = ⊥
  AreInverses (x ∷ xs) [] = ⊥
  AreInverses (x ∷ xs) (y ∷ ys) = (p.times x y ≡ p.field_one) × AreInverses xs ys

  -- The same, with zero for zero.
  unfoldable pub AreInversesOrZero : List F → List F → Type 0
  AreInversesOrZero [] [] = Unit
  AreInversesOrZero [] (y ∷ ys) = ⊥
  AreInversesOrZero (x ∷ xs) [] = ⊥
  AreInversesOrZero (x ∷ xs) (y ∷ ys) =
      (if p.is_zero x then y ≡ p.field_zero else p.times x y ≡ p.field_one)
      × AreInversesOrZero xs ys

  record Rebuilt (before values inverses : List F) : Type 0 where
    found : List F
    same :
        reconstruct p (before ++ values) (indices p (length before) values) inverses
        ≡ ok (before ++ found)
    right : AreInversesOrZero values found

  length-snoc : (before : List F) (x : F) → length (before ++ x ∷ []) ≡ suc (length before)
  length-snoc before x = length-append before (x ∷ []) ∙ omega arith

  -- What the loop over the elements after `x` gives, with `y` in the place of `x`.
  shift :
      (before : List F) (y : F) (xs inverses : List F)
      → (rest : Rebuilt (before ++ y ∷ []) xs inverses)
      → reconstruct p (before ++ y ∷ xs) (indices p (suc (length before)) xs) inverses
        ≡ ok (before ++ y ∷ rest.found)
  shift before y xs inverses rest =
      ap₂ (λ l k. reconstruct p l (indices p k xs) inverses) (sym (append_assoc before (y ∷ []) xs))
        (sym (length-snoc before y))
      ∙ rest.same
      ∙ ap ok (append_assoc before (y ∷ []) rest.found)

  zero_step :
      (before : List F) (x : F) (xs inverses : List F)
      → p.is_zero x ≡ true
      → Rebuilt (before ++ x ∷ []) xs inverses
      → Rebuilt before (x ∷ xs) inverses
  unfolding AreInversesOrZero indices
  zero_step before x xs inverses z rest = record {
    found = x ∷ rest.found;
    same = rw z (shift before x xs inverses rest);
    right = (rw z ((p.is_zero_iff x).0 z), rest.right);
  }

  nonzero_step :
      (before : List F) (x : F) (xs : List F) (y : F) (inverses : List F)
      → p.is_zero x ≡ false
      → p.times x y ≡ p.field_one
      → Rebuilt (before ++ y ∷ []) xs inverses
      → Rebuilt before (x ∷ xs) (y ∷ inverses)
  unfolding AreInversesOrZero indices reconstruct
  nonzero_step before x xs y inverses n e rest = record {
    found = y ∷ rest.found;
    same = rw n (
        ap (λ l. reconstruct p l (indices p (suc (length before)) xs) inverses)
          (set-append before xs x y)
        ∙ shift before y xs inverses rest);
    right = (rw n e, rest.right);
  }

  rebuilt :
      (values before inverses : List F)
      → AreInverses (nonzero_values p values) inverses
      → Rebuilt before values inverses
  unfolding AreInverses AreInversesOrZero nonzero_values indices reconstruct
  rebuilt [] before [] h = record { found = []; same = refl; right = tt }
  rebuilt [] before (y ∷ ys) h = elim h [ ]
  rebuilt (x ∷ xs) before [] h = elim (Bool-cases (p.is_zero x)) [
    | inl z ↦ zero_step before x xs [] z (rebuilt xs (before ++ x ∷ []) [] (rw z at h))
    | inr n ↦ absurd (rw n at h)
  ]
  rebuilt (x ∷ xs) before (y ∷ ys) h = elim (Bool-cases (p.is_zero x)) [
    | inl z ↦ zero_step before x xs (y ∷ ys) z (rebuilt xs (before ++ x ∷ []) (y ∷ ys) (rw z at h))
    | inr n ↦
        let (e, rest) = rw n at h in
        nonzero_step before x xs y ys n e (rebuilt xs (before ++ y ∷ []) ys rest)
  ]

  -- Where the external batch inversion gives inverses of the elements that are not zero, the
  -- batch inversion that allows zero does not panic, and gives an inverse in the place of each
  -- element that is not zero and zero in the place of zero.
  pub batch-AreInversesOrZero :
      (batch : List F → List F) (values : List F)
      → AreInverses (nonzero_values p values) (batch (nonzero_values p values))
      → (inverses : List F) × (batch_multiplicative_inverse_allowing_zero p batch values
          ≡ ok inverses)
        × AreInversesOrZero values inverses
  unfolding batch_multiplicative_inverse_allowing_zero
  batch-AreInversesOrZero batch values h =
      let r = rebuilt values [] (batch (nonzero_values p values)) h in (r.found, r.same, r.right)
