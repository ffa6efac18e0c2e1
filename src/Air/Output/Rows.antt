-- ===== src/Air/Output/Rows.antt =====
-- output/src/lib.rs: the rows of the values, their differences, and the constraint that they break.
use valida.Prelude.{
  ℕ, zero, suc, ◌+◌, ◌-◌, ◌%◌, ◌^◌, ◌≤◌, ◌≡◌, ◌≢◌, ◌∙◌, refl, sym, ap, arith, List, [], ◌∷◌, ◌++◌,
  true, false, All, length, length-append, Outcome, ok, ◌==◌, ◌*◌, ◌/◌, ◌<◌, Bool-cases, inl, inr,
  if◌then◌else◌,
}
use mathlib.Core.Path.{ap₂}
use native.Mathlib.Nat.{div-le_self}
use valida.Opcode.{code}
use valida.Chips.Output.{OutputChip}
use valida.Machine.Run.{next_power_of_two_usize}
use valida.Machine.Invariant.Padding.{usize-IsNextPower}
use valida.Air.{PrimeField, minus_zero, one_times, one_zero}
use valida.Air.Output.{
  OutputCols, row_clk, num_rows, rows_of_window, real_row, next_clk, dummy_rows, window_rows,
  value_rows, pad_rows, generate_trace, eval_opcode,
}

one_back : (n : ℕ) → n + 1 - 1 ≡ n
one_back n = omega arith

some_length : (t : ℕ) → 1 ≤ t → (t == 0) ≡ false
some_length t h = ground (arith, h)

module _ {F : Type 0} (p : PrimeField F) where
  -- The clocks and values of the rows that are real.
  unfoldable pub real_values : List (OutputCols F) → List (F × F)
  real_values [] = []
  real_values (r ∷ rows) =
      if p.is_zero r.is_real then real_values rows else (r.clk, r.value) ∷ real_values rows

  -- Each row has the difference to the next one's clock, up to the last that is real.
  unfoldable pub HasDiffs : List (OutputCols F) → Type 0
  HasDiffs [] = Unit
  HasDiffs (r ∷ []) = Unit
  HasDiffs (r ∷ s ∷ rows) = (r.diff ≡ p.minus s.clk r.clk) × HasDiffs (s ∷ rows)

  one_is_real : p.is_zero p.field_one ≡ false
  one_is_real = elim (Bool-cases (p.is_zero p.field_one)) [
    | inl no_one ↦ absurd (one_zero p ((p.is_zero_iff p.field_one).0 no_one))
    | inr real ↦ real
  ]

  zero_is_not : p.is_zero p.field_zero ≡ true
  zero_is_not = (p.is_zero_iff p.field_zero).1 refl

  dummies :
      (t c d i n : ℕ) (rest : List (OutputCols F))
      → real_values (dummy_rows p t c d i n ++ rest) ≡ real_values rest
  unfolding dummy_rows real_values
  dummies t c d i zero rest = refl
  dummies t c d i (suc n) rest = rw zero_is_not (dummies t c d (i + 1) n rest)

  abbrev pub canonical : OutputChip → List (F × F)
  canonical [] = []
  canonical (v ∷ values) = (p.from_canonical v.0, p.from_canonical v.1) ∷ canonical values

  -- The dummy rows of a window, and the rows before the padding, where nothing panics.
  abbrev more_rows : ℕ → ℕ → ℕ → ℕ
  more_rows t c d = (d + 2 ^ 32 - c) % 2 ^ 32 / t

  abbrev all_rows : ℕ → OutputChip → List (OutputCols F)
  all_rows t [] = []
  all_rows t (v ∷ []) = real_row p v.0 v.1 ∷ []
  all_rows t (v ∷ w ∷ values) =
      rows_of_window p t v w (more_rows t v.0 w.0) ++ all_rows t (w ∷ values)

  value_rows-all_rows :
      (t : ℕ) (values : OutputChip) → 1 ≤ t → value_rows p t values ≡ ok (all_rows t values)
  unfolding value_rows window_rows num_rows
  value_rows-all_rows t [] h = refl
  value_rows-all_rows t (v ∷ []) h = refl
  value_rows-all_rows t (v ∷ w ∷ values) h =
      rw (some_length t h, one_back (more_rows t v.0 w.0), value_rows-all_rows t (w ∷ values) h)
        refl

  length-dummy_rows : (t c d i n : ℕ) → length (dummy_rows p t c d i n) ≡ n
  unfolding dummy_rows
  length-dummy_rows t c d i zero = refl
  length-dummy_rows t c d i (suc n) = omega (arith, length-dummy_rows t c d (i + 1) n)

  more_rows_small : (t c d : ℕ) → more_rows t c d < 2 ^ 32
  more_rows_small t c d = omega (arith, div-le_self ((d + 2 ^ 32 - c) % 2 ^ 32) t)

  length-all_rows :
      (t : ℕ) (values : OutputChip) → length (all_rows t values) ≤ 2 ^ 32 * length values
  length-all_rows t [] = omega arith
  length-all_rows t (v ∷ []) = omega arith
  length-all_rows t (v ∷ w ∷ values) =
      let dummy = dummy_rows p t v.0 w.0 1 (more_rows t v.0 w.0) in
      omega (
        arith,
        length-append dummy (all_rows t (w ∷ values)),
        length-dummy_rows t v.0 w.0 1 (more_rows t v.0 w.0),
        more_rows_small t v.0 w.0,
        length-all_rows t (w ∷ values),
      )

  some_rows : (t : ℕ) (values : OutputChip) → 1 ≤ length values → 1 ≤ length (all_rows t values)
  some_rows t [] h = absurd (omega arith)
  some_rows t (v ∷ []) h = omega arith
  some_rows t (v ∷ w ∷ values) h = omega arith

  real_values-all_rows :
      (t : ℕ) (values : OutputChip) → real_values (all_rows t values) ≡ canonical values
  unfolding real_values
  real_values-all_rows t [] = refl
  real_values-all_rows t (v ∷ []) = rw one_is_real refl
  real_values-all_rows t (v ∷ w ∷ values) = rw one_is_real (
      ap (λ l. (p.from_canonical v.0, p.from_canonical v.1) ∷ l)
        (dummies t v.0 w.0 1 (more_rows t v.0 w.0) (all_rows t (w ∷ values))
          ∙ real_values-all_rows t (w ∷ values)))

  real_values-pad_rows :
      (n : ℕ) (rows : List (OutputCols F))
      → length rows ≤ n
      → real_values (pad_rows p n rows) ≡ real_values rows
  unfolding pad_rows real_values
  real_values-pad_rows zero [] h = refl
  real_values-pad_rows zero (r ∷ rows) h = absurd (omega arith)
  real_values-pad_rows (suc n) [] h = rw zero_is_not (real_values-pad_rows n [] (omega arith))
  real_values-pad_rows (suc n) (r ∷ rows) h = elim (Bool-cases (p.is_zero r.is_real)) [
    | inl dummy ↦ rw dummy (real_values-pad_rows n rows (omega arith))
    | inr real ↦
        rw real (ap (λ l. (r.clk, r.value) ∷ l) (real_values-pad_rows n rows (omega arith)))
  ]

  dummies-HasDiffs :
      (t c d i n : ℕ) (s : OutputCols F) (rest : List (OutputCols F))
      → s.clk ≡ p.from_canonical d
      → HasDiffs (s ∷ rest)
      → HasDiffs (dummy_rows p t c d i n ++ s ∷ rest)
  unfolding dummy_rows HasDiffs next_clk
  dummies-HasDiffs t c d i zero s rest e h = h
  dummies-HasDiffs t c d i (suc zero) s rest e h =
      (ap (λ x. p.minus x (p.from_canonical (row_clk t c i))) (sym e), h)
  dummies-HasDiffs t c d i (suc (suc n)) s rest e h =
      (refl, dummies-HasDiffs t c d (i + 1) (suc n) s rest e h)

  -- The first row of a window, with the dummy rows after it.
  first-HasDiffs :
      (t c d v n : ℕ) (s : OutputCols F) (rest : List (OutputCols F))
      → s.clk ≡ p.from_canonical d
      → HasDiffs (s ∷ rest)
      → HasDiffs (
          record (real_row p c v) { diff = p.minus (next_clk p t c d 0 n) (p.from_canonical c) }
          ∷ (dummy_rows p t c d 1 n ++ s ∷ rest))
  unfolding dummy_rows HasDiffs next_clk
  first-HasDiffs t c d v zero s rest e h = (ap (λ x. p.minus x (p.from_canonical c)) (sym e), h)
  first-HasDiffs t c d v (suc n) s rest e h = (refl, dummies-HasDiffs t c d 1 (suc n) s rest e h)

  all_rows-HasDiffs : (t : ℕ) (values : OutputChip) → HasDiffs (all_rows t values)
  unfolding HasDiffs
  all_rows-HasDiffs t [] = tt
  all_rows-HasDiffs t (v ∷ []) = tt
  all_rows-HasDiffs t (v ∷ w ∷ []) =
      first-HasDiffs t v.0 w.0 v.1 (more_rows t v.0 w.0) (real_row p w.0 w.1) [] refl tt
  all_rows-HasDiffs t (v ∷ w ∷ x ∷ values) =
      first-HasDiffs t v.0 w.0 v.1 (more_rows t v.0 w.0) _ _ refl
        (all_rows-HasDiffs t (w ∷ x ∷ values))

  -- No row has an opcode.
  HasNone : OutputCols F → Type 0
  HasNone r = r.opcode ≡ p.field_zero

  dummies-All :
      (t c d i n : ℕ) (rest : List (OutputCols F))
      → All HasNone rest
      → All HasNone (dummy_rows p t c d i n ++ rest)
  unfolding dummy_rows HasNone
  dummies-All t c d i zero rest h = h
  dummies-All t c d i (suc n) rest h = (refl, dummies-All t c d (i + 1) n rest h)

  all_rows-All : (t : ℕ) (values : OutputChip) → All HasNone (all_rows t values)
  unfolding HasNone
  all_rows-All t [] = tt
  all_rows-All t (v ∷ []) = (refl, tt)
  all_rows-All t (v ∷ w ∷ values) = (
    refl,
    dummies-All t v.0 w.0 1 (more_rows t v.0 w.0) (all_rows t (w ∷ values))
        (all_rows-All t (w ∷ values)),
  )

  pad_rows-All :
      (n : ℕ) (rows : List (OutputCols F)) → All HasNone rows → All HasNone (pad_rows p n rows)
  unfolding pad_rows HasNone
  pad_rows-All zero rows h = tt
  pad_rows-All (suc n) [] h = (refl, pad_rows-All n [] tt)
  pad_rows-All (suc n) (r ∷ rows) h = (h.0, pad_rows-All n rows h.1)

  -- A real row does not satisfy the constraint on the opcode.
  abbrev pub Breaks : OutputCols F → Type 0
  Breaks r = r.is_real ≡ p.field_one → eval_opcode p r ≢ p.field_zero

  none-Breaks : (r : OutputCols F) → HasNone r → Breaks r
  unfolding HasNone eval_opcode code
  none-Breaks r e real zero_eval =
      let equal : p.field_zero ≡ p.from_canonical 300 =
        minus_zero p p.field_zero (p.from_canonical 300) (
          sym (one_times p _)
          ∙ ap₂ (λ x y. p.times x (p.minus y (p.from_canonical 300))) (sym real) (sym e)
          ∙ zero_eval) in
      absurd
        (omega (arith, p.from_injective 0 300 (omega arith) (omega arith) (p.from_zero ∙ equal)))

  All-Breaks : (rows : List (OutputCols F)) → All HasNone rows → All Breaks rows
  All-Breaks [] h = tt
  All-Breaks (r ∷ rows) h = (none-Breaks r h.0, All-Breaks rows h.1)

  -- A trace that is computed.
  pub record Traced (values : OutputChip) (o : Outcome (List (OutputCols F))) : Type 0 where
    pub rows : List (OutputCols F)
    pub trace : List (OutputCols F)
    pub before_padding : value_rows p (length values % 2 ^ 32) values ≡ ok rows
    pub returns : o ≡ ok trace
    pub padded : trace ≡ pad_rows p (next_power_of_two_usize (length rows)) rows
    pub real : real_values trace ≡ canonical values
    pub diffs : HasDiffs rows
    pub breaks : All Breaks trace

  -- For a number of values from 1 to 2 ^ 31, the output chip returns a trace: its rows that are
  -- real have the clocks and the bytes of the values written, in order; before the padding each
  -- row has the difference to the clock of the next; and every row whose flag is one breaks the
  -- constraint on the opcode.
  pub real_values-generate_trace :
      (values : OutputChip)
      → 1 ≤ length values
      → length values ≤ 2 ^ 31
      → Traced values (generate_trace p values)
  unfolding generate_trace
  real_values-generate_trace values some_value small =
      let t = length values % 2 ^ 32 in
      let rows = all_rows t values in
      let computed = value_rows-all_rows t values (omega (arith, some_value, small)) in
      let n = next_power_of_two_usize (length rows) in
      let power =
        usize-IsNextPower (length rows) (some_rows t values some_value)
          (omega (arith, length-all_rows t values, small)) in
      record {
        rows = rows;
        trace = pad_rows p n rows;
        before_padding = computed;
        returns = rw computed refl;
        padded = refl;
        real = real_values-pad_rows n rows power.enough ∙ real_values-all_rows t values;
        diffs = all_rows-HasDiffs t values;
        breaks = All-Breaks _ (pad_rows-All n rows (all_rows-All t values));
      }
