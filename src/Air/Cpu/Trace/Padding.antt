-- ===== src/Air/Cpu/Trace/Padding.antt =====
-- cpu/src/lib.rs, `generate_trace`: the whole trace.
use valida.Prelude.{
  ℕ, zero, suc, ◌+◌, ◌-◌, ◌%◌, ◌^◌, ◌≤◌, ◌<◌, ◌≡◌, ◌∙◌, refl, ap, arith, List, [], ◌∷◌, ◌++◌, map,
  some, Outcome, ok, length, length-append,
}
use valida.Memory.{MemoryChip}
use valida.Machine.Run.{next_power_of_two_usize}
use valida.Machine.Invariant.Padding.{usize-IsNextPower}
use valida.Chips.Cpu.{CpuChip}
use valida.Air.{PrimeField}
use valida.Air.Equality.{AllZero, equality_constraints, equality_complete, equality_of_zeros}
use valida.Air.Inverse.{nonzero_values}
use valida.Air.Inverse.Batch.{AreInverses, AreInversesOrZero, batch-AreInversesOrZero}
use valida.Air.Cpu.{CpuCols, read_value_1, read_value_2}
use valida.Air.Cpu.Trace.{
  word_diff, rows_from, set_diffs, compute_word_diffs, last_row, padded_row, padded_rows,
  pad_to_power_of_two, generate_trace,
}
use valida.Air.Cpu.Trace.Rows.{AreClocked, rows_from_total}

module _ {F : Type 0} (p : PrimeField F) where
  -- The row's columns for the test of its two words.
  unfoldable pub IsTested : CpuCols F → Type 0
  IsTested r =
      AllZero p
        (equality_constraints p (read_value_1 r) (read_value_2 r) r.diff r.diff_inv r.not_equal)

  -- The clocks count from `k`, and each row has its test.
  unfoldable pub AreRows : ℕ → List (CpuCols F) → Type 0
  unfolding IsTested
  AreRows k [] = Unit
  AreRows k (r ∷ rows) = (r.clk ≡ p.from_canonical k) × IsTested r × AreRows (suc k) rows

  set_diffs-AreRows :
      (k : ℕ) (rows : List (CpuCols F)) (invs : List F)
      → AreClocked p k rows
      → AreInversesOrZero p (map (word_diff p) rows) invs
      → AreRows k (set_diffs p rows (map (word_diff p) rows) invs)
        × (length (set_diffs p rows (map (word_diff p) rows) invs) ≡ length rows)
  unfolding set_diffs AreClocked AreInversesOrZero AreRows IsTested
  set_diffs-AreRows k [] [] c h = (tt, refl)
  set_diffs-AreRows k [] (inv ∷ invs) c h = elim h [ ]
  set_diffs-AreRows k (r ∷ rows) [] c h = elim h [ ]
  set_diffs-AreRows k (r ∷ rows) (inv ∷ invs) (clock, untested, c) (e, h) =
      let (rest, same) = set_diffs-AreRows (suc k) rows invs c h in
      let tested = equality_complete p (read_value_1 r) (read_value_2 r) inv (λ f. rw f at e) in
      ((clock, rw untested tested, rest), ap suc same)

  -- The last row of a list that has one.
  record Last (k n : ℕ) (rows : List (CpuCols F)) : Type 0 where
    row : CpuCols F
    same : last_row p rows ≡ some row
    clock : row.clk ≡ p.from_canonical (k + n)

  final_row :
      (k n : ℕ) (rows : List (CpuCols F)) → AreRows k rows → length rows ≡ suc n → Last k n rows
  unfolding last_row AreRows
  final_row k n [] h e = absurd (omega arith)
  final_row k n (r ∷ []) h e = record {
    row = r;
    same = refl;
    clock = h.0 ∙ ap p.from_canonical (omega arith);
  }
  final_row k n (r ∷ s ∷ rows) h e =
      let rest = final_row (suc k) (n - 1) (s ∷ rows) h.2 (omega arith) in
      record {
        row = rest.row;
        same = rest.same;
        clock = rest.clock ∙ ap p.from_canonical (omega arith);
      }

  padded_rows-AreRows :
      (last : CpuCols F) (c n k more : ℕ)
      → last.clk ≡ p.from_canonical c
      → c + n + 1 ≡ k
      → n + more < 2 ^ 32
      → AreRows k (padded_rows p last n more)
  unfolding padded_rows padded_row AreRows IsTested
  padded_rows-AreRows last c n k zero e f g = tt
  padded_rows-AreRows last c n k (suc more) e f g = (
    ap (λ t. p.plus t (p.from_canonical ((n % 2 ^ 32 + 1) % 2 ^ 32))) e
        ∙ p.from_plus c ((n % 2 ^ 32 + 1) % 2 ^ 32)
        ∙ ap p.from_canonical (omega arith),
    equality_of_zeros p,
    padded_rows-AreRows last c (suc n) (suc k) more e (omega arith) (omega arith),
  )

  length-padded_rows : (last : CpuCols F) (n more : ℕ) → length (padded_rows p last n more) ≡ more
  unfolding padded_rows
  length-padded_rows last n zero = refl
  length-padded_rows last n (suc more) = ap suc (length-padded_rows last (suc n) more)

  AreRows-append :
      (k j : ℕ) (xs ys : List (CpuCols F))
      → AreRows k xs
      → k + length xs ≡ j
      → AreRows j ys
      → AreRows k (xs ++ ys)
  unfolding AreRows
  AreRows-append k j [] ys h e rest = let same : k ≡ j = omega arith in rw same rest
  AreRows-append k j (x ∷ xs) ys h e rest =
      (h.0, h.1, AreRows-append (suc k) j xs ys h.2 (omega arith) rest)

  -- A trace of as many rows as the next power of two of `n`, clocked from 0.
  pub record Padded (n : ℕ) (o : Outcome (List (CpuCols F))) : Type 0 where
    pub rows : List (CpuCols F)
    pub same : o ≡ ok rows
    pub are_rows : AreRows 0 rows
    pub count : length rows ≡ next_power_of_two_usize n

  padded :
      (n : ℕ) (rows : List (CpuCols F))
      → n < 2 ^ 31
      → AreRows 0 rows
      → length rows ≡ suc n
      → Padded (suc n) (pad_to_power_of_two p rows)
  unfolding pad_to_power_of_two
  padded n rows small h e =
      let last = final_row 0 n rows h e in
      let more = next_power_of_two_usize (length rows) - length rows in
      let power = usize-IsNextPower (suc n) (omega arith) (omega arith) in
      rw last.same (record {
        rows = rows ++ padded_rows p last.row 0 more;
        same = refl;
        are_rows = AreRows-append 0 (suc n) rows _ h (omega arith) (
            padded_rows-AreRows last.row (0 + n) 0 (suc n) more last.clock (omega arith)
              (omega (arith, ap next_power_of_two_usize e, power.least)));
        count =
            length-append rows _
            ∙ ap (λ m. length rows + m) (length-padded_rows last.row 0 more)
            ∙ omega (arith, ap next_power_of_two_usize e, power.enough);
      })

  -- For a CPU chip with some operations, fewer than 2 ^ 31, and a saved register state and an
  -- instruction for each, generate_trace returns a trace of as many rows as the next power of
  -- two, in which the clocks count from 0 and each row satisfies the constraints on the
  -- difference of its two words read, where the external batch inversion gives an inverse of each
  -- element that it is called with.
  pub generate_trace_total :
      (batch : List F → List F) (chip : CpuChip) (mem : MemoryChip)
      → 0 < length chip.operations
      → length chip.operations < 2 ^ 31
      → length chip.operations ≤ length chip.registers
      → length chip.operations ≤ length chip.instructions
      → ((rows : List (CpuCols F))
          → rows_from p chip mem 0 chip.operations ≡ ok rows
          → AreInverses p
              (nonzero_values p (map (word_diff p) rows))
              (batch (nonzero_values p (map (word_diff p) rows))))
      → Padded (length chip.operations) (generate_trace p batch chip mem)
  unfolding generate_trace compute_word_diffs
  generate_trace_total batch chip mem some_op small h j inverses =
      let from = rows_from_total p chip mem chip.operations 0 (omega arith) (omega arith) in
      let (invs, same, right) =
        batch-AreInversesOrZero p batch (map (word_diff p) from.rows)
          (inverses from.rows from.same) in
      let (are_rows, count) = set_diffs-AreRows 0 from.rows invs from.clocked right in
      let whole =
        padded (length chip.operations - 1) _ (omega arith) are_rows
          (count ∙ from.count ∙ omega arith) in
      let whole_count : suc (length chip.operations - 1) ≡ length chip.operations = omega arith in
      rw (from.same, same)
        (record {
          rows = whole.rows;
          same = whole.same;
          are_rows = whole.are_rows;
          count = whole.count ∙ ap next_power_of_two_usize whole_count;
        })
