-- ===== src/Air/Output.antt =====
-- output/src/columns.rs, output/src/lib.rs and output/src/stark.rs: the columns of the output chip,
-- its trace and its constraints.
pub mod Rows
use valida.Prelude.{
  ℕ, zero, suc, ◌+◌, ◌-◌, ◌*◌, ◌/◌, ◌%◌, ◌^◌, List, [], ◌∷◌, ◌++◌, ◌==◌, length, if◌then◌else◌,
  Outcome, ok, panic, divide_by_zero, ◌>>=◌,
}
use valida.Opcode.{Opcode, code}
use valida.Chips.Output.{OutputChip}
use valida.Machine.Run.{next_power_of_two_usize}
use valida.Air.{PrimeField}

pub record OutputCols (F : Type 0) : Type 0 where
  pub clk : F
  pub value : F
  pub is_real : F
  pub diff : F
  pub counter : F
  pub counter_mult : F
  pub opcode : F

-- The clock of row `i` of a window.
unfoldable pub row_clk : ℕ → ℕ → ℕ → ℕ
row_clk table_len clk_1 i = if i == 0 then clk_1 else (clk_1 + table_len * (i + 1)) % 2 ^ 32

-- `(clk_2 - clk_1) / table_len + 1`, where the length of the table as a `u32` may be 0.
unfoldable pub num_rows : ℕ → ℕ → ℕ → Outcome ℕ
num_rows table_len clk_1 clk_2 =
    if table_len == 0
    then panic divide_by_zero
    else ok ((clk_2 + 2 ^ 32 - clk_1) % 2 ^ 32 / table_len + 1)

module _ {F : Type 0} (p : PrimeField F) where
  abbrev pub zero_row : OutputCols F
  zero_row = record {
    clk = p.field_zero;
    value = p.field_zero;
    is_real = p.field_zero;
    diff = p.field_zero;
    counter = p.field_zero;
    counter_mult = p.field_zero;
    opcode = p.field_zero;
  }

  abbrev pub real_row : ℕ → ℕ → OutputCols F
  real_row clk value = record zero_row {
    is_real = p.field_one;
    clk = p.from_canonical clk;
    value = p.from_canonical value;
  }

  -- The next row's clock, or the next value's after the last row.
  unfoldable pub next_clk : ℕ → ℕ → ℕ → ℕ → ℕ → F
  unfolding row_clk
  next_clk table_len clk_1 clk_2 i zero = p.from_canonical clk_2
  next_clk table_len clk_1 clk_2 i (suc more) = p.from_canonical (row_clk table_len clk_1 (i + 1))

  -- The dummy rows of a window from row `i`, with their differences.
  unfoldable pub dummy_rows : ℕ → ℕ → ℕ → ℕ → ℕ → List (OutputCols F)
  unfolding next_clk row_clk
  dummy_rows table_len clk_1 clk_2 i zero = []
  dummy_rows table_len clk_1 clk_2 i (suc more) =
      let clk = p.from_canonical (row_clk table_len clk_1 i) in
      record zero_row { clk = clk; diff = p.minus (next_clk table_len clk_1 clk_2 i more) clk }
      ∷ dummy_rows table_len clk_1 clk_2 (i + 1) more

  -- The rows of a window of two values.
  abbrev pub rows_of_window : ℕ → ℕ × ℕ → ℕ × ℕ → ℕ → List (OutputCols F)
  rows_of_window table_len v w more =
      record (real_row v.0 v.1) {
        diff = p.minus (next_clk table_len v.0 w.0 0 more) (p.from_canonical v.0);
      }
      ∷ dummy_rows table_len v.0 w.0 1 more

  unfoldable pub window_rows : ℕ → ℕ × ℕ → ℕ × ℕ → Outcome (List (OutputCols F))
  unfolding num_rows
  window_rows table_len v w =
      num_rows table_len v.0 w.0 >>= (λ rows. ok (rows_of_window table_len v w (rows - 1)))

  -- `windows(2)`, and the final row
  unfoldable pub value_rows : ℕ → OutputChip → Outcome (List (OutputCols F))
  unfolding window_rows
  value_rows table_len [] = ok []
  value_rows table_len (v ∷ []) = ok (real_row v.0 v.1 ∷ [])
  value_rows table_len (v ∷ w ∷ values) =
      window_rows table_len v w
      >>= (λ rows. value_rows table_len (w ∷ values) >>= (λ later. ok (rows ++ later)))

  -- `pad_to_power_of_two`
  unfoldable pub pad_rows : ℕ → List (OutputCols F) → List (OutputCols F)
  pad_rows zero rows = []
  pad_rows (suc n) [] = zero_row ∷ pad_rows n []
  pad_rows (suc n) (r ∷ rows) = r ∷ pad_rows n rows

  unfoldable pub generate_trace : OutputChip → Outcome (List (OutputCols F))
  unfolding value_rows pad_rows next_power_of_two_usize
  generate_trace values =
      value_rows (length values % 2 ^ 32) values
      >>= (λ rows. ok (pad_rows (next_power_of_two_usize (length rows)) rows))

  -- `eval`: on a row and the next, the last row aside, the difference and the counter; on each row
  -- the opcode.
  unfoldable pub eval_transition : OutputCols F → OutputCols F → List F
  eval_transition local next =
      p.minus local.diff (p.minus next.clk local.clk)
      ∷ p.minus next.counter (p.plus local.counter p.field_one)
      ∷ []

  unfoldable pub eval_opcode : OutputCols F → F
  eval_opcode local =
      p.times local.is_real (p.minus local.opcode (p.from_canonical (code Opcode.write)))
