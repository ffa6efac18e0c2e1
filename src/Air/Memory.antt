-- ===== src/Air/Memory.antt =====
-- memory/src/columns.rs and memory/src/lib.rs: the columns of the memory chip and its trace.
pub mod Sort
pub mod Keys
pub mod Order
mod Examples
use valida.Prelude.{
  ℕ, zero, suc, ◌+◌, ◌-◌, List, [], ◌∷◌, ◌++◌, Bool, true, false, ◌==◌, ltb, leb, length, replicate,
  if◌then◌else◌,
}
use valida.Prelude.BTreeMap.{BTreeMap}
use valida.Word.{Word, transform}
use valida.Memory.{MemoryChip, Operation, read, write, dummy_read, get_address}
use valida.Machine.Run.{next_power_of_two_usize}
use valida.Air.{PrimeField, word_of_zeros}

pub record MemoryCols (F : Type 0) : Type 0 where
  pub addr : F
  pub value : Word F
  pub clk : F
  pub is_static_initial : F
  pub is_read : F
  pub is_write : F
  pub diff : F
  pub diff_inv : F
  pub addr_not_equal : F
  pub counter : F
  pub counter_mult : F

-- An operation with its clock cycle.
abbrev pub Timed : Type 0
Timed = ℕ × Operation

abbrev pub with_clk : ℕ → List Operation → List Timed
with_clk clk [] = []
with_clk clk (op ∷ ops) = (clk, op) ∷ with_clk clk ops

-- The operations of all cycles, flattened.
unfoldable pub flatten : BTreeMap (List Operation) → List Timed
flatten [] = []
flatten ((clk, ops) ∷ rest) = with_clk clk ops ++ flatten rest

-- The order of the keys `(addr, clk)`.
unfoldable pub key_le : Timed → Timed → Bool
key_le (j, x) (k, y) =
    if get_address x == get_address y then leb j k else ltb (get_address x) (get_address y)

-- `sort_by_key` is stable: an operation that came first stays before those with its key.
unfoldable pub insert_op : Timed → List Timed → List Timed
unfolding key_le
insert_op x [] = x ∷ []
insert_op x (y ∷ ops) = let rest = insert_op x ops in if key_le x y then x ∷ y ∷ ops else y ∷ rest

unfoldable pub sort_by_key : List Timed → List Timed
unfolding insert_op
sort_by_key [] = []
sort_by_key (x ∷ ops) = insert_op x (sort_by_key ops)

module _ {F : Type 0} (p : PrimeField F) where
  -- `[F::zero(); NUM_MEM_COLS]`
  abbrev pub zero_row : MemoryCols F
  zero_row = record {
    addr = p.field_zero;
    value = word_of_zeros p;
    clk = p.field_zero;
    is_static_initial = p.field_zero;
    is_read = p.field_zero;
    is_write = p.field_zero;
    diff = p.field_zero;
    diff_inv = p.field_zero;
    addr_not_equal = p.field_zero;
    counter = p.field_zero;
    counter_mult = p.field_zero;
  }

  abbrev at_cell : ℕ → Word ℕ → MemoryCols F → MemoryCols F
  at_cell addr value cols = record cols {
    addr = p.from_canonical addr;
    value = transform p.from_canonical value;
  }

  unfoldable pub op_to_row : ℕ → ℕ → Operation → MemoryCols F
  op_to_row n clk op =
      let cols = record zero_row { clk = p.from_canonical clk; counter = p.from_canonical n } in
      elim op [
        | read addr value ↦ record (at_cell addr value cols) { is_read = p.field_one }
        | write addr value ↦ record (at_cell addr value cols) { is_write = p.field_one }
        | dummy_read addr value ↦ at_cell addr value cols
      ]

  unfoldable pub static_data_to_row : ℕ → ℕ → Word ℕ → MemoryCols F
  static_data_to_row n addr value = record zero_row {
    is_static_initial = p.field_one;
    counter = p.from_canonical n;
    addr = p.from_canonical addr;
    value = transform p.from_canonical value;
    is_write = p.field_one;
  }

  unfoldable pub static_rows : ℕ → BTreeMap (Word ℕ) → List (MemoryCols F)
  unfolding static_data_to_row
  static_rows n [] = []
  static_rows n ((addr, value) ∷ rest) = static_data_to_row n addr value ∷ static_rows (suc n) rest

  unfoldable pub op_rows : ℕ → List Timed → List (MemoryCols F)
  unfolding op_to_row
  op_rows n [] = []
  op_rows n ((clk, op) ∷ ops) = op_to_row n clk op ∷ op_rows (suc n) ops

  -- `rows.resize(n, row)`: a shorter length drops rows.
  unfoldable pub resize : List (MemoryCols F) → ℕ → MemoryCols F → List (MemoryCols F)
  resize rows zero row = []
  resize [] (suc n) row = row ∷ resize [] n row
  resize (r ∷ rows) (suc n) row = r ∷ resize rows n row

  unfoldable pub generate_trace : MemoryChip → List (MemoryCols F)
  unfolding flatten sort_by_key static_rows op_rows resize next_power_of_two_usize
  generate_trace mem =
      let ops = sort_by_key (flatten mem.operations) in
      let statics = static_rows 0 mem.static_data in
      let rows = statics ++ op_rows (length statics) ops in
      resize rows (next_power_of_two_usize (length rows)) zero_row
