-- ===== src/Memory.antt =====
-- memory/src/lib.rs: the memory chip, its cells and its log of operations.
pub mod Log
pub mod Entries
pub mod Reads
use valida.Prelude.{
  ℕ, List, [], ◌∷◌, ◌++◌, Option, none, some, Outcome, ok, panic, read_before_write,
}
use valida.Prelude.BTreeMap.{BTreeMap, get, insert}
use valida.Word.{Word}
use mathlib.Core.Option.{get_or}

pub data Operation : Type 0 where
  read : ℕ → Word ℕ → Operation
  write : ℕ → Word ℕ → Operation
  dummy_read : ℕ → Word ℕ → Operation

unfoldable pub get_address : Operation → ℕ
get_address (read addr value) = addr
get_address (write addr value) = addr
get_address (dummy_read addr value) = addr

unfoldable pub get_value : Operation → Word ℕ
get_value (read addr value) = value
get_value (write addr value) = value
get_value (dummy_read addr value) = value

-- `operations` holds the operations of each clock cycle, in their order.
pub record MemoryChip : Type 0 where
  pub cells : BTreeMap (Word ℕ)
  pub operations : BTreeMap (List Operation)
  pub static_data : BTreeMap (Word ℕ)

abbrev pub empty : MemoryChip
empty = record { cells = []; operations = []; static_data = [] }

abbrev pub zero_word : Word ℕ
zero_word = record { byte_0 = 0; byte_1 = 0; byte_2 = 0; byte_3 = 0 }

-- `self.operations.entry(clk).or_insert_with(Vec::new).push(op)`
unfoldable pub push_entry : ℕ → Operation → BTreeMap (List Operation) → BTreeMap (List Operation)
push_entry clk op ops = insert clk (get_or (get clk ops) [] ++ op ∷ []) ops

-- The methods with `log` set, as every instruction calls them.
unfoldable pub log_operation : ℕ → Operation → MemoryChip → MemoryChip
unfolding push_entry
log_operation clk op m = record m { operations = push_entry clk op m.operations }

-- An empty cell panics.
unfoldable pub read_cell : ℕ → ℕ → MemoryChip → Outcome (Word ℕ × MemoryChip)
unfolding log_operation
read_cell clk address m = elim (get address m.cells) [
  | none ↦ panic (read_before_write address)
  | some value ↦ ok (value, log_operation clk (read address value) m)
]

-- An empty cell reads as zero; it stays empty.
unfoldable pub read_or_init : ℕ → ℕ → MemoryChip → Word ℕ × MemoryChip
unfolding log_operation
read_or_init clk address m =
    let value = get_or (get address m.cells) zero_word in
    (value, log_operation clk (read address value) m)

unfoldable pub write_cell : ℕ → ℕ → Word ℕ → MemoryChip → MemoryChip
unfolding log_operation
write_cell clk address value m =
    let logged = log_operation clk (write address value) m in
    record logged { cells = insert address value logged.cells }

unfoldable pub write_static : ℕ → Word ℕ → MemoryChip → MemoryChip
write_static address value m = record m {
  cells = insert address value m.cells;
  static_data = insert address value m.static_data;
}
