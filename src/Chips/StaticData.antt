-- ===== src/Chips/StaticData.antt =====
-- static_data/src/lib.rs: the cells that are written to memory before a run.
use valida.Prelude.{ℕ, [], ◌∷◌}
use valida.Prelude.BTreeMap.{BTreeMap, insert}
use valida.Word.{Word}
use valida.Memory.{MemoryChip, write_static}

abbrev pub StaticDataChip : Type 0
StaticDataChip = BTreeMap (Word ℕ)

unfoldable pub load : BTreeMap (Word ℕ) → StaticDataChip → StaticDataChip
load cells chip = cells

unfoldable pub write : ℕ → Word ℕ → StaticDataChip → StaticDataChip
write address value chip = insert address value chip

-- The loop of `initialize_memory` over the cells.
unfoldable pub initialize_cells : StaticDataChip → MemoryChip → MemoryChip
initialize_cells [] m = m
initialize_cells ((addr, value) ∷ rest) m = initialize_cells rest (write_static addr value m)
