-- ===== src/Chips/Range.antt =====
-- range/src/lib.rs: the range checker's counters of the bytes that were checked.
use valida.Prelude.{ℕ, ◌+◌, ◌%◌, ◌^◌, none, some}
use valida.Prelude.BTreeMap.{BTreeMap, get, insert}
use valida.Word.{Word}

-- `entry(v).and_modify(|c| *c += 1).or_insert(1)`; the counters are `u32`.
unfoldable pub count_byte : ℕ → BTreeMap ℕ → BTreeMap ℕ
count_byte v count = insert v (elim (get v count) [ none ↦ 1 | some c ↦ (c + 1) % 2 ^ 32 ]) count

unfoldable pub range_check : Word ℕ → BTreeMap ℕ → BTreeMap ℕ
unfolding count_byte
range_check w count =
    count_byte w.byte_3 (count_byte w.byte_2 (count_byte w.byte_1 (count_byte w.byte_0 count)))
