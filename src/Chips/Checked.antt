-- ===== src/Chips/Checked.antt =====
-- range/src/lib.rs: what a check of a word adds to the counters.
use valida.Prelude.{ℕ, ◌+◌, ◌%◌, ◌^◌, ◌≤◌, ◌<◌, ◌≡◌, arith, none, some, ◌==◌, if◌then◌else◌}
use valida.Prelude.BTreeMap.{BTreeMap, get, get-insert}
use valida.Word.{Word}
use valida.Chips.Range.{count_byte, range_check}

-- A byte that was never checked has no counter, and counts as 0.
unfoldable pub checks : ℕ → BTreeMap ℕ → ℕ
checks v count = elim (get v count) [ none ↦ 0 | some c ↦ c ]

abbrev pub one_if : ℕ → ℕ → ℕ
one_if v byte = if v == byte then 1 else 0

-- How often `v` stands in the word.
unfoldable pub occurrences : ℕ → Word ℕ → ℕ
occurrences v w = one_if v w.byte_0 + one_if v w.byte_1 + one_if v w.byte_2 + one_if v w.byte_3

checks-count_byte :
    (v byte : ℕ) (count : BTreeMap ℕ)
    → checks v count + 1 < 2 ^ 32
    → checks v (count_byte byte count) ≡ checks v count + one_if v byte
unfolding checks count_byte
checks-count_byte v byte count room = ground (
  arith,
  get-insert byte v (elim (get byte count) [ none ↦ 1 | some c ↦ (c + 1) % 2 ^ 32 ]) count,
)

one_if-le : (v byte : ℕ) → one_if v byte ≤ 1
one_if-le v byte = ground arith

-- A range check of a word adds to the counter of each byte value the number of times that it
-- stands in the word, where the counter has room for four more.
pub checks-range_check :
    (v : ℕ) (w : Word ℕ) (count : BTreeMap ℕ)
    → checks v count + 4 < 2 ^ 32
    → checks v (range_check w count) ≡ checks v count + occurrences v w
unfolding range_check occurrences
checks-range_check v w count room =
    let first = count_byte w.byte_0 count in
    let second = count_byte w.byte_1 first in
    let third = count_byte w.byte_2 second in
    let a = checks-count_byte v w.byte_0 count (omega (arith, room)) in
    let b = checks-count_byte v w.byte_1 first (omega (arith, room, a, one_if-le v w.byte_0)) in
    let c =
      checks-count_byte v w.byte_2 second
        (omega (arith, room, a, b, one_if-le v w.byte_0, one_if-le v w.byte_1)) in
    let d = checks-count_byte v w.byte_3 third (
      omega
        (arith, room, a, b, c, one_if-le v w.byte_0, one_if-le v w.byte_1, one_if-le v w.byte_2)) in
    omega (arith, a, b, c, d)
