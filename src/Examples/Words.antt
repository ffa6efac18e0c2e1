-- ===== src/Examples/Words.antt =====
-- Examples of the word's operations.
use valida.Prelude.{
  ℕ, ◌*◌, ◌/◌, ◌%◌, ◌^◌, ◌≡◌, ◌==◌, arith, ok, panic, divide_by_zero, map_outcome, if◌then◌else◌,
  bit_xor, ltb,
}
use valida.Prelude.Int.{as_i32, ◌/ℤ◌, ◌>>ℤ◌}
use valida.Word.{Word, IsWord, into_u32, from_u32}
use valida.Word.Ops
use valida.Word.Ordering.{lt}
use valida.Word.Order.{lt-into_u32}
use valida.Word.Bytes.{from_u32-into_u32}
use valida.Word.Arith.{into_u32-mulhu, into_u32-div}
use valida.Word.Signed.{as_i32-sdiv, as_i32-sra, mulhs-eq-mulhu}
use valida.Word.Bits.{into_u32-xor}
use valida.Examples.{five}

-- -7 as an `i32`.
abbrev minus_seven : Word ℕ
minus_seven = record { byte_0 = 255; byte_1 = 255; byte_2 = 255; byte_3 = 249 }

as_i32-sdiv_example :
    (q : Word ℕ) × (Ops.sdiv minus_seven five ≡ ok q)
    × IsWord q
    × (as_i32 (into_u32 q) ≡ ◌/ℤ◌ (as_i32 (into_u32 minus_seven)) (as_i32 (into_u32 five)))
unfolding into_u32
as_i32-sdiv_example =
    as_i32-sdiv minus_seven five (omega arith) (omega arith) (λ e. omega arith)
      (λ e. absurd (omega arith))

as_i32-sra_example :
    as_i32 (into_u32 (Ops.sra minus_seven five))
    ≡ ◌>>ℤ◌ (as_i32 (into_u32 minus_seven)) (into_u32 five % 32)
as_i32-sra_example = as_i32-sra minus_seven five (omega arith)

mulhs-eq-mulhu_example : Ops.mulhs minus_seven five ≡ Ops.mulhu minus_seven five
mulhs-eq-mulhu_example = mulhs-eq-mulhu minus_seven five

into_u32-mulhu_example :
    into_u32 (Ops.mulhu minus_seven five) ≡ into_u32 minus_seven * into_u32 five / 2 ^ 32
into_u32-mulhu_example = into_u32-mulhu minus_seven five (omega arith) (omega arith)

into_u32-div_example : map_outcome into_u32 (Ops.div minus_seven five) ≡ (
    if into_u32 five == 0 then panic divide_by_zero else ok (into_u32 minus_seven / into_u32 five))
into_u32-div_example = into_u32-div minus_seven five (omega arith)

into_u32-xor_example :
    into_u32 (Ops.xor minus_seven five) ≡ bit_xor (into_u32 minus_seven) (into_u32 five)
into_u32-xor_example = into_u32-xor minus_seven five (omega arith) (omega arith)

lt-into_u32_example : lt five minus_seven ≡ ltb (into_u32 five) (into_u32 minus_seven)
lt-into_u32_example = lt-into_u32 five minus_seven (omega arith) (omega arith)

from_u32-into_u32_example : from_u32 (into_u32 minus_seven) ≡ minus_seven
from_u32-into_u32_example = from_u32-into_u32 minus_seven (omega arith)
