-- ===== src/Word/Ops.antt =====
-- machine/src/core.rs: the operators of `Word<u8>`. Unsigned arithmetic wraps as in a release
-- build, and a shift takes its amount modulo 32.
use valida.Prelude.{ℕ, ◌+◌, ◌-◌, ◌*◌, ◌/◌, ◌%◌, ◌^◌, bit_and, bit_or, bit_xor}
use valida.Prelude.{Outcome, ok, panic, divide_by_zero, divide_overflow}
use valida.Prelude.{◌==◌, if◌then◌else◌, ◌&&◌}
use valida.Prelude.Int.{as_i32, as_i64, as_u32, ◌/ℤ◌, ◌>>ℤ◌}
use valida.Word.{Word, into_u32, from_u32}

-- `(b as u64 + c as u64) as u32`
unfoldable pub add : Word ℕ → Word ℕ → Word ℕ
add b c = from_u32 ((into_u32 b + into_u32 c) % 2 ^ 32)

unfoldable pub sub : Word ℕ → Word ℕ → Word ℕ
sub b c = from_u32 ((into_u32 b + 2 ^ 32 - into_u32 c) % 2 ^ 32)

unfoldable pub mul : Word ℕ → Word ℕ → Word ℕ
mul b c = from_u32 (into_u32 b * into_u32 c % 2 ^ 32)

-- `bu32 as i64` keeps the unsigned value; the product wraps to an `i64`.
unfoldable pub mulhs : Word ℕ → Word ℕ → Word ℕ
mulhs b c =
    let mul_res = as_i64 (into_u32 b * into_u32 c % 2 ^ 64) in from_u32 (as_u32 (◌>>ℤ◌ mul_res 32))

unfoldable pub mulhu : Word ℕ → Word ℕ → Word ℕ
mulhu b c = let mul_res = into_u32 b * into_u32 c % 2 ^ 64 in from_u32 (mul_res / 2 ^ 32 % 2 ^ 32)

unfoldable pub div : Word ℕ → Word ℕ → Outcome (Word ℕ)
div b c = if into_u32 c == 0 then panic divide_by_zero else ok (from_u32 (into_u32 b / into_u32 c))

-- The quotient of -2 ^ 31 by -1 has no `i32`, and panics in every build.
unfoldable pub sdiv : Word ℕ → Word ℕ → Outcome (Word ℕ)
sdiv b c =
    if into_u32 c == 0
    then panic divide_by_zero
    else if into_u32 b == 2 ^ 31 && into_u32 c == 2 ^ 32 - 1
    then panic divide_overflow
    else ok (from_u32 (as_u32 (◌/ℤ◌ (as_i32 (into_u32 b)) (as_i32 (into_u32 c)))))

unfoldable pub shl : Word ℕ → Word ℕ → Word ℕ
shl b c = from_u32 (into_u32 b * 2 ^ (into_u32 c % 32) % 2 ^ 32)

unfoldable pub shr : Word ℕ → Word ℕ → Word ℕ
shr b c = from_u32 (into_u32 b / 2 ^ (into_u32 c % 32))

-- `b >> c` at `i32`; the low five bits of `c as i32` are those of `c`.
unfoldable pub sra : Word ℕ → Word ℕ → Word ℕ
sra b c = from_u32 (as_u32 (◌>>ℤ◌ (as_i32 (into_u32 b)) (into_u32 c % 32)))

unfoldable pub bytewise : (ℕ → ℕ → ℕ) → Word ℕ → Word ℕ → Word ℕ
bytewise f b c = record {
  byte_0 = f b.byte_0 c.byte_0;
  byte_1 = f b.byte_1 c.byte_1;
  byte_2 = f b.byte_2 c.byte_2;
  byte_3 = f b.byte_3 c.byte_3;
}

unfoldable pub xor : Word ℕ → Word ℕ → Word ℕ
unfolding bytewise
xor = bytewise bit_xor

unfoldable pub and : Word ℕ → Word ℕ → Word ℕ
unfolding bytewise
and = bytewise bit_and

unfoldable pub or : Word ℕ → Word ℕ → Word ℕ
unfolding bytewise
or = bytewise bit_or
