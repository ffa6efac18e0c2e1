-- ===== src/Word/Arith.antt =====
-- The operators of a word compute on its 32-bit value as the machine instruction says.
use valida.Prelude.{
  ℕ, ◌+◌, ◌-◌, ◌*◌, ◌/◌, ◌%◌, ◌^◌, ◌<◌, ◌≡◌, arith, ok, panic, divide_by_zero, ◌==◌, if◌then◌else◌,
  map_outcome,
}
use valida.Word.{Word, IsWord, into_u32}
use valida.Word.Bytes.{into_u32-lt, into_u32-from_u32}
use valida.Word.Ops.{add, sub, mul, mulhu, div, shl, shr}
use native.Mathlib.Nat.{div-le_self}

pub into_u32-add : (b c : Word ℕ) → into_u32 (add b c) ≡ (into_u32 b + into_u32 c) % 2 ^ 32
unfolding add
into_u32-add b c = into_u32-from_u32 _ (omega arith)

pub into_u32-sub : (b c : Word ℕ) → into_u32 (sub b c) ≡ (into_u32 b + 2 ^ 32 - into_u32 c) % 2 ^ 32
unfolding sub
into_u32-sub b c = into_u32-from_u32 _ (omega arith)

pub into_u32-mul : (b c : Word ℕ) → into_u32 (mul b c) ≡ into_u32 b * into_u32 c % 2 ^ 32
unfolding mul
into_u32-mul b c = into_u32-from_u32 _ (omega arith)

pub into_u32-shl : (b c : Word ℕ) → into_u32 (shl b c) ≡ into_u32 b * 2 ^ (into_u32 c % 32) % 2 ^ 32
unfolding shl
into_u32-shl b c = into_u32-from_u32 _ (omega arith)

pub div-lt : (a b m : ℕ) → a < m → a / b < m
div-lt a b m h = omega (arith, div-le_self a b)

pub into_u32-shr :
    (b c : Word ℕ) → IsWord b → into_u32 (shr b c) ≡ into_u32 b / 2 ^ (into_u32 c % 32)
unfolding shr
into_u32-shr b c h = into_u32-from_u32 _ (div-lt _ _ _ (into_u32-lt b h))

mul-lt : (a b m : ℕ) → a < m → b < m → a * b < m * m
mul-lt a b m h k = grind arith

-- The unsigned high product of two words is the product of their values divided by 2 ^ 32.
pub into_u32-mulhu :
    (b c : Word ℕ) → IsWord b → IsWord c → into_u32 (mulhu b c) ≡ into_u32 b * into_u32 c / 2 ^ 32
unfolding mulhu
into_u32-mulhu b c h k = omega (
  arith,
  into_u32-from_u32 (into_u32 b * into_u32 c % 2 ^ 64 / 2 ^ 32 % 2 ^ 32) (omega arith),
  mul-lt (into_u32 b) (into_u32 c) (2 ^ 32) (into_u32-lt b h) (into_u32-lt c k),
)

-- The quotient of a word by another has the quotient of their values, and panics exactly where
-- the divisor is 0.
pub into_u32-div :
    (b c : Word ℕ)
    → IsWord b
    → map_outcome into_u32 (div b c)
      ≡ (if into_u32 c == 0 then panic divide_by_zero else ok (into_u32 b / into_u32 c))
unfolding div
into_u32-div b c h =
    ground (arith, into_u32-from_u32 (into_u32 b / into_u32 c) (div-lt _ _ _ (into_u32-lt b h)))
