-- ===== src/Prelude/Int.antt =====
-- Signed integers over the native numbers, and the casts between `u32`, `i32`, `i64` and them.
-- A machine word is its bit pattern, a number below 2 ^ 32 (2 ^ 64).
use Prim.Native.Nat.{ℕ, zero, suc, ◌-◌, ◌/◌, ◌%◌, ◌^◌, ◌<◌}
use mathlib.Core.Path.{◌≡◌}
use native.Mathlib.Omega.{arith}
use valida.Prelude.Tests.{ltb, if◌then◌else◌}

-- `negsuc n` is -(n + 1).
pub data ℤ : Type 0 where
  pos : ℕ → ℤ
  negsuc : ℕ → ℤ

-- `v as i32`
abbrev pub as_i32 : ℕ → ℤ
as_i32 v = if ltb v (2 ^ 31) then pos v else negsuc (2 ^ 32 - 1 - v)

-- `v as i64`, of a `u64` bit pattern
abbrev pub as_i64 : ℕ → ℤ
as_i64 v = if ltb v (2 ^ 63) then pos v else negsuc (2 ^ 64 - 1 - v)

-- `z as u32`, the low 32 bits
abbrev pub as_u32 : ℤ → ℕ
as_u32 (pos n) = n % 2 ^ 32
as_u32 (negsuc n) = 2 ^ 32 - 1 - n % 2 ^ 32

abbrev pub negate : ℕ → ℤ
negate zero = pos 0
negate (suc n) = negsuc n

-- `/` of Rust's signed types rounds towards zero.
abbrev pub ◌/ℤ◌ : ℤ → ℤ → ℤ
◌/ℤ◌ (pos a) (pos b) = pos (a / b)
◌/ℤ◌ (pos a) (negsuc b) = negate (a / suc b)
◌/ℤ◌ (negsuc a) (pos b) = negate (suc a / b)
◌/ℤ◌ (negsuc a) (negsuc b) = pos (suc a / suc b)

-- `>>` of Rust's signed types is arithmetic: it rounds towards minus infinity.
abbrev pub ◌>>ℤ◌ : ℤ → ℕ → ℤ
◌>>ℤ◌ (pos a) k = pos (a / 2 ^ k)
◌>>ℤ◌ (negsuc a) k = negsuc (a / 2 ^ k)

-- A cast to `i32` and back gives the pattern back.
pub as_u32-as_i32 : (v : ℕ) → v < 2 ^ 32 → as_u32 (as_i32 v) ≡ v
as_u32-as_i32 v h = ground arith
