-- ===== src/Chips/Alu.antt =====
-- alu_u32/src/*/mod.rs: the operations that each arithmetic chip records: the result first, then
-- the two inputs.
use valida.Prelude.{ℕ}
use valida.Word.{Word}

pub data AddOperation : Type 0 where
  add32 : Word ℕ → Word ℕ → Word ℕ → AddOperation

pub data SubOperation : Type 0 where
  sub32 : Word ℕ → Word ℕ → Word ℕ → SubOperation

pub data MulOperation : Type 0 where
  mul32 mulhs32 mulhu32 : Word ℕ → Word ℕ → Word ℕ → MulOperation

pub data DivOperation : Type 0 where
  div32 sdiv32 : Word ℕ → Word ℕ → Word ℕ → DivOperation

pub data ShiftOperation : Type 0 where
  shl32 shr32 sra32 : Word ℕ → Word ℕ → Word ℕ → ShiftOperation

pub data LtOperation : Type 0 where
  lt32 lte32 : Word ℕ → Word ℕ → Word ℕ → LtOperation

pub data ComOperation : Type 0 where
  ne32 eq32 : Word ℕ → Word ℕ → Word ℕ → ComOperation

pub data BitwiseOperation : Type 0 where
  xor32 and32 or32 : Word ℕ → Word ℕ → Word ℕ → BitwiseOperation
