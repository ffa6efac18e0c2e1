-- ===== src/Refine/Alu/Instructions.antt =====
-- The chips' records are silent, and the instructions with two operands refine theirs.
use valida.Prelude.{ℕ, refl, ◌∙◌}
use valida.Word.{Word}
use valida.Word.Order.{lt-into_u32, le-into_u32}
use valida.Opcode.{Opcode}
use valida.Program.{Operands, IsOperands}
use valida.Chips.Alu.{
  MulOperation, DivOperation, ShiftOperation, BitwiseOperation, LtOperation, ComOperation,
}
use valida.Machine.{BasicMachine, M}
use valida.Machine.Exec.Alu.{
  push_add, push_sub, push_mul, push_div, push_bitwise, push_shift, add32, sub32, mul32, mulhs32,
  mulhu32, div32, sdiv32, shl32, shr32, sra32, xor32, and32, or32,
}
use valida.Machine.Exec.Compare.{push_lt, push_com, lt32, lte32, ne32, eq32}
use valida.Isa.Ops.{perform}
use valida.Refine.{view, Refines}
use valida.Refine.Ends.{IsSilent, Refines-range_check, Refines-no_check}
use valida.Refine.Alu.{binary_op-Refines, order_op-Refines}
use valida.Refine.Alu.Laws.{
  add-Computes, sub-Computes, mul-Computes, mulhs-Computes, mulhu-Computes, div-Computes,
  sdiv-Computes, shl-Computes, shr-Computes, sra-Computes, xor-Computes, and-Computes, or-Computes,
  ne-Computes, eq-Computes,
}

push_add-IsSilent : (a b c : Word ℕ) → IsSilent (push_add a b c)
unfolding push_add view
push_add-IsSilent a b c = record { same_view = λ s. refl; same_cells = λ s. refl }

push_sub-IsSilent : (a b c : Word ℕ) → IsSilent (push_sub a b c)
unfolding push_sub view
push_sub-IsSilent a b c = record { same_view = λ s. refl; same_cells = λ s. refl }

push_mul-IsSilent :
    (op : Word ℕ → Word ℕ → Word ℕ → MulOperation) (a b c : Word ℕ) → IsSilent (push_mul op a b c)
unfolding push_mul view
push_mul-IsSilent op a b c = record { same_view = λ s. refl; same_cells = λ s. refl }

push_div-IsSilent :
    (op : Word ℕ → Word ℕ → Word ℕ → DivOperation) (a b c : Word ℕ) → IsSilent (push_div op a b c)
unfolding push_div view
push_div-IsSilent op a b c = record { same_view = λ s. refl; same_cells = λ s. refl }

push_bitwise-IsSilent :
    (op : Word ℕ → Word ℕ → Word ℕ → BitwiseOperation) (a b c : Word ℕ)
    → IsSilent (push_bitwise op a b c)
unfolding push_bitwise view
push_bitwise-IsSilent op a b c = record { same_view = λ s. refl; same_cells = λ s. refl }

push_shift-IsSilent :
    (op : Word ℕ → Word ℕ → Word ℕ → ShiftOperation) (a b c : Word ℕ)
    → IsSilent (push_shift op a b c)
unfolding push_shift view
push_shift-IsSilent op a b c = record { same_view = λ s. refl; same_cells = λ s. refl }

push_lt-IsSilent :
    (op : Word ℕ → Word ℕ → Word ℕ → LtOperation) (a b c : Word ℕ) → IsSilent (push_lt op a b c)
unfolding push_lt view
push_lt-IsSilent op a b c = record { same_view = λ s. refl; same_cells = λ s. refl }

push_com-IsSilent :
    (op : Word ℕ → Word ℕ → Word ℕ → ComOperation) (a b c : Word ℕ) → IsSilent (push_com op a b c)
unfolding push_com view
push_com-IsSilent op a b c = record { same_view = λ s. refl; same_cells = λ s. refl }

-- The records of a shift are those of two chips.
both-IsSilent :
    (k l : BasicMachine → BasicMachine) → IsSilent k → IsSilent l → IsSilent (λ s. k (l s))
both-IsSilent k l hk hl = record {
  same_view = λ s. hk.same_view (l s) ∙ hl.same_view s;
  same_cells = λ s. hk.same_cells (l s) ∙ hl.same_cells s;
}

-- An instruction refines the specification of its opcode.
abbrev pub Implements : (Operands → M (Unit {0})) → Opcode → Type 0
Implements m op = (ops : Operands) → IsOperands ops → Refines (m ops) (perform op ops)

pub add32-Implements : Implements add32 Opcode.add32
unfolding add32 perform
add32-Implements = binary_op-Refines _ _ _ _ _ add-Computes push_add-IsSilent Refines-range_check

pub sub32-Implements : Implements sub32 Opcode.sub32
unfolding sub32 perform
sub32-Implements = binary_op-Refines _ _ _ _ _ sub-Computes push_sub-IsSilent Refines-range_check

pub mul32-Implements : Implements mul32 Opcode.mul32
unfolding mul32 perform
mul32-Implements =
    binary_op-Refines _ _ _ _ _ mul-Computes (push_mul-IsSilent MulOperation.mul32)
      Refines-range_check

pub mulhs32-Implements : Implements mulhs32 Opcode.mulhs32
unfolding mulhs32 perform
mulhs32-Implements =
    binary_op-Refines _ _ _ _ _ mulhs-Computes (push_mul-IsSilent MulOperation.mulhs32)
      Refines-range_check

pub mulhu32-Implements : Implements mulhu32 Opcode.mulhu32
unfolding mulhu32 perform
mulhu32-Implements =
    binary_op-Refines _ _ _ _ _ mulhu-Computes (push_mul-IsSilent MulOperation.mulhu32)
      Refines-range_check

pub div32-Implements : Implements div32 Opcode.div32
unfolding div32 perform
div32-Implements =
    binary_op-Refines _ _ _ _ _ div-Computes (push_div-IsSilent DivOperation.div32)
      Refines-range_check

pub sdiv32-Implements : Implements sdiv32 Opcode.sdiv32
unfolding sdiv32 perform
sdiv32-Implements =
    binary_op-Refines _ _ _ _ _ sdiv-Computes (push_div-IsSilent DivOperation.sdiv32)
      Refines-range_check

pub xor32-Implements : Implements xor32 Opcode.xor32
unfolding xor32 perform
xor32-Implements =
    binary_op-Refines _ _ _ _ _ xor-Computes (push_bitwise-IsSilent BitwiseOperation.xor32)
      Refines-no_check

pub and32-Implements : Implements and32 Opcode.and32
unfolding and32 perform
and32-Implements =
    binary_op-Refines _ _ _ _ _ and-Computes (push_bitwise-IsSilent BitwiseOperation.and32)
      Refines-no_check

pub or32-Implements : Implements or32 Opcode.or32
unfolding or32 perform
or32-Implements =
    binary_op-Refines _ _ _ _ _ or-Computes (push_bitwise-IsSilent BitwiseOperation.and32)
      Refines-no_check

pub ne32-Implements : Implements ne32 Opcode.ne32
unfolding ne32 perform
ne32-Implements =
    binary_op-Refines _ _ _ _ _ ne-Computes (push_com-IsSilent ComOperation.ne32) Refines-no_check

pub eq32-Implements : Implements eq32 Opcode.eq32
unfolding eq32 perform
eq32-Implements =
    binary_op-Refines _ _ _ _ _ eq-Computes (push_com-IsSilent ComOperation.eq32) Refines-no_check

pub shl32-Implements : Implements shl32 Opcode.shl32
unfolding shl32 perform
shl32-Implements =
    binary_op-Refines _ _ _ _ _ shl-Computes
      (λ a b c.
        both-IsSilent _ _ (push_shift-IsSilent ShiftOperation.shl32 a b c)
          (push_mul-IsSilent MulOperation.mul32 a b _))
      Refines-no_check

pub shr32-Implements : Implements shr32 Opcode.shr32
unfolding shr32 perform
shr32-Implements =
    binary_op-Refines _ _ _ _ _ shr-Computes
      (λ a b c.
        both-IsSilent _ _ (push_shift-IsSilent ShiftOperation.shr32 a b c)
          (push_div-IsSilent DivOperation.div32 a b _))
      Refines-no_check

pub sra32-Implements : Implements sra32 Opcode.sra32
unfolding sra32 perform
sra32-Implements =
    binary_op-Refines _ _ _ _ _ sra-Computes
      (λ a b c.
        both-IsSilent _ _ (push_shift-IsSilent ShiftOperation.shr32 a b c)
          (push_div-IsSilent DivOperation.sdiv32 a b _))
      Refines-no_check

pub lt32-Implements : Implements lt32 Opcode.lt32
unfolding lt32 perform
lt32-Implements = order_op-Refines _ _ _ _ lt-into_u32 (push_lt-IsSilent LtOperation.lt32)

pub lte32-Implements : Implements lte32 Opcode.lte32
unfolding lte32 perform
lte32-Implements = order_op-Refines _ _ _ _ le-into_u32 (push_lt-IsSilent LtOperation.lte32)
