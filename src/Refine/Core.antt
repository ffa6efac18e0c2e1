-- ===== src/Refine/Core.antt =====
-- The core instructions refine the specification's.
mod Bytes
use Bytes.{
  index_of_byte-lt, index_total, update_byte_total, Extends, zero_extend-Extends,
  sign_extend-Extends, Refines-found,
}
use valida.Prelude.{
  ℕ, ◌+◌, ◌/◌, ◌%◌, ◌^◌, ◌<◌, ◌≡◌, refl, ap, ◌∙◌, arith, Option, none, some, Bool, ◌==◌,
  if◌then◌else◌, not,
}
use valida.Word.{Word, IsWord, into_u32, from_u32, from_u8, addr_of_word, index_of_byte}
use valida.Word.Bytes.{from_u32-IsWord, into_u32-from_u32}
use valida.Word.Ordering.{eq, ne}
use valida.Word.Order.{eq-into_u32}
use valida.Opcode.{Opcode}
use valida.Program.{Operands, IsOperands}
use valida.Chips.Cpu.{CpuChip, Operation}
use valida.Machine.{M, ◌>>=◌, ◌>>◌}
use valida.Machine.Exec.Core
use valida.Isa
use valida.Isa.Ops as IsaOps
use valida.Isa.Ops.{with_byte}
use valida.Refine.{Refines}
use valida.Refine.Rules.{Refines-regs, Refines-read, Refines-read_init, Refines-write}
use valida.Refine.Operands.{Refines-second}
use valida.Refine.Ends.{Refines-advance, Refines-set_pc, Refines-set_fp, Refines-push_op}

pub load32-Refines : (ops : Operands) → Refines (Core.load32 ops) (IsaOps.load32 ops)
unfolding Core.load32 IsaOps.load32
load32-Refines ops = Refines-regs _ _ λ c.
    Refines-read _ _ _ _
      λ p hp. Refines-read _ _ _ _ λ w hw. Refines-write _ _ _ _ _ _ hw refl (Refines-advance _ _ _)

-- The value that the tape gives, or 2 ^ 32 - 1 at its end.
pub read_advice-Refines :
    (advice : Option ℕ) (ops : Operands)
    → ((byte : ℕ) → advice ≡ some byte → byte < 2 ^ 8)
    → Refines (Core.read_advice advice ops) (IsaOps.read_advice advice ops)
unfolding Core.read_advice IsaOps.read_advice from_u8 into_u32
read_advice-Refines none ops h = Refines-regs _ _ λ c.
    Refines-write _ _ _ _ _ _ (from_u32-IsWord _) (into_u32-from_u32 _ (omega arith))
      (Refines-advance _ _ _)
read_advice-Refines (some byte) ops h = Refines-regs _ _ λ c.
    Refines-write _ _ _ _ _ _ (omega (arith, h byte refl)) (omega arith) (Refines-advance _ _ _)

module _ (extend : ℕ → Word ℕ) (extend_value : ℕ → ℕ) (law : Extends extend extend_value)
    (op : Operation) (opcode : Opcode) (ops : Operands) where
  load_byte-Refines :
      Refines (Core.load_byte extend op opcode ops) (IsaOps.load_byte extend_value ops)
  unfolding Core.load_byte IsaOps.load_byte addr_of_word index_of_byte
  load_byte-Refines = Refines-regs _ _ λ c. Refines-read _ _ _ _ λ p hp.
      Refines-read _ _ _ _ λ w hw.
        let (b, e, digit, fits) = index_total w _ hw (index_of_byte-lt (into_u32 p)) in
        Refines-found _ _ _ b e (
          Refines-write _ _ _ _ _ _ (law.extend-IsWord b fits)
            (law.extend-value b ∙ ap extend_value digit) (Refines-advance _ _ _))

-- The byte at the address `[fp + c]` goes to the aligned cell of `fp + a`.
pub loadu8-Refines : (ops : Operands) → Refines (Core.loadu8 ops) (IsaOps.loadu8 ops)
unfolding Core.loadu8 IsaOps.loadu8
loadu8-Refines = load_byte-Refines _ _ zero_extend-Extends Operation.loadu8 Opcode.loadu8

pub loads8-Refines : (ops : Operands) → Refines (Core.loads8 ops) (IsaOps.loads8 ops)
unfolding Core.loads8 IsaOps.loads8
loads8-Refines = load_byte-Refines _ _ sign_extend-Extends Operation.loads8 Opcode.loads8

pub storeu8-Refines : (ops : Operands) → Refines (Core.storeu8 ops) (IsaOps.storeu8 ops)
unfolding Core.storeu8 IsaOps.storeu8 addr_of_word index_of_byte
storeu8-Refines ops = Refines-regs _ _ λ c. Refines-read _ _ _ _ λ p hp.
    Refines-read _ _ _ _ λ w hw.
      let from : ℕ = (c.fp + ops.c) % 2 ^ 32 in
      let (b, e, digit, fits) = index_total w (from % 4) hw (omega arith) in
      Refines-found _ _ _ b e (
        Refines-read_init _ _ _ _ λ old hold.
          let (v, u, hv, value) =
            update_byte_total old b (into_u32 p % 4) hold fits (omega arith) in
          Refines-found _ _ _ v u (
            Refines-write _ _ _ _ _ _ hv
              (value ∙ ap (λ x. with_byte (into_u32 old) (into_u32 p % 4) x) digit)
              (Refines-advance _ _ _)))

-- A branch's test on the words, and on their values.
module _ (taken : Word ℕ → Word ℕ → Bool) (test : ℕ → ℕ → Bool)
    (law : (x y : Word ℕ) → IsWord x → IsWord y → taken x y ≡ test (into_u32 x) (into_u32 y))
    (op : Option (Word ℕ) → Operation) (opcode : Opcode) (ops : Operands)
    (fits : IsOperands ops) where
  branch-Refines : Refines (Core.branch taken op opcode ops) (IsaOps.branch test ops)
  unfolding Core.branch IsaOps.branch
  branch-Refines = Refines-regs _ _ λ c. Refines-read _ _ _ _ λ x hx.
      Refines-second _ _ _ _ _
        (λ y i hy.
          Refines-set_pc _ _ _ _
            (ap (λ t. if t then ops.a / 24 else (c.pc + 1) % 2 ^ 32) (law x y hx hy))
            (Refines-push_op _ _ _))
        fits.fits_c

pub beq-Refines : (ops : Operands) → IsOperands ops → Refines (Core.beq ops) (IsaOps.beq ops)
unfolding Core.beq IsaOps.beq
beq-Refines = branch-Refines _ _ eq-into_u32 Operation.beq Opcode.beq

pub bne-Refines : (ops : Operands) → IsOperands ops → Refines (Core.bne ops) (IsaOps.bne ops)
unfolding Core.bne IsaOps.bne ne
bne-Refines =
    branch-Refines _ _ (λ x y hx hy. ap not (eq-into_u32 x y hx hy)) Operation.bne Opcode.bne

pub jal-Refines : (ops : Operands) → Refines (Core.jal ops) (IsaOps.jal ops)
unfolding Core.jal IsaOps.jal
jal-Refines ops = Refines-regs _ _ λ c.
    Refines-write _ _ _ _ _ _ (from_u32-IsWord _) (into_u32-from_u32 _ (omega arith))
      (Refines-set_pc _ _ _ _ refl (Refines-set_fp _ _ _ (Refines-push_op _ _ _)))

pub jalv-Refines : (ops : Operands) → Refines (Core.jalv ops) (IsaOps.jalv ops)
unfolding Core.jalv IsaOps.jalv
jalv-Refines ops = Refines-regs _ _ λ c.
    Refines-write _ _ _ _ _ _ (from_u32-IsWord _) (into_u32-from_u32 _ (omega arith)) (
      Refines-read _ _ _ _ λ t ht.
        Refines-set_pc _ _ _ _ refl
          (Refines-read _ _ _ _ λ o ho. Refines-set_fp _ _ _ (Refines-push_op _ _ _)))

pub store32-Refines : (ops : Operands) → Refines (Core.store32 ops) (IsaOps.store32 ops)
unfolding Core.store32 IsaOps.store32
store32-Refines ops = Refines-regs _ _ λ c.
    Refines-read _ _ _ _
      λ p hp. Refines-read _ _ _ _ λ w hw. Refines-write _ _ _ _ _ _ hw refl (Refines-advance _ _ _)

pub imm32-Refines : (ops : Operands) → Refines (Core.imm32 ops) (IsaOps.imm32 ops)
unfolding Core.imm32 IsaOps.imm32 into_u32
imm32-Refines ops =
    Refines-regs _ _
      λ c. Refines-write _ _ _ _ _ _ (omega arith) (omega arith) (Refines-advance _ _ _)

pub stop-Refines : (ops : Operands) → Refines (Core.stop ops) IsaOps.stop
unfolding Core.stop IsaOps.stop
stop-Refines ops = Refines-push_op _ _ _

pub loadfp-Refines : (ops : Operands) → Refines (Core.loadfp ops) (IsaOps.loadfp ops)
unfolding Core.loadfp IsaOps.loadfp
loadfp-Refines ops = Refines-regs _ _ λ c.
    Refines-write _ _ _ _ _ _ (from_u32-IsWord _) (into_u32-from_u32 _ (omega arith))
      (Refines-advance _ _ _)
