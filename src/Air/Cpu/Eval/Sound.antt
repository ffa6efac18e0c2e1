-- ===== src/Air/Cpu/Eval/Sound.antt =====
-- cpu/src/stark.rs: the transitions that the constraints allow.
use valida.Prelude.{ℕ, ◌*◌, ◌^◌, ◌<◌, ◌≡◌, ◌∙◌, ap, List, ◌++◌, some, false, All-split, All-append}
use valida.Chips.Cpu.{Operation}
use valida.Chips.Cpu.Operation.{
  store32, storeu8, load32, loadu8, loads8, jal, jalv, beq, bne, imm32, bus, bus_with_memory,
  read_advice, stop, loadfp,
}
use valida.Air.{PrimeField, minus_zero_right}
use valida.Air.Cpu.{CpuCols, read_value_2}
use valida.Air.Cpu.Trace.{flags_of}
use valida.Air.Cpu.Eval.{
  Constraint, Position, Active, HoldAt, should_increment_pc, reduce, eval_pc, eval_fp,
  eval_equality, eval_memory_channels, eval_clock, eval,
}
use valida.Air.Cpu.Eval.Next.{
  Values, next_times_24, sum_first, sum_second, sum_third, sum_fourth, beq_sound, bne_sound,
  incrementing, branch_equal, branch_unequal, jump, jump_to_read, differ, stopped, asserted,
}

module _ {F : Type 0} (p : PrimeField F) where
  pub record Parts (local next : CpuCols F) (position : Position) : Type 0 where
    pub pcs : HoldAt p position (eval_pc p local next)
    pub fps : HoldAt p position (eval_fp p local next)
    pub tests : HoldAt p position (eval_equality p local)
    pub channels : HoldAt p position (eval_memory_channels p local)
    pub clocks : HoldAt p position (eval_clock p local next)

  split :
      (position : Position) (xs ys : List (Constraint p))
      → HoldAt p position (xs ++ ys)
      → HoldAt p position xs × HoldAt p position ys
  unfolding HoldAt
  split position xs ys h = All-split _ xs ys h

  pub separate :
      (local next : CpuCols F) (position : Position)
      → HoldAt p position (eval p local next)
      → Parts local next position
  unfolding eval
  separate local next position h =
      let r1 = split position (eval_pc p local next) _ h in
      let r2 = split position (eval_fp p local next) _ r1.1 in
      let r3 = split position (eval_equality p local) _ r2.1 in
      let r4 = split position (eval_memory_channels p local) (eval_clock p local next) r3.1 in
      record { pcs = r1.0; fps = r2.0; tests = r3.0; channels = r4.0; clocks = r4.1 }

  join :
      (position : Position) (xs ys : List (Constraint p))
      → HoldAt p position xs
      → HoldAt p position ys
      → HoldAt p position (xs ++ ys)
  unfolding HoldAt
  join position xs ys h k = All-append _ xs ys h k

  pub whole :
      (local next : CpuCols F) (position : Position)
      → Parts local next position
      → HoldAt p position (eval p local next)
  unfolding eval
  whole local next position parts = join position (eval_pc p local next) _ parts.pcs (
      join position (eval_fp p local next) _ parts.fps (
        join position (eval_equality p local) _ parts.tests (
          join position (eval_memory_channels p local) (eval_clock p local next) parts.channels
            parts.clocks)))

  next_pc_sound :
      (op : Operation) (local next : CpuCols F) (v : Values p local) (pc' t : ℕ)
      (position : Position)
      → pc' < 2 ^ 25
      → next.pc ≡ p.from_canonical pc'
      → local.opcode_flags ≡ record (flags_of p op) { is_imm_op = local.opcode_flags.is_imm_op }
      → position.is_last ≡ false
      → HoldAt p position (eval p local next)
      → next_times_24 p op local v ≡ some t
      → 24 * pc' ≡ t
  unfolding should_increment_pc
  next_pc_sound store32 local next v pc' t position small same flags not_last h e = absurd (cc e)
  next_pc_sound storeu8 local next v pc' t position small same flags not_last h e = absurd (cc e)
  next_pc_sound load32 local next v pc' t position small same flags not_last h e = absurd (cc e)
  next_pc_sound loadu8 local next v pc' t position small same flags not_last h e = absurd (cc e)
  next_pc_sound loads8 local next v pc' t position small same flags not_last h e = absurd (cc e)
  next_pc_sound jal local next v pc' t position small same flags not_last h e =
      let parts = separate local next position h in
      jump p local next v pc' small same jal flags position not_last parts.pcs
        (ap (λ f. f.is_jal) flags)
      ∙ cc e
  next_pc_sound jalv local next v pc' t position small same flags not_last h e =
      let parts = separate local next position h in
      jump_to_read p local next v pc' small same jalv flags position not_last parts.pcs
        (ap (λ f. f.is_jalv) flags)
      ∙ cc e
  next_pc_sound (beq imm) local next v pc' t position small same flags not_last h e =
      let parts = separate local next position h in
      beq_sound p local next v pc' small same
        (differ p local next v pc' small same position parts.tests)
        (branch_equal p local next v pc' small same (beq imm) flags position not_last parts.pcs
          (ap (λ f. f.is_beq) flags))
      ∙ cc e
  next_pc_sound (bne imm) local next v pc' t position small same flags not_last h e =
      let parts = separate local next position h in
      bne_sound p local next v pc' small same
        (differ p local next v pc' small same position parts.tests)
        (branch_unequal p local next v pc' small same (bne imm) flags position not_last parts.pcs
          (ap (λ f. f.is_bne) flags))
      ∙ cc e
  next_pc_sound imm32 local next v pc' t position small same flags not_last h e =
      let parts = separate local next position h in
      incrementing p local next v pc' small same imm32 flags position not_last parts.pcs (
        ap (λ f. p.plus (p.plus (p.plus f.is_imm32 f.is_loadfp) f.is_bus_op) f.is_advice) flags
        ∙ sum_first p)
      ∙ cc e
  next_pc_sound (bus imm) local next v pc' t position small same flags not_last h e =
      let parts = separate local next position h in
      incrementing p local next v pc' small same (bus imm) flags position not_last parts.pcs (
        ap (λ f. p.plus (p.plus (p.plus f.is_imm32 f.is_loadfp) f.is_bus_op) f.is_advice) flags
        ∙ sum_third p)
      ∙ cc e
  next_pc_sound (bus_with_memory imm) local next v pc' t position small same flags not_last h e =
      let parts = separate local next position h in
      incrementing p local next v pc' small same (bus_with_memory imm) flags position not_last
        parts.pcs
        (ap (λ f. p.plus (p.plus (p.plus f.is_imm32 f.is_loadfp) f.is_bus_op) f.is_advice) flags
          ∙ sum_third p)
      ∙ cc e
  next_pc_sound read_advice local next v pc' t position small same flags not_last h e =
      let parts = separate local next position h in
      incrementing p local next v pc' small same read_advice flags position not_last parts.pcs (
        ap (λ f. p.plus (p.plus (p.plus f.is_imm32 f.is_loadfp) f.is_bus_op) f.is_advice) flags
        ∙ sum_fourth p)
      ∙ cc e
  next_pc_sound stop local next v pc' t position small same flags not_last h e =
      let parts = separate local next position h in
      stopped p local next v pc' small same position not_last parts.clocks
        (ap (λ f. f.is_stop) flags)
      ∙ cc e
  next_pc_sound loadfp local next v pc' t position small same flags not_last h e =
      let parts = separate local next position h in
      incrementing p local next v pc' small same loadfp flags position not_last parts.pcs (
        ap (λ f. p.plus (p.plus (p.plus f.is_imm32 f.is_loadfp) f.is_bus_op) f.is_advice) flags
        ∙ sum_second p)
      ∙ cc e

  abbrev pub next_fp : Operation → CpuCols F → F
  next_fp jal local = p.plus local.fp local.instruction.operands.c
  next_fp jalv local = p.plus local.fp (reduce p (read_value_2 local))
  next_fp _ local = local.fp

  neither : p.minus (p.minus p.field_one p.field_zero) p.field_zero ≡ p.field_one
  neither = minus_zero_right p _ ∙ minus_zero_right p p.field_one

  module _ (local next : CpuCols F) (position : Position) (not_last : position.is_last ≡ false)
      (fps : HoldAt p position (eval_fp p local next)) where
    fp_same :
        p.minus (p.minus p.field_one local.opcode_flags.is_jal) local.opcode_flags.is_jalv
          ≡ p.field_one
        → next.fp ≡ local.fp
    unfolding eval_fp HoldAt Active
    fp_same set = asserted p _ _ _ set (fps.1.1.0 not_last)

    fp_kept :
        local.opcode_flags.is_jal ≡ p.field_zero
        → local.opcode_flags.is_jalv ≡ p.field_zero
        → next.fp ≡ local.fp
    fp_kept e f = fp_same (rw (e, f) neither)

    next_fp_sound :
        (op : Operation)
        → local.opcode_flags ≡ record (flags_of p op) { is_imm_op = local.opcode_flags.is_imm_op }
        → next.fp ≡ next_fp op local
    unfolding eval_fp HoldAt Active
    next_fp_sound jal flags = asserted p _ _ _ (ap (λ f. f.is_jal) flags) (fps.0 not_last)
    next_fp_sound jalv flags = asserted p _ _ _ (ap (λ f. f.is_jalv) flags) (fps.1.0 not_last)
    next_fp_sound store32 flags = fp_kept (ap (λ f. f.is_jal) flags) (ap (λ f. f.is_jalv) flags)
    next_fp_sound storeu8 flags = fp_kept (ap (λ f. f.is_jal) flags) (ap (λ f. f.is_jalv) flags)
    next_fp_sound load32 flags = fp_kept (ap (λ f. f.is_jal) flags) (ap (λ f. f.is_jalv) flags)
    next_fp_sound loadu8 flags = fp_kept (ap (λ f. f.is_jal) flags) (ap (λ f. f.is_jalv) flags)
    next_fp_sound loads8 flags = fp_kept (ap (λ f. f.is_jal) flags) (ap (λ f. f.is_jalv) flags)
    next_fp_sound (beq imm) flags = fp_kept (ap (λ f. f.is_jal) flags) (ap (λ f. f.is_jalv) flags)
    next_fp_sound (bne imm) flags = fp_kept (ap (λ f. f.is_jal) flags) (ap (λ f. f.is_jalv) flags)
    next_fp_sound imm32 flags = fp_kept (ap (λ f. f.is_jal) flags) (ap (λ f. f.is_jalv) flags)
    next_fp_sound (bus imm) flags = fp_kept (ap (λ f. f.is_jal) flags) (ap (λ f. f.is_jalv) flags)
    next_fp_sound (bus_with_memory imm) flags =
        fp_kept (ap (λ f. f.is_jal) flags) (ap (λ f. f.is_jalv) flags)
    next_fp_sound read_advice flags = fp_kept (ap (λ f. f.is_jal) flags) (ap (λ f. f.is_jalv) flags)
    next_fp_sound stop flags = fp_kept (ap (λ f. f.is_jal) flags) (ap (λ f. f.is_jalv) flags)
    next_fp_sound loadfp flags = fp_kept (ap (λ f. f.is_jal) flags) (ap (λ f. f.is_jalv) flags)

  -- Where a row of the CPU chip that is not the last satisfies the constraints with the next row,
  -- and its flags, that of an immediate operand aside, are those of one operation that is no load
  -- or store, 24 times the next pc is the operand or the word that the jump or the taken branch
  -- goes to, or 24 times the pc after the row's own, and the same pc after a stop; a branch goes
  -- by the equality of the two words read. The next fp is fp plus the third operand after jal, fp
  -- plus the second word read after jalv, and fp otherwise. The words are of bytes, and the
  -- values and 24 times each pc are below 2 ^ 30.
  pub next_registers_sound :
      (op : Operation) (local next : CpuCols F) (v : Values p local) (pc' t : ℕ)
      (position : Position)
      → pc' < 2 ^ 25
      → next.pc ≡ p.from_canonical pc'
      → local.opcode_flags ≡ record (flags_of p op) { is_imm_op = local.opcode_flags.is_imm_op }
      → position.is_last ≡ false
      → HoldAt p position (eval p local next)
      → next_times_24 p op local v ≡ some t
      → (24 * pc' ≡ t) × (next.fp ≡ next_fp op local)
  next_registers_sound op local next v pc' t position small same flags not_last h e = (
    next_pc_sound op local next v pc' t position small same flags not_last h e,
    next_fp_sound local next position not_last (separate local next position h).fps op flags,
  )
