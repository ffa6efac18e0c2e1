-- ===== src/Air/Cpu/Eval/Next.antt =====
-- cpu/src/stark.rs: what the constraints say of the next row's `pc` and `fp`.
use valida.Prelude.{
  ℕ, ◌+◌, ◌*◌, ◌^◌, ◌<◌, ◌≡◌, ◌∙◌, refl, sym, ap, arith, Option, none, some, false, Bool-cases, inl,
  inr, if◌then◌else◌,
}
use mathlib.Core.Path.{ap₂}
use valida.Word.{Word, IsWord, into_u32, transform}
use valida.Word.Ordering.{eq}
use valida.Chips.Cpu.{Operation}
use valida.Chips.Cpu.Operation.{
  store32, storeu8, load32, loadu8, loads8, jal, jalv, beq, bne, imm32, bus, bus_with_memory,
  read_advice, stop, loadfp,
}
use valida.Air.{
  PrimeField, minus_zero, minus_self, zero_plus, minus_zero_right, zero_times, times_zero,
  one_times,
}
use valida.Air.Equality.{equality_constraints, AllZero, not_equal_sound}
use valida.Air.Cpu.{CpuCols, read_value_1, read_value_2}
use valida.Air.Cpu.Trace.{flags_of}
use valida.Air.Cpu.Eval.{
  Position, Active, HoldAt, reduce, instr_bytes, eval_pc, eval_equality, eval_clock,
  should_increment_pc, beq_target, bne_target,
}

module _ {F : Type 0} (p : PrimeField F) where
  -- What a cycle's values and operands are, as numbers.
  pub record Values (r : CpuCols F) : Type 0 where
    pub pc : ℕ
    pub a : ℕ
    pub b : ℕ
    pub read_1 : Word ℕ
    pub read_2 : Word ℕ
    pub small_pc : pc < 2 ^ 25
    pub small_a : a < 2 ^ 30
    pub small_b : b < 2 ^ 30
    pub small_1 : into_u32 read_1 < 2 ^ 30
    pub fits_1 : IsWord read_1
    pub fits_2 : IsWord read_2
    pub same_pc : r.pc ≡ p.from_canonical pc
    pub same_a : r.instruction.operands.a ≡ p.from_canonical a
    pub same_b : r.instruction.operands.b ≡ p.from_canonical b
    pub same_1 : read_value_1 r ≡ transform p.from_canonical read_1
    pub same_2 : read_value_2 r ≡ transform p.from_canonical read_2

  -- `24 * pc` of the next row; `none` where no constraint is on it.
  abbrev pub next_times_24 : Operation → (r : CpuCols F) → Values r → Option ℕ
  next_times_24 store32 r v = none
  next_times_24 storeu8 r v = none
  next_times_24 load32 r v = none
  next_times_24 loadu8 r v = none
  next_times_24 loads8 r v = none
  next_times_24 jal r v = some v.b
  next_times_24 jalv r v = some (into_u32 v.read_1)
  next_times_24 (beq imm) r v = some (if eq v.read_1 v.read_2 then v.a else 24 * (v.pc + 1))
  next_times_24 (bne imm) r v = some (if eq v.read_1 v.read_2 then 24 * (v.pc + 1) else v.a)
  next_times_24 imm32 r v = some (24 * (v.pc + 1))
  next_times_24 (bus imm) r v = some (24 * (v.pc + 1))
  next_times_24 (bus_with_memory imm) r v = some (24 * (v.pc + 1))
  next_times_24 read_advice r v = some (24 * (v.pc + 1))
  next_times_24 stop r v = some (24 * v.pc)
  next_times_24 loadfp r v = some (24 * (v.pc + 1))

  -- An assertion under a flag that is set.
  pub asserted : (c x y : F) → c ≡ p.field_one → p.times c (p.minus x y) ≡ p.field_zero → x ≡ y
  asserted c x y set e =
      minus_zero p x y (sym (one_times p _) ∙ ap (λ t. p.times t (p.minus x y)) (sym set) ∙ e)

  pub reduce-transform :
      (w : Word ℕ) → reduce p (transform p.from_canonical w) ≡ p.from_canonical (into_u32 w)
  unfolding reduce transform into_u32
  reduce-transform w =
      ap₂ p.plus
        (ap₂ p.plus
            (ap₂ p.plus (zero_plus p _ ∙ p.from_times _ _) (p.from_times _ _) ∙ p.from_plus _ _)
            (p.from_times _ _)
          ∙ p.from_plus _ _)
        (p.from_times _ _)
      ∙ p.from_plus _ _
      ∙ ap p.from_canonical (omega arith)

  -- A sum of four flags of which one is set.
  pub sum_first :
      p.plus (p.plus (p.plus p.field_one p.field_zero) p.field_zero) p.field_zero ≡ p.field_one
  sum_first = p.plus_zero _ ∙ p.plus_zero _ ∙ p.plus_zero _

  pub sum_second :
      p.plus (p.plus (p.plus p.field_zero p.field_one) p.field_zero) p.field_zero ≡ p.field_one
  sum_second = p.plus_zero _ ∙ p.plus_zero _ ∙ zero_plus p _

  pub sum_third :
      p.plus (p.plus (p.plus p.field_zero p.field_zero) p.field_one) p.field_zero ≡ p.field_one
  sum_third =
      p.plus_zero _ ∙ ap (λ t. p.plus t p.field_one) (p.plus_zero p.field_zero) ∙ zero_plus p _

  pub sum_fourth :
      p.plus (p.plus (p.plus p.field_zero p.field_zero) p.field_zero) p.field_one ≡ p.field_one
  sum_fourth =
      ap (λ t. p.plus t p.field_one) (p.plus_zero _ ∙ p.plus_zero p.field_zero) ∙ zero_plus p _

  module _ (local next : CpuCols F) (v : Values local) (pc' : ℕ) (small : pc' < 2 ^ 25)
      (same : next.pc ≡ p.from_canonical pc') where
    incremented : p.plus local.pc p.field_one ≡ p.from_canonical (v.pc + 1)
    incremented = ap₂ p.plus v.same_pc (sym p.from_one) ∙ p.from_plus v.pc 1

    times_24 : (n : ℕ) → instr_bytes p (p.from_canonical n) ≡ p.from_canonical (24 * n)
    times_24 n = p.from_times 24 n

    -- An equation of field elements below the order is one of numbers.
    numbers :
        (m n : ℕ)
        → m < 2 ^ 30
        → n < 2 ^ 30
        → (x y : F) → x ≡ p.from_canonical m
        → y ≡ p.from_canonical n
        → x ≡ y
        → m ≡ n
    numbers m n hm hn x y ex ey e = p.from_injective m n hm hn (sym ex ∙ e ∙ ey)

    by_target :
        (n : ℕ) (y : F)
        → n < 2 ^ 30
        → y ≡ p.from_canonical n
        → instr_bytes p next.pc ≡ y
        → 24 * pc' ≡ n
    by_target n y hn ey e =
        numbers (24 * pc') n (omega arith) hn (instr_bytes p next.pc) y
          (ap (instr_bytes p) same ∙ times_24 pc') ey e

    by_increment : next.pc ≡ p.plus local.pc p.field_one → 24 * pc' ≡ 24 * (v.pc + 1)
    by_increment e =
        ap (λ n. 24 * n)
          (numbers pc' (v.pc + 1) (omega arith) (omega (arith, v.small_pc)) _ _ same incremented e)

    of_equal : local.not_equal ≡ p.field_zero → beq_target p local ≡ local.instruction.operands.a
    unfolding beq_target
    of_equal e =
        ap₂ p.plus
          (ap (λ t. p.times (p.minus p.field_one t) local.instruction.operands.a) e
            ∙ ap (λ t. p.times t local.instruction.operands.a) (minus_zero_right p p.field_one)
            ∙ one_times p _)
          (ap (λ t. p.times (instr_bytes p t) (p.plus local.pc p.field_one)) e
            ∙ ap (λ t. p.times t (p.plus local.pc p.field_one)) (times_zero p _)
            ∙ zero_times p _)
        ∙ p.plus_zero _

    of_unequal :
        local.not_equal ≡ p.field_one
        → beq_target p local ≡ instr_bytes p (p.plus local.pc p.field_one)
    unfolding beq_target
    of_unequal e =
        ap₂ p.plus
          (ap (λ t. p.times (p.minus p.field_one t) local.instruction.operands.a) e
            ∙ ap (λ t. p.times t local.instruction.operands.a) (minus_self p p.field_one)
            ∙ zero_times p _)
          (ap (λ t. p.times (instr_bytes p t) (p.plus local.pc p.field_one)) e
            ∙ ap (λ t. p.times t (p.plus local.pc p.field_one)) (p.times_one _))
        ∙ zero_plus p _

    bne_of_equal :
        local.not_equal ≡ p.field_zero
        → bne_target p local ≡ instr_bytes p (p.plus local.pc p.field_one)
    unfolding bne_target
    bne_of_equal e =
        ap₂ p.plus
          (ap (λ t. p.times (instr_bytes p (p.minus p.field_one t)) (p.plus local.pc p.field_one)) e
            ∙ ap (λ t. p.times (instr_bytes p t) (p.plus local.pc p.field_one))
                (minus_zero_right p p.field_one)
            ∙ ap (λ t. p.times t (p.plus local.pc p.field_one)) (p.times_one _))
          (ap (λ t. p.times t local.instruction.operands.a) e ∙ zero_times p _)
        ∙ p.plus_zero _

    bne_of_unequal :
        local.not_equal ≡ p.field_one → bne_target p local ≡ local.instruction.operands.a
    unfolding bne_target
    bne_of_unequal e =
        ap₂ p.plus
          (ap (λ t. p.times (instr_bytes p (p.minus p.field_one t)) (p.plus local.pc p.field_one)) e
            ∙ ap (λ t. p.times (instr_bytes p t) (p.plus local.pc p.field_one))
                (minus_self p p.field_one)
            ∙ ap (λ t. p.times t (p.plus local.pc p.field_one)) (times_zero p _)
            ∙ zero_times p _)
          (ap (λ t. p.times t local.instruction.operands.a) e ∙ one_times p _)
        ∙ zero_plus p _

    next_instruction :
        instr_bytes p (p.plus local.pc p.field_one) ≡ p.from_canonical (24 * (v.pc + 1))
    next_instruction = ap (instr_bytes p) incremented ∙ times_24 (v.pc + 1)

    module _
        (flag : local.not_equal
          ≡ (if eq v.read_1 v.read_2 then p.field_zero else p.field_one)) where
      pub beq_sound :
          instr_bytes p next.pc ≡ beq_target p local
          → 24 * pc' ≡ (if eq v.read_1 v.read_2 then v.a else 24 * (v.pc + 1))
      beq_sound e = elim (Bool-cases (eq v.read_1 v.read_2)) [
        | inl alike ↦ rw alike (
            by_target v.a (beq_target p local) v.small_a
              (of_equal (flag ∙ rw alike refl) ∙ v.same_a) e)
        | inr differ ↦ rw differ (
            by_target (24 * (v.pc + 1)) (beq_target p local) (omega (arith, v.small_pc))
              (of_unequal (flag ∙ rw differ refl) ∙ next_instruction) e)
      ]

      pub bne_sound :
          instr_bytes p next.pc ≡ bne_target p local
          → 24 * pc' ≡ (if eq v.read_1 v.read_2 then 24 * (v.pc + 1) else v.a)
      bne_sound e = elim (Bool-cases (eq v.read_1 v.read_2)) [
        | inl alike ↦ rw alike (
            by_target (24 * (v.pc + 1)) (bne_target p local) (omega (arith, v.small_pc))
              (bne_of_equal (flag ∙ rw alike refl) ∙ next_instruction) e)
        | inr differ ↦ rw differ (
            by_target v.a (bne_target p local) v.small_a
              (bne_of_unequal (flag ∙ rw differ refl) ∙ v.same_a) e)
      ]

    module _ (op : Operation)
        (flags : local.opcode_flags
          ≡ record (flags_of p op) { is_imm_op = local.opcode_flags.is_imm_op })
        (position : Position) (not_last : position.is_last ≡ false)
        (pcs : HoldAt p position (eval_pc p local next)) where
      pub incrementing : should_increment_pc p local ≡ p.field_one → 24 * pc' ≡ 24 * (v.pc + 1)
      unfolding eval_pc HoldAt Active
      incrementing set = by_increment (asserted _ _ _ set (pcs.0 not_last))

      pub branch_equal :
          local.opcode_flags.is_beq ≡ p.field_one → instr_bytes p next.pc ≡ beq_target p local
      unfolding eval_pc HoldAt Active
      branch_equal set = asserted _ _ _ set (pcs.1.0 not_last)

      pub branch_unequal :
          local.opcode_flags.is_bne ≡ p.field_one → instr_bytes p next.pc ≡ bne_target p local
      unfolding eval_pc HoldAt Active
      branch_unequal set = asserted _ _ _ set (pcs.1.1.0 not_last)

      pub jump : local.opcode_flags.is_jal ≡ p.field_one → 24 * pc' ≡ v.b
      unfolding eval_pc HoldAt Active
      jump set =
          by_target v.b local.instruction.operands.b v.small_b v.same_b
            (asserted _ _ _ set (pcs.1.1.1.0 not_last))

      pub jump_to_read : local.opcode_flags.is_jalv ≡ p.field_one → 24 * pc' ≡ into_u32 v.read_1
      unfolding eval_pc HoldAt Active
      jump_to_read set =
          by_target (into_u32 v.read_1) (reduce p (read_value_1 local)) v.small_1
            (ap (reduce p) v.same_1 ∙ reduce-transform v.read_1)
            (asserted _ _ _ set (pcs.1.1.1.1.0 not_last))

    module _ (position : Position) (tests : HoldAt p position (eval_equality p local)) where
      pub differ : local.not_equal ≡ (if eq v.read_1 v.read_2 then p.field_zero else p.field_one)
      unfolding eval_equality HoldAt Active AllZero equality_constraints
      differ =
          let held : AllZero p (
              equality_constraints p (read_value_1 local) (read_value_2 local) local.diff
                local.diff_inv local.not_equal) =
            (tests.0 tt, (tests.1.0 tt, (tests.1.1.0 tt, (tests.1.1.1.0 tt, tt)))) in
          not_equal_sound p v.read_1 v.read_2 v.fits_1 v.fits_2 local.diff local.diff_inv
            local.not_equal (rw (v.same_1, v.same_2) at held)

    pub stopped :
        (position : Position)
        → position.is_last ≡ false
        → HoldAt p position (eval_clock p local next)
        → local.opcode_flags.is_stop ≡ p.field_one
        → 24 * pc' ≡ 24 * v.pc
    unfolding eval_clock HoldAt Active
    stopped position not_last clocks set =
        ap (λ n. 24 * n)
          (numbers pc' v.pc (omega arith) (omega (arith, v.small_pc)) _ _ same v.same_pc
            (asserted _ _ _ set (clocks.1.1.1.1.1.0 not_last)))
