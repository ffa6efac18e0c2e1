-- ===== src/Air/Cpu/Eval.antt =====
-- cpu/src/stark.rs: the constraints of the CPU chip on a row and the next.
pub mod Next
pub mod Sound
pub mod Free
pub mod Check
use valida.Prelude.{ℕ, ◌+◌, ◌^◌, ◌≡◌, List, [], ◌∷◌, ◌++◌, Bool, true, false, All}
use valida.Word.{Word}
use valida.Opcode.{bytes_per_instr}
use valida.Air.{PrimeField}
use valida.Air.Equality.{equality_constraints}
use valida.Air.Cpu.{
  CpuCols, OperandCols, read_addr_1, read_addr_2, write_addr, read_value_1, read_value_2,
  write_value, read_1_used, read_2_used, write_used,
}

-- The rows that a constraint is on: `when_first_row`, `when_transition`, `when_last_row`.
pub data Filter : Type 0 where
  all_rows first_row transition last_row : Filter

-- Where a row stands in its trace.
pub record Position : Type 0 where
  pub is_first : Bool
  pub is_last : Bool

unfoldable pub Active : Position → Filter → Type 0
Active position all_rows = Unit
Active position first_row = position.is_first ≡ true
Active position transition = position.is_last ≡ false
Active position last_row = position.is_last ≡ true

module _ {F : Type 0} (p : PrimeField F) where
  -- An expression that is asserted to be zero.
  abbrev pub Constraint : Type 0
  Constraint = Filter × F

  -- `when(x)` multiplies by its condition.
  abbrev pub assert_eq_when : F → F → F → F
  assert_eq_when condition x y = p.times condition (p.minus x y)

  -- `reduce`, with the bases of the bytes.
  unfoldable pub reduce : Word F → F
  reduce w =
      p.plus
        (p.plus
          (p.plus (p.plus p.field_zero (p.times (p.from_canonical (2 ^ 24)) w.byte_0))
            (p.times (p.from_canonical (2 ^ 16)) w.byte_1))
          (p.times (p.from_canonical (2 ^ 8)) w.byte_2))
        (p.times (p.from_canonical 1) w.byte_3)

  abbrev pub instr_bytes : F → F
  instr_bytes x = p.times (p.from_canonical bytes_per_instr) x

  abbrev pub opposite_flag : F → F
  opposite_flag x = p.minus p.field_one x

  unfoldable pub should_increment_pc : CpuCols F → F
  should_increment_pc r =
      let f = r.opcode_flags in
      p.plus (p.plus (p.plus f.is_imm32 f.is_loadfp) f.is_bus_op) f.is_advice

  abbrev pub incremented_pc : CpuCols F → F
  incremented_pc r = p.plus r.pc p.field_one

  -- `beq_next_pc_times_24`
  unfoldable pub beq_target : CpuCols F → F
  beq_target r =
      p.plus (p.times (opposite_flag r.not_equal) r.instruction.operands.a)
        (p.times (instr_bytes r.not_equal) (incremented_pc r))

  -- `bne_next_pc_times_24`
  unfoldable pub bne_target : CpuCols F → F
  bne_target r =
      p.plus (p.times (instr_bytes (opposite_flag r.not_equal)) (incremented_pc r))
        (p.times r.not_equal r.instruction.operands.a)

  unfoldable pub eval_pc : CpuCols F → CpuCols F → List Constraint
  unfolding should_increment_pc beq_target bne_target reduce
  eval_pc local next =
      (transition, assert_eq_when (should_increment_pc local) next.pc (incremented_pc local))
      ∷ (
        transition,
        assert_eq_when local.opcode_flags.is_beq (instr_bytes next.pc) (beq_target local),
      )
      ∷ (
        transition,
        assert_eq_when local.opcode_flags.is_bne (instr_bytes next.pc) (bne_target local),
      )
      ∷ (
        transition,
        assert_eq_when local.opcode_flags.is_jal (instr_bytes next.pc) local.instruction.operands.b,
      )
      ∷ (
        transition,
        assert_eq_when local.opcode_flags.is_jalv (instr_bytes next.pc)
            (reduce (read_value_1 local)),
      )
      ∷ []

  unfoldable pub eval_fp : CpuCols F → CpuCols F → List Constraint
  unfolding reduce
  eval_fp local next =
      (
        transition,
        assert_eq_when local.opcode_flags.is_jal next.fp
            (p.plus local.fp local.instruction.operands.c),
      )
      ∷ (
        transition,
        assert_eq_when local.opcode_flags.is_jalv next.fp
            (p.plus local.fp (reduce (read_value_2 local))),
      )
      ∷ (
        transition,
        assert_eq_when
            (p.minus (p.minus p.field_one local.opcode_flags.is_jal) local.opcode_flags.is_jalv)
            next.fp local.fp,
      )
      ∷ []

  abbrev on_all_rows : List F → List Constraint
  on_all_rows [] = []
  on_all_rows (x ∷ xs) = (all_rows, x) ∷ on_all_rows xs

  unfoldable pub eval_equality : CpuCols F → List Constraint
  unfolding equality_constraints
  eval_equality local = on_all_rows (
      equality_constraints p (read_value_1 local) (read_value_2 local) local.diff local.diff_inv
        local.not_equal)

  -- The clock, the immediate value and the stop, in the order of `eval`.
  unfoldable pub eval_clock : CpuCols F → CpuCols F → List Constraint
  unfolding reduce
  eval_clock local next =
      let f = local.opcode_flags in
      (first_row, local.clk)
      ∷ (transition, p.minus (p.plus local.clk p.field_one) next.clk)
      ∷ (all_rows, assert_eq_when f.is_bus_op_with_mem local.clk local.clk_or_zero)
      ∷ (all_rows, p.times (opposite_flag f.is_bus_op_with_mem) local.clk_or_zero)
      ∷ (
        all_rows,
        assert_eq_when f.is_imm_op local.instruction.operands.c (reduce (read_value_2 local)),
      )
      ∷ (transition, assert_eq_when f.is_stop next.pc local.pc)
      ∷ (last_row, p.minus f.is_stop p.field_one)
      ∷ []

  -- `is_beq + is_bne + is_bus_op`
  abbrev pub second_operand_flags : CpuCols F → F
  second_operand_flags r =
      p.plus (p.plus r.opcode_flags.is_beq r.opcode_flags.is_bne) r.opcode_flags.is_bus_op

  abbrev pub square_sum : Word F → Word F → F
  square_sum x y =
      p.plus
        (p.plus
          (p.plus
            (p.plus p.field_zero (p.times (p.minus x.byte_0 y.byte_0) (p.minus x.byte_0 y.byte_0)))
            (p.times (p.minus x.byte_1 y.byte_1) (p.minus x.byte_1 y.byte_1)))
          (p.times (p.minus x.byte_2 y.byte_2) (p.minus x.byte_2 y.byte_2)))
        (p.times (p.minus x.byte_3 y.byte_3) (p.minus x.byte_3 y.byte_3))

  abbrev pub imm32_cols : OperandCols F → Word F
  imm32_cols ops = record { byte_0 = ops.b; byte_1 = ops.c; byte_2 = ops.d; byte_3 = ops.e }

  -- The kinds of rows, and the first read.
  unfoldable pub eval_read_1 : CpuCols F → List Constraint
  eval_read_1 local =
      let f = local.opcode_flags in
      let ops = local.instruction.operands in
      let loads_stores = p.plus f.is_load f.is_store in
      (all_rows, p.minus local.mem_channel_0.is_read p.field_one)
      ∷ (all_rows, p.minus local.mem_channel_1.is_read p.field_one)
      ∷ (all_rows, local.mem_channel_2.is_read)
      ∷ (
        all_rows,
        assert_eq_when (p.plus (p.plus (p.plus f.is_jalv f.is_beq) f.is_bne) f.is_bus_op)
            (read_addr_1 local) (p.plus local.fp ops.b),
      )
      ∷ (all_rows, assert_eq_when loads_stores (read_addr_1 local) (p.plus local.fp ops.c))
      ∷ (
        all_rows,
        assert_eq_when
            (p.plus (p.plus (p.plus (p.plus loads_stores f.is_jalv) f.is_beq) f.is_bne) f.is_bus_op)
            (read_1_used local) p.field_one,
      )
      ∷ (all_rows, p.times f.is_jal (read_1_used local))
      ∷ []

  unfoldable pub eval_read_2 : CpuCols F → List Constraint
  unfolding reduce
  eval_read_2 local =
      let f = local.opcode_flags in
      let ops = local.instruction.operands in
      let not_imm = p.times (opposite_flag f.is_imm_op) (second_operand_flags local) in
      (all_rows, assert_eq_when f.is_load (read_addr_2 local) (reduce (read_value_1 local)))
      ∷ (all_rows, assert_eq_when f.is_store (read_addr_2 local) (p.plus local.fp ops.b))
      ∷ (
        all_rows,
        assert_eq_when (p.plus f.is_jalv not_imm) (read_addr_2 local) (p.plus local.fp ops.c),
      )
      ∷ (
        all_rows,
        assert_eq_when (p.plus (p.plus (p.plus f.is_load f.is_store) f.is_jalv) not_imm)
            (read_2_used local) p.field_one,
      )
      ∷ (
        all_rows,
        p.times (p.plus f.is_jal (p.times f.is_imm_op (second_operand_flags local)))
            (read_2_used local),
      )
      ∷ []

  unfoldable pub eval_write : CpuCols F → List Constraint
  unfolding reduce
  eval_write local =
      let f = local.opcode_flags in
      let ops = local.instruction.operands in
      (
        all_rows,
        assert_eq_when
            (p.plus (p.plus (p.plus (p.plus f.is_load f.is_jal) f.is_jalv) f.is_imm32) f.is_bus_op)
            (write_addr local) (p.plus local.fp ops.a),
      )
      ∷ (all_rows, assert_eq_when f.is_store (write_addr local) (reduce (read_value_2 local)))
      ∷ (all_rows, p.times f.is_store (square_sum (read_value_1 local) (write_value local)))
      ∷ (all_rows, p.times f.is_load (square_sum (read_value_2 local) (write_value local)))
      ∷ (
        transition,
        assert_eq_when (p.plus f.is_jal f.is_jalv) (instr_bytes (p.plus local.pc p.field_one))
            (reduce (write_value local)),
      )
      ∷ (all_rows, p.times f.is_imm32 (square_sum (write_value local) (imm32_cols ops)))
      ∷ (all_rows, assert_eq_when f.is_loadfp local.fp (reduce (write_value local)))
      ∷ (
        all_rows,
        assert_eq_when
            (p.plus
              (p.plus
                (p.plus (p.plus (p.plus (p.plus f.is_store f.is_load) f.is_jal) f.is_jalv)
                  f.is_imm32)
                f.is_loadfp)
              f.is_bus_op)
            (write_used local) p.field_one,
      )
      ∷ []

  unfoldable pub eval_memory_channels : CpuCols F → List Constraint
  unfolding eval_read_1 eval_read_2 eval_write
  eval_memory_channels local = eval_read_1 local ++ (eval_read_2 local ++ eval_write local)

  unfoldable pub eval : CpuCols F → CpuCols F → List Constraint
  unfolding eval_pc eval_fp eval_equality eval_memory_channels eval_clock
  eval local next =
      eval_pc local next
      ++ (eval_fp local next
          ++ (eval_equality local ++ (eval_memory_channels local ++ eval_clock local next)))

  -- The active constraints are met.
  unfoldable pub HoldAt : Position → List Constraint → Type 0
  unfolding Active
  HoldAt position = All (λ c. Active position c.0 → c.1 ≡ p.field_zero)
