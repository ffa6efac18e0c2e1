-- ===== src/Air/Cpu/Trace/Rows.antt =====
-- cpu/src/lib.rs, the rows of the operations, before the tests and the padding.
use valida.Prelude.{
  ℕ, suc, ◌+◌, ◌≤◌, ◌<◌, ◌≡◌, ◌∙◌, refl, ap, arith, List, [], ◌∷◌, Option, none, some, Outcome, ok,
  length, get_elem?_total,
}
use valida.Program.{InstructionWord}
use valida.Memory.{MemoryChip}
use valida.Chips.Cpu.{CpuChip, Operation, Registers}
use valida.Air.{PrimeField}
use valida.Air.Cpu.{CpuCols}
use valida.Air.Cpu.Trace.{
  imm_of, zero_row, from_i32_slice, set_instruction_values, set_memory_channel_values,
  set_imm_value, op_to_row, rows_from,
}
use valida.Air.Cpu.Trace.Channels.{set_memory_channel_values_lem}

module _ {F : Type 0} (p : PrimeField F) where
  -- Before the tests are set.
  unfoldable pub AreClocked : ℕ → List (CpuCols F) → Type 0
  AreClocked k [] = Unit
  AreClocked k (r ∷ rows) =
      (r.clk ≡ p.from_canonical k) × (r.not_equal ≡ p.field_zero) × AreClocked (suc k) rows

  record RowAt (k : ℕ) (o : Outcome (CpuCols F)) : Type 0 where
    row : CpuCols F
    same : o ≡ ok row
    clock : row.clk ≡ p.from_canonical k
    untested : row.not_equal ≡ p.field_zero

  set_imm_value-clk : (imm : Option _) (r : CpuCols F) → (set_imm_value p imm r).clk ≡ r.clk
  unfolding set_imm_value
  set_imm_value-clk none r = refl
  set_imm_value-clk (some imm) r = refl

  set_imm_value-not_equal :
      (imm : Option _) (r : CpuCols F) → (set_imm_value p imm r).not_equal ≡ r.not_equal
  unfolding set_imm_value
  set_imm_value-not_equal none r = refl
  set_imm_value-not_equal (some imm) r = refl

  module _ (chip : CpuChip) (mem : MemoryChip) where
    channels-clk : (k : ℕ) (r : CpuCols F) → (set_memory_channel_values p k mem r).clk ≡ r.clk
    channels-clk k r = ap (λ r. r.clk) (set_memory_channel_values_lem p k mem r)

    channels-not_equal :
        (k : ℕ) (r : CpuCols F) → (set_memory_channel_values p k mem r).not_equal ≡ r.not_equal
    channels-not_equal k r = ap (λ r. r.not_equal) (set_memory_channel_values_lem p k mem r)

    -- The row before the channels.
    abbrev start : ℕ → Registers → InstructionWord → CpuCols F
    start k registers word = record (zero_row p) {
      pc = p.from_canonical registers.pc;
      fp = p.from_canonical registers.fp;
      clk = p.from_canonical k;
      instruction = record {
        opcode = p.from_canonical word.opcode;
        operands = from_i32_slice p word.operands;
      };
    }

    row_at :
        (k : ℕ) (op : Operation)
        → k < length chip.registers
        → k < length chip.instructions
        → RowAt k (op_to_row p chip mem k op)
    unfolding op_to_row set_instruction_values
    row_at k op h j =
        let (registers, e) = get_elem?_total chip.registers k h in
        let (word, f) = get_elem?_total chip.instructions k j in
        rw (e, f)
          (record {
            row = _;
            same = refl;
            clock = set_imm_value-clk (imm_of op) _ ∙ channels-clk k (start k registers word);
            untested =
                set_imm_value-not_equal (imm_of op) _
                ∙ channels-not_equal k (start k registers word);
          })

    pub record RowsFrom (k n : ℕ) (o : Outcome (List (CpuCols F))) : Type 0 where
      pub rows : List (CpuCols F)
      pub same : o ≡ ok rows
      pub clocked : AreClocked k rows
      pub count : length rows ≡ n

    pub rows_from_total :
        (ops : List Operation) (k : ℕ)
        → k + length ops ≤ length chip.registers
        → k + length ops ≤ length chip.instructions
        → RowsFrom k (length ops) (rows_from p chip mem k ops)
    unfolding rows_from AreClocked
    rows_from_total [] k h j = record { rows = []; same = refl; clocked = tt; count = refl }
    rows_from_total (op ∷ ops) k h j =
        let first = row_at k op (omega arith) (omega arith) in
        let rest = rows_from_total ops (suc k) (omega arith) (omega arith) in
        record {
          rows = first.row ∷ rest.rows;
          same = rw (first.same, rest.same) refl;
          clocked = (first.clock, first.untested, rest.clocked);
          count = ap suc rest.count;
        }
