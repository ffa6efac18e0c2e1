-- ===== src/Air/Cpu/Trace.antt =====
-- cpu/src/lib.rs: the row of each operation, and the trace.
pub mod Channels
pub mod Rows
pub mod Padding
use valida.Prelude.{
  ℕ, zero, suc, ◌+◌, ◌-◌, ◌*◌, ◌^◌, ◌%◌, List, [], ◌∷◌, ◌++◌, map, Option, none, some, Bool, true,
  false, Outcome, ok, panic, or_panic, index_out_of_bounds, assertion_failed, get_elem?, length,
  ltb, if◌then◌else◌, ◌>>=◌,
}
use valida.Prelude.BTreeMap.{get}
use mathlib.Core.Option.{get_or}
use valida.Word.{Word, transform}
use valida.Opcode.{Opcode, code}
use valida.Program.{Operands, InstructionWord}
use valida.Memory.{MemoryChip}
use valida.Memory as Memory
use valida.Machine.Run.{next_power_of_two_usize}
use valida.Chips.Cpu.{CpuChip, Operation, Registers}
use valida.Chips.Cpu.Operation.{
  store32, storeu8, load32, loadu8, loads8, jal, jalv, beq, bne, imm32, bus, bus_with_memory,
  read_advice, stop, loadfp,
}
use valida.Air.{PrimeField, word_of_zeros}
use valida.Air.Equality.{sum_squares}
use valida.Air.Inverse.{batch_multiplicative_inverse_allowing_zero}
use valida.Air.Cpu.{OperandCols, InstructionCols, OpcodeFlagCols, MemoryChannelCols, CpuCols}

abbrev pub imm_of : Operation → Option (Word ℕ)
imm_of (beq imm) = imm
imm_of (bne imm) = imm
imm_of (bus imm) = imm
imm_of (bus_with_memory imm) = imm
imm_of _ = none

module _ {F : Type 0} (p : PrimeField F) where
  abbrev pub zero_flags : OpcodeFlagCols F
  zero_flags = record {
    is_bus_op = p.field_zero;
    is_bus_op_with_mem = p.field_zero;
    is_imm_op = p.field_zero;
    is_load = p.field_zero;
    is_load_u8 = p.field_zero;
    is_load_s8 = p.field_zero;
    is_store = p.field_zero;
    is_store_u8 = p.field_zero;
    is_beq = p.field_zero;
    is_bne = p.field_zero;
    is_jal = p.field_zero;
    is_jalv = p.field_zero;
    is_imm32 = p.field_zero;
    is_advice = p.field_zero;
    is_stop = p.field_zero;
    is_loadfp = p.field_zero;
  }

  abbrev pub zero_channel : MemoryChannelCols F
  zero_channel = record {
    used = p.field_zero;
    is_read = p.field_zero;
    addr = p.field_zero;
    value = word_of_zeros p;
  }

  abbrev pub zero_operands : OperandCols F
  zero_operands = record {
    a = p.field_zero;
    b = p.field_zero;
    c = p.field_zero;
    d = p.field_zero;
    e = p.field_zero;
  }

  -- `[SC::Val::zero(); NUM_CPU_COLS]`
  abbrev pub zero_row : CpuCols F
  zero_row = record {
    clk = p.field_zero;
    pc = p.field_zero;
    fp = p.field_zero;
    instruction = record { opcode = p.field_zero; operands = zero_operands };
    opcode_flags = zero_flags;
    diff = p.field_zero;
    diff_inv = p.field_zero;
    not_equal = p.field_zero;
    mem_channel_0 = zero_channel;
    mem_channel_1 = zero_channel;
    mem_channel_2 = zero_channel;
    clk_or_zero = p.field_zero;
  }

  -- An `i32`, as its absolute value or the opposite of that; the least `i32` is its own `abs`.
  unfoldable pub from_i32 : ℕ → F
  from_i32 operand =
      if ltb operand (2 ^ 31)
      then p.from_canonical operand
      else p.minus p.field_zero (p.from_canonical (2 ^ 32 - operand))

  unfoldable pub from_i32_slice : Operands → OperandCols F
  unfolding from_i32
  from_i32_slice ops = record {
    a = from_i32 ops.a;
    b = from_i32 ops.b;
    c = from_i32 ops.c;
    d = from_i32 ops.d;
    e = from_i32 ops.e;
  }

  unfoldable pub set_instruction_values : CpuChip → ℕ → CpuCols F → Outcome (CpuCols F)
  unfolding from_i32_slice
  set_instruction_values chip clk cols =
      or_panic index_out_of_bounds (get_elem? chip.instructions clk) >>= (λ word. ok (record cols {
        instruction = record {
          opcode = p.from_canonical word.opcode;
          operands = from_i32_slice word.operands;
        };
      }))

  abbrev pub fill : ℕ → Word ℕ → MemoryChannelCols F → MemoryChannelCols F
  fill addr value channel = record channel {
    used = p.field_one;
    addr = p.from_canonical addr;
    value = transform p.from_canonical value;
  }

  -- The loop over the operations of a cycle, with `is_first_read`.
  unfoldable pub fill_channels : Bool → List Memory.Operation → CpuCols F → CpuCols F
  fill_channels is_first_read [] cols = cols
  fill_channels true (Memory.read addr value ∷ ops) cols =
      fill_channels false ops (record cols { mem_channel_0 = fill addr value cols.mem_channel_0 })
  fill_channels false (Memory.read addr value ∷ ops) cols =
      fill_channels false ops (record cols { mem_channel_1 = fill addr value cols.mem_channel_1 })
  fill_channels is_first_read (Memory.write addr value ∷ ops) cols =
      fill_channels is_first_read ops
        (record cols { mem_channel_2 = fill addr value cols.mem_channel_2 })
  fill_channels is_first_read (Memory.dummy_read addr value ∷ ops) cols =
      fill_channels is_first_read ops cols

  unfoldable pub set_memory_channel_values : ℕ → MemoryChip → CpuCols F → CpuCols F
  unfolding fill_channels
  set_memory_channel_values clk mem cols =
      fill_channels true (get_or (get (clk % 2 ^ 32) mem.operations) []) (record cols {
        mem_channel_0 = record cols.mem_channel_0 { is_read = p.field_one };
        mem_channel_1 = record cols.mem_channel_1 { is_read = p.field_one };
        mem_channel_2 = record cols.mem_channel_2 { is_read = p.field_zero };
      })

  -- `Word::reduce`
  unfoldable pub reduce : Word F → F
  reduce w =
      p.plus
        (p.plus
          (p.plus (p.plus p.field_zero (p.times w.byte_3 (p.from_canonical 1)))
            (p.times w.byte_2 (p.from_canonical (2 ^ 8))))
          (p.times w.byte_1 (p.from_canonical (2 ^ 16))))
        (p.times w.byte_0 (p.from_canonical (2 ^ 24)))

  unfoldable pub set_imm_value : Option (Word ℕ) → CpuCols F → CpuCols F
  unfolding reduce
  set_imm_value none cols = cols
  set_imm_value (some imm) cols =
      let word = transform p.from_canonical imm in
      record cols {
        opcode_flags = record cols.opcode_flags { is_imm_op = p.field_one };
        mem_channel_1 = record cols.mem_channel_1 { value = word };
        instruction = record cols.instruction {
          operands = record cols.instruction.operands { c = reduce word };
        };
      }

  -- The flags that the arms set; `set_imm_value` sets the one of an immediate operand.
  abbrev pub flags_of : Operation → OpcodeFlagCols F
  flags_of store32 = record zero_flags { is_store = p.field_one }
  flags_of load32 = record zero_flags { is_load = p.field_one }
  flags_of storeu8 = record zero_flags { is_store_u8 = p.field_one }
  flags_of loadu8 = record zero_flags { is_load_u8 = p.field_one }
  flags_of loads8 = record zero_flags { is_load_s8 = p.field_one }
  flags_of jal = record zero_flags { is_jal = p.field_one }
  flags_of jalv = record zero_flags { is_jalv = p.field_one }
  flags_of (beq imm) = record zero_flags { is_beq = p.field_one }
  flags_of (bne imm) = record zero_flags { is_bne = p.field_one }
  flags_of imm32 = record zero_flags { is_imm32 = p.field_one }
  flags_of (bus imm) = record zero_flags { is_bus_op = p.field_one }
  flags_of (bus_with_memory imm) = record zero_flags {
    is_bus_op = p.field_one;
    is_bus_op_with_mem = p.field_one;
  }
  flags_of read_advice = record zero_flags { is_advice = p.field_one }
  flags_of stop = record zero_flags { is_stop = p.field_one }
  flags_of loadfp = record zero_flags { is_loadfp = p.field_one }

  -- The arms of the `match` set flags, and call `set_imm_value` where the operation has `imm`.
  unfoldable pub op_to_row : CpuChip → MemoryChip → ℕ → Operation → Outcome (CpuCols F)
  unfolding set_instruction_values set_memory_channel_values set_imm_value
  op_to_row chip mem clk op =
      or_panic index_out_of_bounds (get_elem? chip.registers clk) >>= (λ registers.
        set_instruction_values chip clk (record zero_row {
          pc = p.from_canonical registers.pc;
          fp = p.from_canonical registers.fp;
          clk = p.from_canonical clk;
        })
        >>= (λ cols. ok (
            set_imm_value (imm_of op)
              (record (set_memory_channel_values clk mem cols) { opcode_flags = flags_of op }))))

  -- `enumerate` and `map` over the operations, from `clk`.
  unfoldable pub rows_from : CpuChip → MemoryChip → ℕ → List Operation → Outcome (List (CpuCols F))
  unfolding op_to_row
  rows_from chip mem clk [] = ok []
  rows_from chip mem clk (op ∷ ops) =
      op_to_row chip mem clk op
      >>= (λ row. rows_from chip mem (suc clk) ops >>= (λ rows. ok (row ∷ rows)))

  abbrev pub word_diff : CpuCols F → F
  word_diff row = sum_squares p row.mem_channel_0.value row.mem_channel_1.value

  -- `rows[i]` with `diff[i]` and `diff_inv[i]`
  unfoldable pub set_diffs : List (CpuCols F) → List F → List F → List (CpuCols F)
  set_diffs (row ∷ rows) (diff ∷ diffs) (inv ∷ invs) =
      record row {
        diff = diff;
        diff_inv = inv;
        not_equal = if p.is_zero diff then row.not_equal else p.field_one;
      }
      ∷ set_diffs rows diffs invs
  set_diffs _ _ _ = []

  unfoldable pub compute_word_diffs :
      (List F → List F) → List (CpuCols F) → Outcome (List (CpuCols F))
  unfolding batch_multiplicative_inverse_allowing_zero set_diffs
  compute_word_diffs batch rows =
      let diffs = map word_diff rows in
      batch_multiplicative_inverse_allowing_zero p batch diffs
      >>= (λ invs. ok (set_diffs rows diffs invs))

  unfoldable pub last_row : List (CpuCols F) → Option (CpuCols F)
  last_row [] = none
  last_row (row ∷ []) = some row
  last_row (row ∷ next ∷ rows) = last_row (next ∷ rows)

  abbrev pub read_channel : MemoryChannelCols F
  read_channel = record zero_channel { is_read = p.field_one }

  -- The padded row `n`, after the last row.
  unfoldable pub padded_row : CpuCols F → ℕ → CpuCols F
  padded_row last n = record zero_row {
    pc = last.pc;
    fp = last.fp;
    clk = p.plus last.clk (p.from_canonical ((n % 2 ^ 32 + 1) % 2 ^ 32));
    opcode_flags = record zero_flags { is_stop = p.field_one };
    instruction = record { opcode = p.from_canonical (code Opcode.stop); operands = zero_operands };
    mem_channel_0 = read_channel;
    mem_channel_1 = read_channel;
  }

  unfoldable pub padded_rows : CpuCols F → ℕ → ℕ → List (CpuCols F)
  unfolding padded_row
  padded_rows last n zero = []
  padded_rows last n (suc more) = padded_row last n ∷ padded_rows last (suc n) more

  -- `values[len - NUM_CPU_COLS..]` panics where there is no row.
  unfoldable pub pad_to_power_of_two : List (CpuCols F) → Outcome (List (CpuCols F))
  unfolding next_power_of_two_usize last_row padded_rows
  pad_to_power_of_two rows = or_panic index_out_of_bounds (last_row rows) >>= (λ last.
      ok (rows ++ padded_rows last 0 (next_power_of_two_usize (length rows) - length rows)))

  unfoldable pub generate_trace :
      (List F → List F) → CpuChip → MemoryChip → Outcome (List (CpuCols F))
  unfolding rows_from compute_word_diffs pad_to_power_of_two
  generate_trace batch chip mem =
      rows_from chip mem 0 chip.operations
      >>= (λ rows. compute_word_diffs batch rows >>= (λ set. pad_to_power_of_two set))
