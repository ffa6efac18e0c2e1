-- ===== src/Air/Integers/Traces.antt =====
-- Examples of the CPU chip's rows and constraints and of the equality tests, over the integers.
use valida.Prelude.{
  ℕ, ◌*◌, ◌≡◌, refl, arith, List, [], ◌∷◌, none, some, true, false, ok, ap, Outcome, panic, map,
}
use valida.Prelude.Int.{ℤ, pos}
use valida.Prelude.BTreeMap.{get}
use mathlib.Core.Path.{subst}
use valida.Word.{Word, into_u32, transform}
use valida.Word.Ordering.{ne}
use valida.Opcode.{Opcode, code}
use valida.Program.{Operands}
use valida.Memory.{MemoryChip, read, write}
use valida.Chips.Alu.{ne32}
use valida.Chips.Alu as Alu
use valida.Chips.Cpu.{CpuChip}
use valida.Chips.Cpu.Operation.{jal, load32, bus, stop}
use valida.Air.Integers.{integers}
use valida.Air.Equality.{AllZero, equality_constraints, sum_squares}
use valida.Air.Inverse.{nonzero_values, batch_multiplicative_inverse_allowing_zero}
use valida.Air.Inverse.Batch.{AreInverses, AreInversesOrZero, batch-AreInversesOrZero}
use valida.Air.Com.{Com32Cols}
use valida.Air.Com as Com
use valida.Air.Com.Rows as ComRows
use valida.Air.Cpu.{CpuCols, MemoryChannelCols}
use valida.Air.Cpu.Trace.{
  flags_of, zero_row, zero_channel, rows_from, word_diff, op_to_row, set_instruction_values,
  fill_channels, set_imm_value, set_memory_channel_values, generate_trace,
}
use valida.Air.Cpu.Trace.Channels.{set_memory_channel_values_lem, filled}
use valida.Air.Cpu.Trace.Padding.{Padded, generate_trace_total}
use valida.Air.Cpu.Eval.{
  Position, Active, HoldAt, eval, eval_pc, eval_fp, eval_equality, eval_memory_channels,
  eval_read_1, eval_read_2, eval_write, eval_clock, should_increment_pc, beq_target, bne_target,
  reduce,
}
use valida.Air.Cpu.Eval.Next.{Values}
use valida.Air.Cpu.Eval.Sound.{next_registers_sound}
use valida.Air.Cpu.Eval.Check.{met, active, met-HoldAt}
use valida.Air.Cpu.Eval.Free.{IsLoadStore, load_store_free}

abbrev word_of : ℕ → Word ℕ
word_of n = record { byte_0 = 0; byte_1 = 0; byte_2 = 0; byte_3 = n }

-- 5 is not 4.
abbrev ne_row : Com32Cols ℤ
ne_row = record {
  input_1 = transform pos (word_of 5);
  input_2 = transform pos (word_of 4);
  diff = pos 1;
  diff_inv = pos 1;
  not_equal = pos 1;
  output = pos 1;
  is_ne = pos 1;
  is_eq = pos 0;
}

ne_row-AllZero : AllZero integers (Com.eval integers ne_row)
unfolding AllZero Com.eval Com.flag_constraints Com.output_constraint equality_constraints
    sum_squares integers transform
ne_row-AllZero = (refl, (refl, (refl, (refl, (refl, (refl, (refl, (refl, tt))))))))

output_example : pos 1 ≡ ComRows.flag_of integers (ne (word_of 5) (word_of 4))
unfolding integers Com.op_to_row
output_example =
    ComRows.output_sound integers (ne32 (word_of 1) (word_of 5) (word_of 4)) ne_row (word_of 5)
      (word_of 4) (omega arith) (omega arith) (refl, refl) refl refl refl refl ne_row-AllZero

equality_rows_example :
    AllZero integers
      (Com.eval integers (Com.op_to_row integers (ne32 (word_of 1) (word_of 5) (word_of 4))))
    × ¬ AllZero integers
        (Com.eval integers (Com.op_to_row integers (Alu.eq32 (word_of 1) (word_of 5) (word_of 4))))
equality_rows_example = ComRows.rows-AllZero integers (word_of 1) (word_of 5) (word_of 4)

-- The integer 1 is its own inverse.
abbrev same_values : List ℤ → List ℤ
same_values xs = xs

batch_example :
    (inverses : List ℤ) × (batch_multiplicative_inverse_allowing_zero integers same_values
        (pos 1 ∷ pos 0 ∷ pos 1 ∷ [])
      ≡ ok inverses)
    × AreInversesOrZero integers (pos 1 ∷ pos 0 ∷ pos 1 ∷ []) inverses
unfolding AreInverses nonzero_values integers
batch_example =
    batch-AreInversesOrZero integers same_values (pos 1 ∷ pos 0 ∷ pos 1 ∷ []) (refl, (refl, tt))

-- A cycle that reads 5 and 4 and writes 9.
abbrev mem : MemoryChip
mem = record {
  cells = [];
  operations = (0, read 96 (word_of 5) ∷ read 92 (word_of 4) ∷ write 88 (word_of 9) ∷ []) ∷ [];
  static_data = [];
}

abbrev ops : Operands
ops = record { a = 88; b = 96; c = 92; d = 0; e = 0 }

abbrev chip : CpuChip
chip = record {
  clock = 2;
  pc = 1;
  fp = 0;
  registers = record { pc = 0; fp = 0 } ∷ record { pc = 1; fp = 0 } ∷ [];
  operations = bus none ∷ stop ∷ [];
  instructions =
      record { opcode = code Opcode.add32; operands = ops }
      ∷ record { opcode = code Opcode.stop; operands = record ops { a = 0; b = 0; c = 0 } }
      ∷ [];
}

channels_example :
    set_memory_channel_values integers 0 mem (zero_row integers) ≡ record (zero_row integers) {
      mem_channel_0 =
          filled integers
            (some (96, word_of 5))
            (record (zero_channel integers) { is_read = integers.field_one });
      mem_channel_1 =
          filled integers
            (some (92, word_of 4))
            (record (zero_channel integers) { is_read = integers.field_one });
      mem_channel_2 = filled integers (some (88, word_of 9)) (zero_channel integers);
    }
unfolding get
channels_example = set_memory_channel_values_lem integers 0 mem (zero_row integers)

rows_of : {A : Type 0} → Outcome (List A) → List A
rows_of (ok rows) = rows
rows_of (panic e) = []

inverses_of :
    (rows : List (CpuCols ℤ))
    → rows_from integers chip mem 0 chip.operations ≡ ok rows
    → AreInverses integers
        (nonzero_values integers (map (word_diff integers) rows))
        (same_values (nonzero_values integers (map (word_diff integers) rows)))
unfolding rows_of rows_from op_to_row set_instruction_values set_memory_channel_values fill_channels
    set_imm_value get AreInverses nonzero_values sum_squares integers transform
inverses_of rows e =
    subst
      (λ rows.
        AreInverses integers (nonzero_values integers (map (word_diff integers) rows))
          (same_values (nonzero_values integers (map (word_diff integers) rows))))
      (ap rows_of e) (refl, tt)

trace_example : Padded integers 2 (generate_trace integers same_values chip mem)
trace_example =
    generate_trace_total integers same_values chip mem (omega arith) (omega arith) (omega arith)
      (omega arith) inverses_of

abbrev channel : ℤ → ℕ → Word ℕ → MemoryChannelCols ℤ
channel is_read addr value = record {
  used = pos 1;
  is_read = is_read;
  addr = pos addr;
  value = transform pos value;
}

-- `jal` at 1 with fp 100: to 2, with fp 108.
abbrev jal_row : CpuCols ℤ
jal_row = record (zero_row integers) {
  pc = pos 1;
  fp = pos 100;
  instruction = record {
    opcode = pos 3;
    operands = record { a = pos 4; b = pos 48; c = pos 8; d = pos 0; e = pos 0 };
  };
  opcode_flags = flags_of integers jal;
  mem_channel_0 = record (zero_channel integers) { is_read = pos 1 };
  mem_channel_1 = record (zero_channel integers) { is_read = pos 1 };
  mem_channel_2 = channel (pos 0) 104 (word_of 48);
}

abbrev jal_next : CpuCols ℤ
jal_next = record (zero_row integers) { clk = pos 1; pc = pos 2; fp = pos 108 }

abbrev first_of_many : Position
first_of_many = record { is_first = true; is_last = false }

jal_values : Values integers jal_row
unfolding integers transform into_u32
jal_values = record {
  pc = 1;
  a = 4;
  b = 48;
  read_1 = word_of 0;
  read_2 = word_of 0;
  small_pc = omega arith;
  small_a = omega arith;
  small_b = omega arith;
  small_1 = omega arith;
  fits_1 = omega arith;
  fits_2 = omega arith;
  same_pc = refl;
  same_a = refl;
  same_b = refl;
  same_1 = refl;
  same_2 = refl;
}

jal_row-HoldAt : HoldAt integers first_of_many (eval integers jal_row jal_next)
unfolding met active HoldAt eval eval_pc eval_fp eval_equality eval_memory_channels eval_read_1
    eval_read_2 eval_write eval_clock should_increment_pc beq_target bne_target reduce Active
    equality_constraints sum_squares integers transform
jal_row-HoldAt = met-HoldAt integers first_of_many (eval integers jal_row jal_next) refl

next_registers_example : (24 * 2 ≡ 48) × (pos 108 ≡ pos 108)
unfolding integers jal_values
next_registers_example =
    next_registers_sound integers jal jal_row jal_next jal_values 2 48 first_of_many (omega arith)
      refl refl refl jal_row-HoldAt refl

-- `lw` of the word at 92, whose address is at fp + 8.
abbrev load_row : CpuCols ℤ
load_row = record (zero_row integers) {
  pc = pos 1;
  fp = pos 100;
  instruction = record {
    opcode = pos 1;
    operands = record { a = pos 4; b = pos 0; c = pos 8; d = pos 0; e = pos 0 };
  };
  opcode_flags = flags_of integers load32;
  diff = pos 1;
  diff_inv = pos 1;
  not_equal = pos 1;
  mem_channel_0 = channel (pos 1) 108 (word_of 92);
  mem_channel_1 = channel (pos 1) 92 (word_of 91);
  mem_channel_2 = channel (pos 0) 104 (word_of 91);
}

abbrev load_next : CpuCols ℤ
load_next = record (zero_row integers) { clk = pos 1; pc = pos 2; fp = pos 100 }

load_row-HoldAt : HoldAt integers first_of_many (eval integers load_row load_next)
unfolding met active HoldAt eval eval_pc eval_fp eval_equality eval_memory_channels eval_read_1
    eval_read_2 eval_write eval_clock should_increment_pc beq_target bne_target reduce Active
    equality_constraints sum_squares integers transform
load_row-HoldAt = met-HoldAt integers first_of_many (eval integers load_row load_next) refl

load_free_example :
    HoldAt integers first_of_many (eval integers load_row (record load_next { pc = pos 7 }))
load_free_example =
    load_store_free integers load32 load_row load_next first_of_many (pos 7) IsLoadStore.is_load32
      refl load_row-HoldAt
