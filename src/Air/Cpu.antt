-- ===== src/Air/Cpu.antt =====
-- cpu/src/columns.rs: the columns of the CPU chip.
pub mod Trace
pub mod Eval
use valida.Prelude.{ℕ}
use valida.Word.{Word}

-- `Operands<T>` of field elements
pub record OperandCols (F : Type 0) : Type 0 where
  pub a : F
  pub b : F
  pub c : F
  pub d : F
  pub e : F

pub record InstructionCols (F : Type 0) : Type 0 where
  pub opcode : F
  pub operands : OperandCols F

pub record OpcodeFlagCols (F : Type 0) : Type 0 where
  pub is_bus_op : F
  pub is_bus_op_with_mem : F
  pub is_imm_op : F
  pub is_load : F
  pub is_load_u8 : F
  pub is_load_s8 : F
  pub is_store : F
  pub is_store_u8 : F
  pub is_beq : F
  pub is_bne : F
  pub is_jal : F
  pub is_jalv : F
  pub is_imm32 : F
  pub is_advice : F
  pub is_stop : F
  pub is_loadfp : F

pub record MemoryChannelCols (F : Type 0) : Type 0 where
  pub used : F
  pub is_read : F
  pub addr : F
  pub value : Word F

-- `mem_channels` has three elements: `mem_channel_0` and `mem_channel_1` are for reads,
-- `mem_channel_2` is for the write.
pub record CpuCols (F : Type 0) : Type 0 where
  pub clk : F
  pub pc : F
  pub fp : F
  pub instruction : InstructionCols F
  pub opcode_flags : OpcodeFlagCols F
  pub diff : F
  pub diff_inv : F
  pub not_equal : F
  pub mem_channel_0 : MemoryChannelCols F
  pub mem_channel_1 : MemoryChannelCols F
  pub mem_channel_2 : MemoryChannelCols F
  pub clk_or_zero : F

module _ {F : Type 0} where
  abbrev pub read_addr_1 : CpuCols F → F
  read_addr_1 r = r.mem_channel_0.addr

  abbrev pub read_addr_2 : CpuCols F → F
  read_addr_2 r = r.mem_channel_1.addr

  abbrev pub write_addr : CpuCols F → F
  write_addr r = r.mem_channel_2.addr

  abbrev pub read_value_1 : CpuCols F → Word F
  read_value_1 r = r.mem_channel_0.value

  abbrev pub read_value_2 : CpuCols F → Word F
  read_value_2 r = r.mem_channel_1.value

  abbrev pub write_value : CpuCols F → Word F
  write_value r = r.mem_channel_2.value

  abbrev pub read_1_used : CpuCols F → F
  read_1_used r = r.mem_channel_0.used

  abbrev pub read_2_used : CpuCols F → F
  read_2_used r = r.mem_channel_1.used

  abbrev pub write_used : CpuCols F → F
  write_used r = r.mem_channel_2.used
