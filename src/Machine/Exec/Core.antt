-- ===== src/Machine/Exec/Core.antt =====
-- cpu/src/lib.rs: the core instructions.
use valida.Prelude.{ℕ, ◌+◌, ◌-◌, ◌*◌, ◌/◌, ◌%◌, ◌^◌, Bool, Option, none, some, ◌==◌, if◌then◌else◌}
use valida.Prelude.{ok, or_panic, index_out_of_bounds}
use valida.Word.{
  Word, from_u8, sign_extend_byte, zero_extend_byte, index, update_byte, into_u32, from_u32,
  index_of_byte, addr_of_word,
}
use valida.Word.Ordering.{eq, ne}
use valida.Opcode.{Opcode, code, bytes_per_instr}
use valida.Program.{Operands, is_imm}
use valida.Chips.Cpu.{Operation, increment_pc, push_op}
use valida.Machine.{M, ◌>>=◌, ◌>>◌, lift, get_cpu, offset, read, read_init, write, update_cpu}

-- `cpu_mut().pc += 1` and `push_op`, the end of most instructions.
unfoldable pub advance : Operation → Opcode → Operands → M (Unit {0})
advance op opcode ops = update_cpu increment_pc >> update_cpu (push_op op (code opcode) ops)

unfoldable pub set_pc : ℕ → M (Unit {0})
set_pc pc = update_cpu λ c. record c { pc = pc }

unfoldable pub set_fp : ℕ → M (Unit {0})
set_fp fp = update_cpu λ c. record c { fp = fp }

-- `advice` is what the provider's tape gave.
unfoldable pub read_advice : Option ℕ → Operands → M (Unit {0})
read_advice advice ops = do
  cpu ← get_cpu
  write cpu.clock (offset cpu.fp ops.a)
      (elim advice [ some byte ↦ from_u8 byte | none ↦ from_u32 (2 ^ 32 - 1) ])
  advance Operation.read_advice Opcode.read_advice ops

unfoldable pub load32 : Operands → M (Unit {0})
load32 ops = do
  cpu ← get_cpu
  read_addr_2 ← read cpu.clock (offset cpu.fp ops.c)
  cell ← read cpu.clock (into_u32 read_addr_2)
  write cpu.clock (offset cpu.fp ops.a) cell
  advance Operation.load32 Opcode.load32 ops

-- `loadu8` and `loads8` differ in how the byte becomes a word.
unfoldable pub load_byte : (ℕ → Word ℕ) → Operation → Opcode → Operands → M (Unit {0})
load_byte extend op opcode ops = do
  cpu ← get_cpu
  read_addr ← read cpu.clock (offset cpu.fp ops.c)
  cell ← read cpu.clock (addr_of_word (into_u32 read_addr))
  cell_byte ← lift (or_panic index_out_of_bounds (index cell (index_of_byte (into_u32 read_addr))))
  write cpu.clock (addr_of_word (offset cpu.fp ops.a)) (extend cell_byte)
  advance op opcode ops

unfoldable pub loadu8 : Operands → M (Unit {0})
unfolding load_byte
loadu8 = load_byte zero_extend_byte Operation.loadu8 Opcode.loadu8

unfoldable pub loads8 : Operands → M (Unit {0})
unfolding load_byte
loads8 = load_byte sign_extend_byte Operation.loads8 Opcode.loads8

unfoldable pub store32 : Operands → M (Unit {0})
store32 ops = do
  cpu ← get_cpu
  write_addr ← read cpu.clock (offset cpu.fp ops.b)
  cell ← read cpu.clock (offset cpu.fp ops.c)
  write cpu.clock (into_u32 write_addr) cell
  advance Operation.store32 Opcode.store32 ops

unfoldable pub storeu8 : Operands → M (Unit {0})
storeu8 ops = do
  cpu ← get_cpu
  let read_addr = offset cpu.fp ops.c
  write_addr ← read cpu.clock (offset cpu.fp ops.b)
  cell ← read cpu.clock (addr_of_word read_addr)
  cell_byte ← lift (or_panic index_out_of_bounds (index cell (index_of_byte read_addr)))
  cell_write ← read_init cpu.clock (addr_of_word (into_u32 write_addr))
  cell_to_write ← lift (
      or_panic index_out_of_bounds
        (update_byte cell_write cell_byte (index_of_byte (into_u32 write_addr))))
  write cpu.clock (addr_of_word (into_u32 write_addr)) cell_to_write
  advance Operation.storeu8 Opcode.storeu8 ops

-- The return address, `BYTES_PER_INSTR * next_pc` in `u32`.
abbrev pub return_address : ℕ → ℕ
return_address pc = bytes_per_instr * ((pc + 1) % 2 ^ 32) % 2 ^ 32

unfoldable pub jal : Operands → M (Unit {0})
jal ops = do
  cpu ← get_cpu
  write cpu.clock (offset cpu.fp ops.a) (from_u32 (return_address cpu.pc))
  set_pc (ops.b / bytes_per_instr)
  set_fp (offset cpu.fp ops.c)
  update_cpu (push_op Operation.jal (code Opcode.jal) ops)

unfoldable pub jalv : Operands → M (Unit {0})
jalv ops = do
  cpu ← get_cpu
  write cpu.clock (offset cpu.fp ops.a) (from_u32 (return_address cpu.pc))
  target ← read cpu.clock (offset cpu.fp ops.b)
  set_pc (into_u32 target / bytes_per_instr)
  cell ← read cpu.clock (offset cpu.fp ops.c)
  set_fp (offset cpu.fp (into_u32 cell))
  update_cpu (push_op Operation.jalv (code Opcode.jalv) ops)

-- The second operand of a branch or of an arithmetic instruction: an immediate value, which is
-- returned again for the trace, or the word at `fp + c`.
unfoldable pub second_operand : ℕ → ℕ → Operands → M (Word ℕ × Option (Word ℕ))
second_operand clk fp ops =
    if is_imm ops == 1
    then lift (ok (from_u32 ops.c, some (from_u32 ops.c)))
    else (read clk (offset fp ops.c) >>= λ c. lift (ok (c, none)))

unfoldable pub branch :
    (Word ℕ → Word ℕ → Bool) → (Option (Word ℕ) → Operation) → Opcode → Operands → M (Unit {0})
branch taken op opcode ops = do
  cpu ← get_cpu
  cell_1 ← read cpu.clock (offset cpu.fp ops.b)
  second ← second_operand cpu.clock cpu.fp ops
  set_pc (if taken cell_1 second.0 then ops.a / bytes_per_instr else (cpu.pc + 1) % 2 ^ 32)
  update_cpu (push_op (op second.1) (code opcode) ops)

unfoldable pub beq : Operands → M (Unit {0})
unfolding branch
beq = branch eq Operation.beq Opcode.beq

unfoldable pub bne : Operands → M (Unit {0})
unfolding branch
bne = branch ne Operation.bne Opcode.bne

unfoldable pub imm32 : Operands → M (Unit {0})
imm32 ops = do
  cpu ← get_cpu
  write cpu.clock (offset cpu.fp ops.a) (record {
    byte_0 = ops.b % 2 ^ 8;
    byte_1 = ops.c % 2 ^ 8;
    byte_2 = ops.d % 2 ^ 8;
    byte_3 = ops.e % 2 ^ 8;
  })
  advance Operation.imm32 Opcode.imm32 ops

unfoldable pub stop : Operands → M (Unit {0})
stop ops = update_cpu (push_op Operation.stop (code Opcode.stop) ops)

unfoldable pub loadfp : Operands → M (Unit {0})
loadfp ops = do
  cpu ← get_cpu
  write cpu.clock (offset cpu.fp ops.a) (from_u32 (offset cpu.fp ops.b))
  advance Operation.loadfp Opcode.loadfp ops
