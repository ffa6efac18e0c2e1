-- ===== src/Isa/Ops.antt =====
-- The instructions of the specification.
use valida.Prelude.{
  ℕ, ◌+◌, ◌-◌, ◌*◌, ◌/◌, ◌%◌, ◌^◌, bit_and, bit_or, bit_xor, Option, none, some, ltb, leb, ◌==◌,
  ◌&&◌, if◌then◌else◌, not, Bool,
}
use valida.Prelude.Int.{as_i32, as_u32, ◌/ℤ◌, ◌>>ℤ◌}
use valida.Opcode.{Opcode}
use valida.Program.{Operands}
use valida.Isa.{
  Isa, ◌>>=◌, ◌>>◌, lift, ret, get_regs, load, load_or_zero, store, jump, move_frame, emit,
  advance_pc, done,
}

abbrev pub at : ℕ → ℕ → ℕ
at fp x = (fp + x) % 2 ^ 32

abbrev pub next : ℕ → ℕ
next pc = (pc + 1) % 2 ^ 32

abbrev pub aligned : ℕ → ℕ
aligned addr = addr - addr % 4

-- The weight of byte `i` of a word, counted from the most significant.
abbrev pub weight : ℕ → ℕ
weight i = 2 ^ (8 * (3 - i))

abbrev pub byte_of : ℕ → ℕ → ℕ
byte_of v i = v / weight i % 2 ^ 8

abbrev pub with_byte : ℕ → ℕ → ℕ → ℕ
with_byte v i byte = v - byte_of v i * weight i + byte * weight i

unfoldable pub read_advice : Option ℕ → Operands → Isa (Unit {0})
read_advice advice ops = do
  r ← get_regs
  store (at r.fp ops.a) (elim advice [ some byte ↦ byte | none ↦ 2 ^ 32 - 1 ])
  advance_pc

unfoldable pub load32 : Operands → Isa (Unit {0})
load32 ops = do
  r ← get_regs
  addr ← load (at r.fp ops.c)
  v ← load addr
  store (at r.fp ops.a) v
  advance_pc

-- The byte becomes the most significant of the word.
unfoldable pub load_byte : (ℕ → ℕ) → Operands → Isa (Unit {0})
load_byte extend ops = do
  r ← get_regs
  addr ← load (at r.fp ops.c)
  v ← load (aligned addr)
  store (aligned (at r.fp ops.a)) (extend (byte_of v (addr % 4)))
  advance_pc

unfoldable pub zero_extend : ℕ → ℕ
zero_extend byte = byte * 2 ^ 24

unfoldable pub sign_extend : ℕ → ℕ
sign_extend byte = byte * 2 ^ 24 + (if ltb byte 128 then 0 else 2 ^ 24 - 1)

unfoldable pub loadu8 : Operands → Isa (Unit {0})
unfolding load_byte
loadu8 = load_byte zero_extend

unfoldable pub loads8 : Operands → Isa (Unit {0})
unfolding load_byte
loads8 = load_byte sign_extend

unfoldable pub store32 : Operands → Isa (Unit {0})
store32 ops = do
  r ← get_regs
  addr ← load (at r.fp ops.b)
  v ← load (at r.fp ops.c)
  store addr v
  advance_pc

unfoldable pub storeu8 : Operands → Isa (Unit {0})
storeu8 ops = do
  r ← get_regs
  let from = at r.fp ops.c
  addr ← load (at r.fp ops.b)
  v ← load (aligned from)
  old ← load_or_zero (aligned addr)
  store (aligned addr) (with_byte old (addr % 4) (byte_of v (from % 4)))
  advance_pc

unfoldable pub return_address : ℕ → ℕ
return_address pc = 24 * next pc % 2 ^ 32

unfoldable pub jal : Operands → Isa (Unit {0})
unfolding return_address
jal ops = do
  r ← get_regs
  store (at r.fp ops.a) (return_address r.pc)
  jump (ops.b / 24)
  move_frame (at r.fp ops.c)
  done

unfoldable pub jalv : Operands → Isa (Unit {0})
unfolding return_address
jalv ops = do
  r ← get_regs
  store (at r.fp ops.a) (return_address r.pc)
  target ← load (at r.fp ops.b)
  jump (target / 24)
  offset ← load (at r.fp ops.c)
  move_frame (at r.fp offset)
  done

-- The second operand, immediate where `e` is 1.
unfoldable pub second_operand : ℕ → Operands → Isa ℕ
second_operand fp ops = if ops.e == 1 then ret ops.c else load (at fp ops.c)

-- The first operand of an order comparison, immediate where `d` is 1.
unfoldable pub first_operand : ℕ → Operands → Isa ℕ
first_operand fp ops = if ops.d == 1 then ret ops.b else load (at fp ops.b)

unfoldable pub branch : (ℕ → ℕ → Bool) → Operands → Isa (Unit {0})
branch taken ops = do
  r ← get_regs
  x ← load (at r.fp ops.b)
  y ← second_operand r.fp ops
  jump (if taken x y then ops.a / 24 else next r.pc)
  done

unfoldable pub beq : Operands → Isa (Unit {0})
unfolding branch
beq = branch (λ x y. x == y)

unfoldable pub bne : Operands → Isa (Unit {0})
unfolding branch
bne = branch (λ x y. not (x == y))

unfoldable pub imm32 : Operands → Isa (Unit {0})
imm32 ops = do
  r ← get_regs
  store (at r.fp ops.a)
      (ops.b % 2 ^ 8 * 2 ^ 24 + ops.c % 2 ^ 8 * 2 ^ 16 + ops.d % 2 ^ 8 * 2 ^ 8 + ops.e % 2 ^ 8)
  advance_pc

unfoldable pub stop : Isa (Unit {0})
stop = done

unfoldable pub loadfp : Operands → Isa (Unit {0})
loadfp ops = do r ← get_regs; store (at r.fp ops.a) (at r.fp ops.b); advance_pc

-- An arithmetic instruction; `f` may fault.
unfoldable pub alu : (ℕ → ℕ → Option ℕ) → Operands → Isa (Unit {0})
alu f ops = do
  r ← get_regs
  x ← load (at r.fp ops.b)
  y ← second_operand r.fp ops
  v ← lift (f x y)
  store (at r.fp ops.a) v
  advance_pc

unfoldable pub compare_op : (ℕ → ℕ → Bool) → Operands → Isa (Unit {0})
compare_op test ops = do
  r ← get_regs
  x ← first_operand r.fp ops
  y ← second_operand r.fp ops
  store (at r.fp ops.a) (if test x y then 1 else 0)
  advance_pc

-- The last byte of a word, with the operands `c` and `e` as the code demands them.
unfoldable pub write_output : Operands → Isa (Unit {0})
write_output ops = do
  r ← get_regs
  x ← load (at r.fp ops.b)
  emit (x % 2 ^ 8)
  advance_pc
  lift (if ops.e == 1 then some tt else none)
  lift (if ops.c == 0 then some tt else none)

abbrev pub sdiv : ℕ → ℕ → Option ℕ
sdiv x y =
    if y == 0
    then none
    else if x == 2 ^ 31 && y == 2 ^ 32 - 1
    then none
    else some (as_u32 (◌/ℤ◌ (as_i32 x) (as_i32 y)))

-- `mulhs32` is the unsigned product here, as it is in the code.
unfoldable pub perform : Opcode → Operands → Isa (Unit {0})
perform Opcode.load32 = load32
perform Opcode.loadu8 = loadu8
perform Opcode.loads8 = loads8
perform Opcode.store32 = store32
perform Opcode.storeu8 = storeu8
perform Opcode.jal = jal
perform Opcode.jalv = jalv
perform Opcode.beq = beq
perform Opcode.bne = bne
perform Opcode.imm32 = imm32
perform Opcode.stop = λ ops. stop
perform Opcode.loadfp = loadfp
perform Opcode.add32 = alu (λ x y. some ((x + y) % 2 ^ 32))
perform Opcode.sub32 = alu (λ x y. some ((x + 2 ^ 32 - y) % 2 ^ 32))
perform Opcode.mul32 = alu (λ x y. some (x * y % 2 ^ 32))
perform Opcode.mulhs32 = alu (λ x y. some (x * y / 2 ^ 32))
perform Opcode.mulhu32 = alu (λ x y. some (x * y / 2 ^ 32))
perform Opcode.div32 = alu (λ x y. if y == 0 then none else some (x / y))
perform Opcode.sdiv32 = alu sdiv
perform Opcode.shl32 = alu (λ x y. some (x * 2 ^ (y % 32) % 2 ^ 32))
perform Opcode.shr32 = alu (λ x y. some (x / 2 ^ (y % 32)))
perform Opcode.sra32 = alu (λ x y. some (as_u32 (◌>>ℤ◌ (as_i32 x) (y % 32))))
perform Opcode.lt32 = compare_op ltb
perform Opcode.lte32 = compare_op leb
perform Opcode.and32 = alu (λ x y. some (bit_and x y))
perform Opcode.or32 = alu (λ x y. some (bit_or x y))
perform Opcode.xor32 = alu (λ x y. some (bit_xor x y))
perform Opcode.ne32 = alu (λ x y. some (if not (x == y) then 1 else 0))
perform Opcode.eq32 = alu (λ x y. some (if x == y then 1 else 0))
perform Opcode.write = write_output
perform Opcode.read_advice = λ ops. lift none
perform Opcode.add = λ ops. lift none
perform Opcode.sub = λ ops. lift none
perform Opcode.mul = λ ops. lift none
