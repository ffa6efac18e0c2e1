-- ===== src/Opcode.antt =====
-- opcodes/src/lib.rs: the instruction codes.
pub mod Codes
use valida.Prelude.{ℕ, Option, none, some, ◌==◌, if◌then◌else◌}

abbrev pub bytes_per_instr : ℕ
bytes_per_instr = 24

pub data Opcode : Type 0 where
  load32 store32 jal jalv beq bne imm32 stop read_advice loadfp loadu8 loads8 storeu8 : Opcode
  add32 sub32 mul32 div32 sdiv32 lt32 shl32 shr32 and32 or32 xor32 ne32 mulhu32 sra32 : Opcode
  mulhs32 lte32 eq32 add sub mul write : Opcode

-- The discriminant, `Opcode::X as u32`.
unfoldable pub code : Opcode → ℕ
code load32 = 1
code store32 = 2
code jal = 3
code jalv = 4
code beq = 5
code bne = 6
code imm32 = 7
code stop = 8
code read_advice = 9
code loadfp = 10
code loadu8 = 11
code loads8 = 12
code storeu8 = 13
code add32 = 100
code sub32 = 101
code mul32 = 102
code div32 = 103
code sdiv32 = 110
code lt32 = 104
code shl32 = 105
code shr32 = 106
code and32 = 107
code or32 = 108
code xor32 = 109
code ne32 = 111
code mulhu32 = 112
code sra32 = 113
code mulhs32 = 114
code lte32 = 115
code eq32 = 116
code add = 200
code sub = 201
code mul = 202
code write = 300

core_of : ℕ → Option Opcode
core_of n =
    if n == 1
    then some load32
    else if n == 2
    then some store32
    else if n == 3
    then some jal
    else if n == 4
    then some jalv
    else if n == 5
    then some beq
    else if n == 6
    then some bne
    else if n == 7
    then some imm32
    else if n == 8
    then some stop
    else if n == 9
    then some read_advice
    else if n == 10
    then some loadfp
    else if n == 11
    then some loadu8
    else if n == 12
    then some loads8
    else if n == 13
    then some storeu8
    else none

alu_of : ℕ → Option Opcode
alu_of n =
    if n == 100
    then some add32
    else if n == 101
    then some sub32
    else if n == 102
    then some mul32
    else if n == 103
    then some div32
    else if n == 104
    then some lt32
    else if n == 105
    then some shl32
    else if n == 106
    then some shr32
    else if n == 107
    then some and32
    else if n == 108
    then some or32
    else if n == 109
    then some xor32
    else if n == 110
    then some sdiv32
    else if n == 111
    then some ne32
    else if n == 112
    then some mulhu32
    else if n == 113
    then some sra32
    else if n == 114
    then some mulhs32
    else if n == 115
    then some lte32
    else if n == 116
    then some eq32
    else none

other_of : ℕ → Option Opcode
other_of n =
    if n == 200
    then some add
    else if n == 201
    then some sub
    else if n == 202
    then some mul
    else if n == 300
    then some write
    else none

or_else : Option Opcode → Option Opcode → Option Opcode
or_else (some op) rest = some op
or_else none rest = rest

-- `Opcode::try_from`, which `TryFromPrimitive` derives.
unfoldable pub try_from : ℕ → Option Opcode
unfolding core_of alu_of other_of or_else
try_from n = or_else (core_of n) (or_else (alu_of n) (other_of n))
