-- ===== src/Assembler/Tables.antt =====
-- assembler/src/lib.rs: the two matches on the mnemonic. Their arms are lists of mnemonics with what
-- each gives; a mnemonic in no arm panics.
use Prim.Native.String.{String}
use text.Mathlib.Text.{◌==◌}
use valida.Prelude.{List, [], ◌∷◌, Option, none, some, Bool, true, false, if◌then◌else◌}
use valida.Opcode.{Opcode}

-- Where zeros are put among the operands.
pub data Shape : Type 0 where
  zero_b zero_a all_given none_given three_given immediate one_given : Shape

any_same : String → List String → Bool
any_same mnemonic [] = false
any_same mnemonic (name ∷ names) =
    let rest = any_same mnemonic names in if name == mnemonic then true else rest

unfoldable pub find_arm {ℓ} : {A : Type ℓ} → String → List (List String × A) → Option A
unfolding any_same
find_arm mnemonic [] = none
find_arm mnemonic ((names, a) ∷ arms) =
    let rest = find_arm mnemonic arms in if any_same mnemonic names then some a else rest

abbrev pub opcode_arms : List (List String × Opcode)
opcode_arms =
    ("lw" ∷ [], Opcode.load32)
    ∷ ("loadu8" ∷ [], Opcode.loadu8)
    ∷ ("loads8" ∷ [], Opcode.loads8)
    ∷ ("sw" ∷ [], Opcode.store32)
    ∷ ("storeu8" ∷ [], Opcode.storeu8)
    ∷ ("jal" ∷ [], Opcode.jal)
    ∷ ("jalv" ∷ [], Opcode.jalv)
    ∷ ("beq" ∷ "beqi" ∷ [], Opcode.beq)
    ∷ ("bne" ∷ "bnei" ∷ [], Opcode.bne)
    ∷ ("imm32" ∷ [], Opcode.imm32)
    ∷ ("stop" ∷ [], Opcode.stop)
    ∷ ("advread" ∷ [], Opcode.read_advice)
    ∷ ("add" ∷ "addi" ∷ [], Opcode.add32)
    ∷ ("sub" ∷ "subi" ∷ [], Opcode.sub32)
    ∷ ("mul" ∷ "muli" ∷ [], Opcode.mul32)
    ∷ ("mulhs" ∷ "mulhsi" ∷ [], Opcode.mulhs32)
    ∷ ("mulhu" ∷ "mulhui" ∷ [], Opcode.mulhu32)
    ∷ ("div" ∷ "divi" ∷ [], Opcode.div32)
    ∷ ("sdiv" ∷ "sdivi" ∷ [], Opcode.sdiv32)
    ∷ ("ilt" ∷ "lt" ∷ "lti" ∷ [], Opcode.lt32)
    ∷ ("ilte" ∷ "lte" ∷ "ltei" ∷ [], Opcode.lte32)
    ∷ ("shl" ∷ "shli" ∷ [], Opcode.shl32)
    ∷ ("shr" ∷ "shri" ∷ [], Opcode.shr32)
    ∷ ("sra" ∷ "srai" ∷ [], Opcode.sra32)
    ∷ ("and" ∷ "andi" ∷ [], Opcode.and32)
    ∷ ("or" ∷ "ori" ∷ [], Opcode.or32)
    ∷ ("xor" ∷ "xori" ∷ [], Opcode.xor32)
    ∷ ("ne" ∷ "nei" ∷ [], Opcode.ne32)
    ∷ ("eq" ∷ "eqi" ∷ [], Opcode.eq32)
    ∷ ("feadd" ∷ [], Opcode.add)
    ∷ ("fesub" ∷ [], Opcode.sub)
    ∷ ("femul" ∷ [], Opcode.mul)
    ∷ ("write" ∷ [], Opcode.write)
    ∷ []

abbrev pub shape_arms : List (List String × Shape)
shape_arms =
    ("lw" ∷ "loadu8" ∷ "loads8" ∷ [], Shape.zero_b)
    ∷ ("sw" ∷ "storeu8" ∷ [], Shape.zero_a)
    ∷ ("imm32" ∷ "write" ∷ [], Shape.all_given)
    ∷ ("stop" ∷ [], Shape.none_given)
    ∷ (
      "add" ∷ "sub" ∷ "mul" ∷ "mulhs" ∷ "mulhu" ∷ "div" ∷ "lt" ∷ "lte" ∷ "shl" ∷ "shr" ∷ "sra"
          ∷ "beq" ∷ "bne" ∷ "and" ∷ "or" ∷ "xor" ∷ "ne" ∷ "eq" ∷ "jal" ∷ "jalv" ∷ [],
      Shape.three_given,
    )
    ∷ (
      "addi" ∷ "subi" ∷ "muli" ∷ "mulhsi" ∷ "mulhui" ∷ "divi" ∷ "sdivi" ∷ "lti" ∷ "ltei" ∷ "shli"
          ∷ "shri" ∷ "srai" ∷ "beqi" ∷ "bnei" ∷ "andi" ∷ "ori" ∷ "xori" ∷ "nei" ∷ "eqi" ∷ [],
      Shape.immediate,
    )
    ∷ ("ilt" ∷ "ilte" ∷ [], Shape.immediate)
    ∷ ("advread" ∷ [], Shape.one_given)
    ∷ []

unfoldable pub opcode_of : String → Option Opcode
unfolding find_arm
opcode_of mnemonic = find_arm mnemonic opcode_arms

unfoldable pub shape_of : String → Option Shape
unfolding find_arm
shape_of mnemonic = find_arm mnemonic shape_arms
