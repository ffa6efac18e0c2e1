-- ===== src/Assembler/Examples.antt =====
-- An example of the assembler: `loop:`, `addi 4(fp), 4(fp), -3`, `bne loop, 4(fp), 0(fp)`, `stop`.
use valida.Prelude.{ℕ, ◌≡◌, refl, ap, List, [], ◌∷◌, ok, panic, some, All, unknown_mnemonic}
use valida.Program.{from_machine_code}
use valida.Program.Decode.{write_u32}
use valida.Assembler.{
  Text, whitespace, operand, Pair, label, instruction, other, first_pass, assemble, second_pass,
  assemble_instruction, resolve_all, resolve, insert_zeros, write_operands, label_name, trim_start,
  trim_end, get_label, drop_fp, ends_with_fp, digits, in_range, signed_digits, parse_i32,
}
use valida.Assembler.Tables.{opcode_of, shape_of, find_arm, Shape}
use valida.Assembler.Encode.{AreEncoded, HasOperands, from_machine_code-assemble}
use valida.Assembler.Layout.{takes}
use valida.Opcode.{code}

abbrev fp : ℕ → Text
fp c = c ∷ b'(' ∷ b'f' ∷ b'p' ∷ b')' ∷ []

abbrev loop : Text
loop = b'l' ∷ b'o' ∷ b'o' ∷ b'p' ∷ []

abbrev pairs : List Pair
pairs =
    label (b'l' ∷ b'o' ∷ b'o' ∷ b'p' ∷ b':' ∷ 10 ∷ [])
    ∷ instruction "addi"
        (operand (fp b'4') ∷ whitespace ∷ operand (fp b'4') ∷ operand (b'-' ∷ b'3' ∷ []) ∷ [])
    ∷ other
    ∷ instruction "bne" (operand loop ∷ operand (fp b'4') ∷ operand (fp b'0') ∷ [])
    ∷ instruction "stop" []
    ∷ []

abbrev machine_code : List ℕ
machine_code =
    100 ∷ 0 ∷ 0 ∷ 0 ∷ 4 ∷ 0 ∷ 0 ∷ 0 ∷ 4 ∷ 0 ∷ 0 ∷ 0 ∷ 253 ∷ 255 ∷ 255 ∷ 255 ∷ 0 ∷ 0 ∷ 0 ∷ 0 ∷ 1 ∷ 0
    ∷ 0 ∷ 0 ∷ 6 ∷ 0 ∷ 0 ∷ 0 ∷ 0 ∷ 0 ∷ 0 ∷ 0 ∷ 4 ∷ 0 ∷ 0 ∷ 0 ∷ 0 ∷ 0 ∷ 0 ∷ 0 ∷ 0 ∷ 0 ∷ 0 ∷ 0 ∷ 0 ∷ 0
    ∷ 0 ∷ 0 ∷ 8 ∷ 0 ∷ 0 ∷ 0 ∷ 0 ∷ 0 ∷ 0 ∷ 0 ∷ 0 ∷ 0 ∷ 0 ∷ 0 ∷ 0 ∷ 0 ∷ 0 ∷ 0 ∷ 0 ∷ 0 ∷ 0 ∷ 0 ∷ 0 ∷ 0
    ∷ 0 ∷ 0 ∷ []

assembled : assemble pairs ≡ ok machine_code
unfolding assemble first_pass second_pass assemble_instruction resolve_all resolve insert_zeros
    write_operands label_name trim_start trim_end get_label drop_fp ends_with_fp digits in_range
    signed_digits parse_i32 opcode_of shape_of find_arm write_u32 code
assembled = refl

-- `sdiv` has an opcode, and no arm for its operands.
sdiv_panics : assemble (instruction "sdiv" [] ∷ []) ≡ panic unknown_mnemonic
unfolding assemble first_pass second_pass assemble_instruction resolve_all opcode_of shape_of
    find_arm
sdiv_panics = refl

taken : (s t : Shape) → some s ≡ some t → takes s ≡ takes t
taken s t e = ap takes (cc e)

takes_right : All HasOperands pairs
unfolding HasOperands shape_of find_arm
takes_right = (tt, (λ s e. taken _ s e, (tt, (λ s e. taken _ s e, (λ s e. taken _ s e, tt)))))

-- The branch goes to 0, the location of `loop`.
assemble_example : AreEncoded (first_pass pairs 0 []) pairs (from_machine_code machine_code)
assemble_example = from_machine_code-assemble pairs machine_code takes_right assembled
