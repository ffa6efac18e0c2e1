-- ===== src/Assembler/Encode.antt =====
-- assembler/src/lib.rs: the machine code is the program of the assembled instructions.
use Prim.Native.String.{String}
use valida.Prelude.{
  ℕ, suc, ◌^◌, ◌<◌, ◌≡◌, ok-injective, or_panic-some, bind_inv, ◌∙◌, refl, sym, ap, arith, List, [],
  ◌∷◌, ◌++◌, some, ok, or_panic, All, length,
}
use mathlib.Core.List.{append-nil}
use mathlib.Core.Path.{ap₂, subst}
use valida.Opcode.{Opcode, code}
use valida.Program.{Operands, InstructionWord, IsInstruction, ProgramRom, from_machine_code}
use valida.Program.Decode.{
  write_u32, write_instruction, write_program, from_machine_code-write_program,
}
use valida.Assembler.Tables.{Shape, opcode_of, shape_of}
use valida.Assembler.Layout.{takes, layout, listed, laid_out}
use valida.Assembler.{
  Labels, Inner, whitespace, operand, Pair, label, instruction, other, first_pass, resolve,
  resolve_all, insert_zeros, write_operands, assemble_instruction, second_pass, assemble,
}
use valida.Assembler.Fits.{LabelsFit, first_pass-fits, resolve_all-Fits}

-- The instruction word of a mnemonic and its operands: its opcode, and the operands that are given
-- in their places.
pub record IsEncoded (labels : Labels) (mnemonic : String) (inner : List Inner)
    (w : InstructionWord) : Type 0 where
  pub values : List ℕ
  pub opcode : Opcode
  pub shape : Shape
  pub resolved : resolve_all labels inner ≡ ok values
  pub named : opcode_of mnemonic ≡ some opcode
  pub shaped : shape_of mnemonic ≡ some shape
  pub same_opcode : w.opcode ≡ code opcode
  pub laid : layout shape values ≡ some w.operands

-- The program is that of the instructions, in their order.
unfoldable pub AreEncoded : Labels → List Pair → ProgramRom → Type 0
AreEncoded labels [] [] = Unit
AreEncoded labels [] (w ∷ ws) = ⊥
AreEncoded labels (label text ∷ pairs) ws = AreEncoded labels pairs ws
AreEncoded labels (other ∷ pairs) ws = AreEncoded labels pairs ws
AreEncoded labels (instruction mnemonic inner ∷ pairs) [] = ⊥
AreEncoded labels (instruction mnemonic inner ∷ pairs) (w ∷ ws) =
    IsEncoded labels mnemonic inner w × AreEncoded labels pairs ws

abbrev pub operand_count : List Inner → ℕ
operand_count [] = 0
operand_count (whitespace ∷ inner) = operand_count inner
operand_count (operand text ∷ inner) = suc (operand_count inner)

-- An instruction has as many operands as its mnemonic takes.
unfoldable pub HasOperands : Pair → Type 0
HasOperands (instruction mnemonic inner) =
    (shape : Shape) → shape_of mnemonic ≡ some shape → operand_count inner ≡ takes shape
HasOperands (label text) = Unit
HasOperands other = Unit

length-resolve_all :
    (labels : Labels) (inner : List Inner) (vs : List ℕ)
    → resolve_all labels inner ≡ ok vs
    → length vs ≡ operand_count inner
unfolding resolve_all
length-resolve_all labels [] vs e = rw (sym (ok-injective _ _ e)) refl
length-resolve_all labels (whitespace ∷ inner) vs e = length-resolve_all labels inner vs e
length-resolve_all labels (operand text ∷ inner) vs e =
    let (v, e1, e2) = bind_inv (resolve labels text) _ vs e in
    let (ws, e3, e4) = bind_inv (resolve_all labels inner) _ vs e2 in
    rw (sym (ok-injective _ _ e4)) (ap suc (length-resolve_all labels inner ws e3))

code_small : (op : Opcode) → code op < 2 ^ 32
unfolding code
code_small op = ground arith

record Encoded (labels : Labels) (mnemonic : String) (inner : List Inner) (bytes : List ℕ)
    : Type 0 where
  word : InstructionWord
  encoded : IsEncoded labels mnemonic inner word
  fits : IsInstruction word
  written : bytes ≡ write_instruction word

write_operands-listed :
    (op : ℕ) (ops : Operands)
    → write_u32 op ++ write_operands (listed ops)
      ≡ write_instruction (record { opcode = op; operands = ops })
unfolding write_operands write_instruction write_u32
write_operands-listed op ops = refl

instruction-Encoded :
    (labels : Labels) (mnemonic : String) (inner : List Inner) (bytes : List ℕ)
    → LabelsFit labels
    → HasOperands (instruction mnemonic inner)
    → assemble_instruction labels mnemonic inner ≡ ok bytes
    → Encoded labels mnemonic inner bytes
unfolding assemble_instruction HasOperands
instruction-Encoded labels mnemonic inner bytes fit has e =
    let (vs, e1, r1) = bind_inv (resolve_all labels inner) _ bytes e in
    let (op, e2, r2) = bind_inv (or_panic _ (opcode_of mnemonic)) _ bytes r1 in
    let (shape, e3, r3) = bind_inv (or_panic _ (shape_of mnemonic)) _ bytes r2 in
    let (all, e4, r4) = bind_inv (insert_zeros shape vs) _ bytes r3 in
    let shaped = or_panic-some _ _ shape e3 in
    let l = laid_out shape vs (length-resolve_all labels inner vs e1 ∙ has shape shaped) in
    let same_all : listed l.ops ≡ all = ok-injective _ _ (sym l.inserted ∙ e4) in
    record {
      word = record { opcode = code op; operands = l.ops };
      encoded = record {
        values = vs;
        opcode = op;
        shape = shape;
        resolved = e1;
        named = or_panic-some _ _ op e2;
        shaped = shaped;
        same_opcode = refl;
        laid = l.laid;
      };
      fits = record {
        fits_opcode = code_small op;
        fits_operands = l.fits (resolve_all-Fits labels inner vs fit e1);
      };
      written =
          sym (ok-injective _ _ r4)
          ∙ ap (λ t. write_u32 (code op) ++ write_operands t) (sym same_all)
          ∙ write_operands-listed (code op) l.ops;
    }

record Program (labels : Labels) (pairs : List Pair) (bytes : List ℕ) : Type 0 where
  rom : ProgramRom
  encoded : AreEncoded labels pairs rom
  fits : All IsInstruction rom
  written : bytes ≡ write_program rom

second_pass-Program :
    (labels : Labels) (pairs : List Pair) (bytes : List ℕ)
    → LabelsFit labels
    → All HasOperands pairs
    → second_pass labels pairs ≡ ok bytes
    → Program labels pairs bytes
unfolding second_pass AreEncoded write_program
second_pass-Program labels [] bytes fit has e = record {
  rom = [];
  encoded = tt;
  fits = tt;
  written = sym (ok-injective _ _ e);
}
second_pass-Program labels (label text ∷ pairs) bytes fit has e =
    let p = second_pass-Program labels pairs bytes fit has.1 e in
    record { rom = p.rom; encoded = p.encoded; fits = p.fits; written = p.written }
second_pass-Program labels (other ∷ pairs) bytes fit has e =
    let p = second_pass-Program labels pairs bytes fit has.1 e in
    record { rom = p.rom; encoded = p.encoded; fits = p.fits; written = p.written }
second_pass-Program labels (instruction mnemonic inner ∷ pairs) bytes fit has e =
    let (first, e1, r1) = bind_inv (assemble_instruction labels mnemonic inner) _ bytes e in
    let (rest, e2, r2) = bind_inv (second_pass labels pairs) _ bytes r1 in
    let i = instruction-Encoded labels mnemonic inner first fit has.0 e1 in
    let p = second_pass-Program labels pairs rest fit has.1 e2 in
    record {
      rom = i.word ∷ p.rom;
      encoded = (i.encoded, p.encoded);
      fits = (i.fits, p.fits);
      written = sym (ok-injective _ _ r2) ∙ ap₂ ◌++◌ i.written p.written;
    }

-- Where the assembler returns the bytes of parsed lines whose instructions have as many operands
-- as their mnemonics take, decoding the bytes gives one instruction for each line that is one, in
-- their order: its opcode is that of the mnemonic, and its five operands are those of the line,
-- with labels replaced by the locations of the first pass, in the places of the mnemonic, and the
-- zeros and the flag of an immediate.
pub from_machine_code-assemble :
    (pairs : List Pair) (bytes : List ℕ)
    → All HasOperands pairs
    → assemble pairs ≡ ok bytes
    → AreEncoded (first_pass pairs 0 []) pairs (from_machine_code bytes)
unfolding assemble
from_machine_code-assemble pairs bytes has e =
    let labels = first_pass pairs 0 [] in
    let p = second_pass-Program labels pairs bytes (first_pass-fits pairs 0 [] tt) has e in
    let decoded : from_machine_code bytes ≡ p.rom =
      ap from_machine_code (p.written ∙ sym (append-nil (write_program p.rom)))
      ∙ from_machine_code-write_program p.rom [] p.fits (omega arith) in
    subst (AreEncoded labels pairs) (sym decoded) p.encoded
