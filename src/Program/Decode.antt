-- ===== src/Program/Decode.antt =====
-- `ProgramROM::from_machine_code` reads back what the assembler writes
-- (assembler/src/lib.rs: the opcode and the operands, little-endian).
use valida.Prelude.{ℕ, zero, suc, ◌+◌, ◌/◌, ◌%◌, ◌^◌, ◌<◌, ◌≤◌, ◌≡◌, refl, ap, arith, ◌∙◌}
use valida.Prelude.{List, [], ◌∷◌, ◌++◌, Option, none, some, length, All, length-append}
use valida.Program.{InstructionWord, IsInstruction, ProgramRom}
use valida.Program.{◌▹◌, read_u32, read_chunk, read_chunks, from_machine_code}
use mathlib.Core.List.{append_assoc}

-- `write_u32::<LittleEndian>`
unfoldable pub write_u32 : ℕ → List ℕ
write_u32 v = (v % 2 ^ 8) ∷ (v / 2 ^ 8 % 2 ^ 8) ∷ (v / 2 ^ 16 % 2 ^ 8) ∷ (v / 2 ^ 24 % 2 ^ 8) ∷ []

unfoldable pub write_instruction : InstructionWord → List ℕ
write_instruction w =
    write_u32 w.opcode
    ++ (write_u32 w.operands.a
        ++ (write_u32 w.operands.b
            ++ (write_u32 w.operands.c ++ (write_u32 w.operands.d ++ write_u32 w.operands.e))))

unfoldable pub write_program : ProgramRom → List ℕ
write_program [] = []
write_program (w ∷ ws) = write_instruction w ++ write_program ws

read_u32-write_u32 :
    (v : ℕ) (rest : List ℕ) → v < 2 ^ 32 → read_u32 (write_u32 v ++ rest) ≡ some (v, rest)
unfolding read_u32 write_u32
read_u32-write_u32 v rest h = ap (λ x. some (x, rest)) (omega arith)

read-write :
    {B : Type 0} (v : ℕ) (rest : List ℕ) (f : ℕ → List ℕ → Option B)
    → v < 2 ^ 32
    → (read_u32 (write_u32 v ++ rest) ▹ f) ≡ f v rest
unfolding ◌▹◌
read-write v rest f h = rw (read_u32-write_u32 v rest h, ◌▹◌)

read_chunk-write_instruction :
    (w : InstructionWord) (rest : List ℕ)
    → IsInstruction w
    → read_chunk (write_instruction w ++ rest) ≡ some (w, rest)
unfolding read_chunk write_instruction
read_chunk-write_instruction w rest h = simp append_assoc (
    read-write _ _ _ h.fits_opcode
    ∙ read-write _ _ _ h.fits_operands.fits_a
    ∙ read-write _ _ _ h.fits_operands.fits_b
    ∙ read-write _ _ _ h.fits_operands.fits_c
    ∙ read-write _ _ _ h.fits_operands.fits_d
    ∙ read-write _ _ _ h.fits_operands.fits_e)

read-short :
    {B : Type 0} (k : ℕ) (bytes : List ℕ) (f : ℕ → List ℕ → Option B)
    → length bytes < k + 4
    → ((v : ℕ) (rest : List ℕ) → length rest < k → f v rest ≡ none)
    → (read_u32 bytes ▹ f) ≡ none
unfolding read_u32 ◌▹◌
read-short k (p ∷ q ∷ r ∷ s ∷ rest) f h later = later _ rest (omega arith)
read-short k _ f h later = refl

read_chunk-short : (bytes : List ℕ) → length bytes < 24 → read_chunk bytes ≡ none
unfolding read_chunk
read_chunk-short bytes h = read-short 20 bytes _ h λ v r0 h0. read-short 16 r0 _ h0 λ v r1 h1.
    read-short 12 r1 _ h1 λ v r2 h2.
      read-short 8 r2 _ h2
        λ v r3 h3. read-short 4 r3 _ h3 λ v r4 h4. read-short 0 r4 _ h4 λ v r5 h5. elim h5 [ ]

read_chunks-write_program :
    (fuel : ℕ) (rom : ProgramRom) (rest : List ℕ)
    → All IsInstruction rom
    → length rest < 24
    → length rom ≤ fuel
    → read_chunks fuel (write_program rom ++ rest) ≡ rom
unfolding read_chunks write_program
read_chunks-write_program zero [] rest h k f = refl
read_chunks-write_program zero (w ∷ ws) rest h k f = elim f [ ]
read_chunks-write_program (suc fuel) [] rest h k f = rw (read_chunk-short rest k, read_chunks)
read_chunks-write_program (suc fuel) (w ∷ ws) rest h k f = simp append_assoc (
    rw (read_chunk-write_instruction w (write_program ws ++ rest) h.0, read_chunks)
      (ap (λ t. w ∷ t) (read_chunks-write_program fuel ws rest h.1 k (omega arith))))

length-write_program : (rom : ProgramRom) → length rom ≤ length (write_program rom)
unfolding write_program write_instruction write_u32
length-write_program [] = omega arith
length-write_program (w ∷ ws) = omega (arith, length-write_program ws)

-- Decoding the bytes that the assembler writes for a program of 32-bit opcodes and operands,
-- followed by fewer than 24 other bytes, gives the program back.
pub from_machine_code-write_program :
    (rom : ProgramRom) (rest : List ℕ)
    → All IsInstruction rom
    → length rest < 24
    → from_machine_code (write_program rom ++ rest) ≡ rom
unfolding from_machine_code
from_machine_code-write_program rom rest h k =
    read_chunks-write_program _ rom rest h k
      (omega (arith, length-write_program rom, length-append (write_program rom) rest))
