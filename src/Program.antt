-- ===== src/Program.antt =====
-- machine/src/program.rs: operands, instruction words, the program ROM and its decoding; and
-- program/src/lib.rs: the program chip. An `i32` operand is its bit pattern below 2 ^ 32.
pub mod Decode
pub mod Counts
use valida.Prelude.{ℕ, zero, suc, ◌+◌, ◌*◌, ◌%◌, ◌^◌, ◌<◌, List, [], ◌∷◌, Option, none, some}
use valida.Prelude.{length, get_elem?, set, replicate, All, Outcome, ok, panic, index_out_of_bounds}
use valida.Prelude.{assertion_failed, or_panic, ltb, if◌then◌else◌, ◌>>=◌}
use valida.Word.{Word}

pub record Operands : Type 0 where
  pub a : ℕ
  pub b : ℕ
  pub c : ℕ
  pub d : ℕ
  pub e : ℕ

-- The fifth operand is also the flag of an immediate second operand.
abbrev pub is_imm : Operands → ℕ
is_imm ops = ops.e

abbrev pub imm32_word : Operands → Word ℕ
imm32_word ops = record { byte_0 = ops.b; byte_1 = ops.c; byte_2 = ops.d; byte_3 = ops.e }

pub record InstructionWord : Type 0 where
  pub opcode : ℕ
  pub operands : Operands

-- What the types `u32` and `i32` guarantee.
pub record IsOperands (ops : Operands) : Type 0 where
  pub fits_a : ops.a < 2 ^ 32
  pub fits_b : ops.b < 2 ^ 32
  pub fits_c : ops.c < 2 ^ 32
  pub fits_d : ops.d < 2 ^ 32
  pub fits_e : ops.e < 2 ^ 32

pub record IsInstruction (w : InstructionWord) : Type 0 where
  pub fits_opcode : w.opcode < 2 ^ 32
  pub fits_operands : IsOperands w.operands

abbrev pub ProgramRom : Type 0
ProgramRom = List InstructionWord

-- `&self.0[pc as usize]`
unfoldable pub get_instruction : ProgramRom → ℕ → Outcome InstructionWord
get_instruction rom pc = or_panic index_out_of_bounds (get_elem? rom pc)

infixl 5 ◌▹◌
-- The rest of a reader, with the value and the bytes that are left.
unfoldable pub ◌▹◌ : {A B : Type 0} → Option (A × List ℕ) → (A → List ℕ → Option B) → Option B
none ▹ f = none
some (x, rest) ▹ f = f x rest

-- `LittleEndian::read_u32`, and `read_i32` as a bit pattern.
unfoldable pub read_u32 : List ℕ → Option (ℕ × List ℕ)
read_u32 (p ∷ q ∷ r ∷ s ∷ rest) = some (p + q * 2 ^ 8 + r * 2 ^ 16 + s * 2 ^ 24, rest)
read_u32 _ = none

-- The next 24 bytes of `chunks_exact`; `none` when fewer are left, which are dropped.
unfoldable pub read_chunk : List ℕ → Option (InstructionWord × List ℕ)
read_chunk bytes = read_u32 bytes ▹ λ opcode r0. read_u32 r0 ▹ λ a r1. read_u32 r1 ▹ λ b r2.
    read_u32 r2 ▹ λ c r3. read_u32 r3 ▹ λ d r4. read_u32 r4 ▹ λ e rest.
    some (record { opcode = opcode; operands = record { a = a; b = b; c = c; d = d; e = e } }, rest)

-- The loop over the chunks, with fuel.
unfoldable pub read_chunks : ℕ → List ℕ → ProgramRom
read_chunks zero bytes = []
read_chunks (suc fuel) bytes = elim (read_chunk bytes) [
  | none ↦ []
  | some (instruction, rest) ↦ instruction ∷ read_chunks fuel rest
]

-- No chunk is empty, so there are at most as many as bytes.
unfoldable pub from_machine_code : List ℕ → ProgramRom
unfolding read_chunks
from_machine_code mc = read_chunks (length mc) mc

pub record ProgramChip : Type 0 where
  pub program_rom : ProgramRom
  pub counts : List ℕ

unfoldable pub set_program_rom : ProgramRom → ProgramChip → ProgramChip
set_program_rom rom chip = record { program_rom = rom; counts = replicate (length rom) 0 }

-- The counters are `u32`.
unfoldable pub read_word : ℕ → ProgramChip → Outcome ProgramChip
read_word i chip =
    if ltb i (length chip.program_rom)
    then or_panic index_out_of_bounds (get_elem? chip.counts i)
      >>= (λ count. ok (record chip { counts = set chip.counts i ((count + 1) % 2 ^ 32) }))
    else panic assertion_failed
