-- ===== src/Assembler.antt =====
-- assembler/src/lib.rs: from the pairs that the grammar's parser gives to machine code. The parser is
-- generated, so that its pairs are the input. Labels and operands are lists of the codes of their
-- characters.
pub mod Tables
pub mod Layout
pub mod Fits
pub mod Encode
mod Examples
use Prim.Native.String.{String}
use valida.Prelude.{
  ℕ, zero, suc, ◌+◌, ◌-◌, ◌*◌, ◌%◌, ◌^◌, List, [], ◌∷◌, ◌++◌, Option, none, some, Bool, true, false,
  ◌&&◌, ◌||◌, ◌==◌, leb, if◌then◌else◌, Outcome, ok, panic, or_panic, ◌>>=◌, unwrap_failed,
  unknown_mnemonic, index_out_of_bounds,
}
use mathlib.Core.List.{reverse}
use valida.Opcode.{Opcode, code, bytes_per_instr}
use valida.Program.Decode.{write_u32}
use valida.Assembler.Tables.{opcode_of, Shape, shape_of}

abbrev pub Text : Type 0
Text = List ℕ

-- What stands inside an instruction after its mnemonic.
pub data Inner : Type 0 where
  whitespace : Inner
  operand : Text → Inner

pub data Pair : Type 0 where
  label : Text → Pair
  instruction : String → List Inner → Pair
  other : Pair

abbrev pub same : Text → Text → Bool
same [] [] = true
same (x ∷ xs) (y ∷ ys) = x == y && same xs ys
same _ _ = false

-- `char::is_whitespace`
is_space : ℕ → Bool
is_space c =
    (leb 9 c && leb c 13)
    || (c == 32
        || (c == 133
            || (c == 160
                || (c == 5760
                    || ((leb 8192 c && leb c 8202)
                        || (c == 8232
                            || (c == 8233 || (c == 8239 || (c == 8287 || c == 12288)))))))))

-- `trim` at the start, and `trim` or `trim_end_matches` of one character at the end.
unfoldable pub trim_start : Text → Text
unfolding is_space
trim_start [] = []
trim_start (c ∷ cs) = let rest = trim_start cs in if is_space c then rest else c ∷ cs

unfoldable pub trim_end : (ℕ → Bool) → Text → Text
trim_end drops [] = []
trim_end drops (c ∷ cs) = elim (trim_end drops cs) [
  | [] ↦ if drops c then [] else c ∷ []
  | d ∷ ds ↦ c ∷ d ∷ ds
]

-- `pair.as_str().trim().trim_end_matches(':')`
unfoldable pub label_name : Text → Text
unfolding trim_start trim_end is_space
label_name text = trim_end (λ c. c == b':') (trim_end is_space (trim_start text))

abbrev pub Labels : Type 0
Labels = List (Text × ℕ)

-- The last insertion stands first.
unfoldable pub get_label : Text → Labels → Option ℕ
get_label name [] = none
get_label name ((other_name, location) ∷ labels) =
    if same name other_name then some location else get_label name labels

-- `pc` counts the instructions; the location is an `i32`.
unfoldable pub first_pass : List Pair → ℕ → Labels → Labels
unfolding label_name
first_pass [] pc labels = labels
first_pass (label text ∷ pairs) pc labels =
    first_pass pairs pc ((label_name text, bytes_per_instr * pc % 2 ^ 32) ∷ labels)
first_pass (instruction mnemonic inner ∷ pairs) pc labels = first_pass pairs (pc + 1) labels
first_pass (other ∷ pairs) pc labels = first_pass pairs pc labels

-- `trim_end_matches("(fp)")`, on the reversed text: the suffix is dropped as often as it stands there.
unfoldable pub drop_fp : Text → Text
drop_fp (a ∷ b ∷ c ∷ d ∷ rest) =
    let more = drop_fp rest in
    if same (a ∷ b ∷ c ∷ d ∷ []) (b')' ∷ b'p' ∷ b'f' ∷ b'(' ∷ [])
    then more
    else a ∷ b ∷ c ∷ d ∷ rest
drop_fp text = text

-- `ends_with("(fp)")`, on the reversed text
unfoldable pub ends_with_fp : Text → Bool
ends_with_fp (a ∷ b ∷ c ∷ d ∷ rest) = same (a ∷ b ∷ c ∷ d ∷ []) (b')' ∷ b'p' ∷ b'f' ∷ b'(' ∷ [])
ends_with_fp text = false

unfoldable pub digits : ℕ → Text → Option ℕ
digits value [] = some value
digits value (c ∷ cs) =
    let rest = digits (10 * value + (c - b'0')) cs in
    if leb b'0' c && leb c b'9' then rest else none

-- The least and the greatest `i32`; the value as its bit pattern.
unfoldable pub in_range : Bool → ℕ → Option ℕ
in_range negative value =
    if negative
    then (if leb value (2 ^ 31) then some ((2 ^ 32 - value) % 2 ^ 32) else none)
    else if leb value (2 ^ 31 - 1)
    then some value
    else none

-- `parse::<i32>`; `none` is the error.
unfoldable pub signed_digits : Bool → Text → Option ℕ
unfolding digits in_range
signed_digits negative [] = none
signed_digits negative (c ∷ cs) = elim (digits 0 (c ∷ cs)) [
  | none ↦ none
  | some value ↦ in_range negative value
]

unfoldable pub parse_i32 : Text → Option ℕ
unfolding signed_digits
parse_i32 [] = none
parse_i32 (c ∷ cs) =
    if c == b'-'
    then signed_digits true cs
    else if c == b'+'
    then signed_digits false cs
    else signed_digits false (c ∷ cs)

unfoldable pub resolve : Labels → Text → Outcome ℕ
unfolding drop_fp ends_with_fp get_label parse_i32
resolve labels text =
    if ends_with_fp (reverse text)
    then or_panic unwrap_failed (parse_i32 (reverse (drop_fp (reverse text))))
    else elim (get_label text labels) [
      | none ↦ or_panic unwrap_failed (parse_i32 text)
      | some location ↦ ok location
    ]

-- `filter_map` over the inner pairs, and `collect`
unfoldable pub resolve_all : Labels → List Inner → Outcome (List ℕ)
unfolding resolve
resolve_all labels [] = ok []
resolve_all labels (whitespace ∷ inner) = resolve_all labels inner
resolve_all labels (operand text ∷ inner) =
    resolve labels text >>= (λ value. resolve_all labels inner >>= (λ values. ok (value ∷ values)))

-- `insert(1, 0)` panics where there is no operand.
unfoldable pub insert_zeros : Shape → List ℕ → Outcome (List ℕ)
insert_zeros Shape.zero_b [] = panic index_out_of_bounds
insert_zeros Shape.zero_b (a ∷ operands) = ok ((a ∷ 0 ∷ operands) ++ 0 ∷ 0 ∷ [])
insert_zeros Shape.zero_a operands = ok ((0 ∷ operands) ++ 0 ∷ 0 ∷ [])
insert_zeros Shape.all_given operands = ok operands
insert_zeros Shape.none_given operands = ok (operands ++ 0 ∷ 0 ∷ 0 ∷ 0 ∷ 0 ∷ [])
insert_zeros Shape.three_given operands = ok (operands ++ 0 ∷ 0 ∷ [])
insert_zeros Shape.immediate operands = ok (operands ++ 0 ∷ 1 ∷ [])
insert_zeros Shape.one_given operands = ok (operands ++ 0 ∷ 0 ∷ 0 ∷ 0 ∷ [])

unfoldable pub write_operands : List ℕ → List ℕ
unfolding write_u32
write_operands [] = []
write_operands (v ∷ vs) = write_u32 v ++ write_operands vs

-- One instruction of the second pass: the bytes that it adds.
unfoldable pub assemble_instruction : Labels → String → List Inner → Outcome (List ℕ)
unfolding resolve_all opcode_of shape_of insert_zeros write_operands
assemble_instruction labels mnemonic inner = resolve_all labels inner >>= (λ operands.
    or_panic unknown_mnemonic (opcode_of mnemonic) >>= (λ opcode.
      or_panic unknown_mnemonic (shape_of mnemonic) >>= (λ shape.
        insert_zeros shape operands
        >>= (λ all. ok (write_u32 (code opcode) ++ write_operands all)))))

unfoldable pub second_pass : Labels → List Pair → Outcome (List ℕ)
unfolding assemble_instruction
second_pass labels [] = ok []
second_pass labels (instruction mnemonic inner ∷ pairs) =
    assemble_instruction labels mnemonic inner
    >>= (λ bytes. second_pass labels pairs >>= (λ rest. ok (bytes ++ rest)))
second_pass labels (label text ∷ pairs) = second_pass labels pairs
second_pass labels (other ∷ pairs) = second_pass labels pairs

unfoldable pub assemble : List Pair → Outcome (List ℕ)
unfolding first_pass second_pass
assemble pairs = second_pass (first_pass pairs 0 []) pairs
