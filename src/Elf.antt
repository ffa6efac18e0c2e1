-- ===== src/Elf.antt =====
-- elf/src/lib.rs: the loader of executable files. The ELF reader is an external crate, so that the
-- section headers, with the data of their sections, are the input.
pub mod Image
pub mod Words
pub mod Loaded
mod Examples
use valida.Prelude.{
  ◌++◌, ℕ, zero, suc, ◌+◌, ◌*◌, ◌/◌, ◌%◌, ◌^◌, List, [], ◌∷◌, Bool, true, false, ◌&&◌, ◌||◌, ◌==◌,
  ltb, Option, none, some, if◌then◌else◌, Outcome, ok, panic, or_panic, ◌>>=◌, index_out_of_bounds,
  unwrap_failed, unsupported_section, get_elem?, set, length, replicate,
}
use valida.Prelude.BTreeMap.{BTreeMap, insert}
use valida.Word.{Word}
use valida.Program.{ProgramRom, from_machine_code}

pub record Program : Type 0 where
  pub code : ProgramRom
  pub static_data : BTreeMap (Word ℕ)

-- The fields of a section header that are read.
pub record SectionHeader : Type 0 where
  pub sh_type : ℕ
  pub sh_flags : ℕ
  pub sh_addr : ℕ
  pub sh_size : ℕ

-- What `section_data` gives: an error, the bytes, or those of a compressed section.
pub data SectionData : Type 0 where
  parse_error compressed : SectionData
  plain : List ℕ → SectionData

abbrev pub Section : Type 0
Section = SectionHeader × List ℕ

-- `SHT_PROGBITS`, `SHF_WRITE`, `SHF_ALLOC` and `SHF_EXECINSTR` of the ELF format.
abbrev sht_progbits : ℕ
sht_progbits = 1

abbrev alloc_write : ℕ
alloc_write = 3

abbrev alloc_execinstr : ℕ
alloc_execinstr = 6

unfoldable pub is_data : SectionHeader → Bool
is_data h = h.sh_type == sht_progbits && h.sh_flags == alloc_write

unfoldable pub is_text : SectionHeader → Bool
is_text h = h.sh_type == sht_progbits && h.sh_flags == alloc_execinstr

pub record Sections : Type 0 where
  pub data_sections : List Section
  pub text_sections : List Section

-- `push`
abbrev pub push : Section → List Section → List Section
push s sections = sections ++ s ∷ []

-- The loop over the section headers. A section of another kind is skipped; those of zeros are
-- collected and not used.
unfoldable pub collect : List (SectionHeader × SectionData) → Sections → Outcome Sections
unfolding is_data is_text
collect [] found = ok found
collect ((header, parse_error) ∷ rest) found =
    if is_data header || is_text header then panic unwrap_failed else collect rest found
collect ((header, compressed) ∷ rest) found =
    if is_data header || is_text header then panic unsupported_section else collect rest found
collect ((header, plain bytes) ∷ rest) found = collect rest (
    if is_data header
    then record found { data_sections = push (header, bytes) found.data_sections }
    else if is_text header
    then record found { text_sections = push (header, bytes) found.text_sections }
    else found)

-- The greatest end of a section; `sh_addr` and `sh_size` are `u64`.
unfoldable pub code_size : List Section → ℕ → ℕ
code_size [] size = size
code_size (s ∷ sections) size =
    let end = (s.0.sh_addr + s.0.sh_size) % 2 ^ 64 in
    code_size sections (if ltb size end then end else size)

-- `code[k] = byte`
unfoldable pub assign : ℕ → ℕ → List ℕ → Outcome (List ℕ)
assign k byte code = if ltb k (length code) then ok (set code k byte) else panic index_out_of_bounds

-- `n` turns of the loop over a text section, from `i`.
unfoldable pub copy_bytes : ℕ → ℕ → Section → List ℕ → Outcome (List ℕ)
unfolding assign
copy_bytes zero i s code = ok code
copy_bytes (suc n) i s code = or_panic index_out_of_bounds (get_elem? s.1 i) >>= (λ byte.
    assign ((i + s.0.sh_addr) % 2 ^ 64) byte code >>= (λ next. copy_bytes n (suc i) s next))

unfoldable pub copy_sections : List Section → List ℕ → Outcome (List ℕ)
unfolding copy_bytes
copy_sections [] code = ok code
copy_sections (s ∷ sections) code =
    copy_bytes s.0.sh_size 0 s code >>= (λ next. copy_sections sections next)

-- `try_into` and `unwrap`
unfoldable pub try_into_u32 : ℕ → Outcome ℕ
try_into_u32 n = if ltb n (2 ^ 32) then ok n else panic unwrap_failed

-- The word of four bytes from `k`.
unfoldable pub word_at : List ℕ → ℕ → Outcome (Word ℕ)
word_at bytes k = or_panic index_out_of_bounds (get_elem? bytes k) >>= (λ b0.
    or_panic index_out_of_bounds (get_elem? bytes (k + 1)) >>= (λ b1.
      or_panic index_out_of_bounds (get_elem? bytes (k + 2)) >>= (λ b2.
        or_panic index_out_of_bounds (get_elem? bytes (k + 3))
        >>= (λ b3. ok (record { byte_0 = b0; byte_1 = b1; byte_2 = b2; byte_3 = b3 })))))

-- `n` turns of the loop over a data section, from `i`.
unfoldable pub insert_words : ℕ → ℕ → Section → BTreeMap (Word ℕ) → Outcome (BTreeMap (Word ℕ))
unfolding try_into_u32 word_at
insert_words zero i s words = ok words
insert_words (suc n) i s words = try_into_u32 s.0.sh_addr >>= (λ addr.
    try_into_u32 (i * 4) >>= (λ offset.
      word_at s.1 (i * 4)
      >>= (λ word. insert_words n (suc i) s (insert ((addr + offset) % 2 ^ 32) word words))))

unfoldable pub insert_sections : List Section → BTreeMap (Word ℕ) → Outcome (BTreeMap (Word ℕ))
unfolding insert_words
insert_sections [] words = ok words
insert_sections (s ∷ sections) words =
    insert_words (s.0.sh_size / 4) 0 s words >>= (λ next. insert_sections sections next)

-- The two loops over the sections that are found.
unfoldable pub load_sections : Sections → Outcome Program
unfolding code_size copy_sections insert_sections
load_sections found =
    copy_sections found.text_sections (replicate (code_size found.text_sections 0) 0) >>= (λ code.
      insert_sections found.data_sections []
      >>= (λ words. ok (record { code = from_machine_code code; static_data = words })))

-- `none` is a file that the reader does not parse.
unfoldable pub load_elf_object_file : Option (List (SectionHeader × SectionData)) → Outcome Program
unfolding collect load_sections
load_elf_object_file headers = or_panic unwrap_failed headers >>= (λ headers.
    collect headers (record { data_sections = []; text_sections = [] })
    >>= (λ found. load_sections found))

unfoldable pub has_magic : List ℕ → Outcome Bool
has_magic (a ∷ b ∷ c ∷ d ∷ rest) = ok (a == 0x7F && (b == 0x45 && (c == 0x4C && d == 0x46)))
has_magic (a ∷ b ∷ c ∷ []) =
    if a == 0x7F && (b == 0x45 && c == 0x4C) then panic index_out_of_bounds else ok false
has_magic (a ∷ b ∷ []) = if a == 0x7F && b == 0x45 then panic index_out_of_bounds else ok false
has_magic (a ∷ []) = if a == 0x7F then panic index_out_of_bounds else ok false
has_magic [] = panic index_out_of_bounds

-- `parse` is the reader of ELF files.
unfoldable pub load_executable_file :
    (List ℕ → Option (List (SectionHeader × SectionData))) → List ℕ → Outcome Program
unfolding has_magic load_elf_object_file
load_executable_file parse file = has_magic file >>= (λ is_elf. elim is_elf [
  | true ↦ load_elf_object_file (parse file)
  | false ↦ ok (record { code = from_machine_code file; static_data = [] })
])
