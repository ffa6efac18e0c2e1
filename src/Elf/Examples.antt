-- ===== src/Elf/Examples.antt =====
-- An example of the loader: a `stop` at 0, a word at 100, and a section of zeros.
use valida.Prelude.{ℕ, refl, arith, List, [], ◌∷◌, Option, some, replicate}
use valida.Elf.{
  SectionHeader, SectionData, parse_error, plain, is_data, is_text, has_magic, load_executable_file,
}
use valida.Elf.Loaded.{kept, IsReadable, IsLoaded, load_executable_file-IsLoaded}

abbrev header : ℕ → ℕ → ℕ → ℕ → SectionHeader
header sh_type sh_flags sh_addr sh_size = record {
  sh_type = sh_type;
  sh_flags = sh_flags;
  sh_addr = sh_addr;
  sh_size = sh_size;
}

abbrev headers : List (SectionHeader × SectionData)
headers =
    (header 1 6 0 24, plain (8 ∷ replicate 23 0))
    ∷ (header 1 3 100 4, plain (0 ∷ 0 ∷ 0 ∷ 5 ∷ []))
    ∷ (header 8 3 104 8, parse_error)
    ∷ []

abbrev file : List ℕ
file = 0x7F ∷ 0x45 ∷ 0x4C ∷ 0x46 ∷ []

abbrev parse : List ℕ → Option (List (SectionHeader × SectionData))
parse bytes = some headers

load_executable_file-IsLoaded_example :
    IsLoaded (kept is_text headers) (kept is_data headers) (load_executable_file parse file)
unfolding kept is_data is_text IsReadable has_magic
load_executable_file-IsLoaded_example =
    load_executable_file-IsLoaded parse file headers refl refl (tt, (tt, (refl, tt)))
      ((omega arith, omega arith), tt) ((omega arith, omega arith), tt)
