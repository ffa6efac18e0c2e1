-- ===== src/Elf/Loaded.antt =====
-- elf/src/lib.rs: what the loader gives for an ELF file.
use valida.Prelude.{
  ℕ, zero, suc, ◌+◌, ◌%◌, ◌^◌, ◌≤◌, ◌<◌, ◌≡◌, ◌∙◌, refl, sym, ap, arith, List, [], ◌∷◌, ◌++◌, Bool,
  true, false, Bool-cases, inl, inr, ◌||◌, ltb, ltb→lt, Option, none, some, Outcome, ok, All,
  get_elem?, length, length-replicate, replicate, if◌then◌else◌,
}
use mathlib.Core.List.{append_assoc, append-nil}
use mathlib.Core.Path.{ap₂, subst}
use valida.Prelude.BTreeMap.{BTreeMap, get}
use valida.Word.{Word}
use valida.Program.{from_machine_code}
use valida.Elf.{
  Section, SectionHeader, SectionData, parse_error, compressed, plain, Sections, Program, is_data,
  is_text, collect, code_size, load_sections, load_elf_object_file, has_magic, load_executable_file,
}
use valida.Elf.Image.{Misses, Shows, FitsIn, copy_sections-CopiedAll}
use valida.Elf.Words.{Without, Holds, FitsData, insert_sections-InsertedAll}

-- The sections of a kind, in their order.
unfoldable pub kept : (SectionHeader → Bool) → List (SectionHeader × SectionData) → List Section
kept test [] = []
kept test ((h, plain bytes) ∷ rest) = if test h then (h, bytes) ∷ kept test rest else kept test rest
kept test ((h, parse_error) ∷ rest) = kept test rest
kept test ((h, compressed) ∷ rest) = kept test rest

-- A section of data or code can be read, and is not compressed.
unfoldable pub IsReadable : SectionHeader × SectionData → Type 0
IsReadable (h, plain bytes) = Unit
IsReadable (h, parse_error) = (is_data h || is_text h) ≡ false
IsReadable (h, compressed) = (is_data h || is_text h) ≡ false

data-not_text : (h : SectionHeader) → is_data h ≡ true → is_text h ≡ false
unfolding is_data is_text
data-not_text h e = ground arith

record_of :
    {a b c d : List Section}
    → a ≡ b
    → c ≡ d
    → ◌≡◌ {A = Sections}
        (record { data_sections = a; text_sections = c })
        (record { data_sections = b; text_sections = d })
record_of e f = ap₂ (λ x y. record { data_sections = x; text_sections = y }) e f

abbrev both : Sections → List (SectionHeader × SectionData) → Sections
both found headers = record {
  data_sections = found.data_sections ++ kept is_data headers;
  text_sections = found.text_sections ++ kept is_text headers;
}

collect_lem :
    (headers : List (SectionHeader × SectionData)) (found : Sections)
    → All IsReadable headers
    → collect headers found ≡ ok (both found headers)
unfolding collect kept IsReadable
collect_lem [] found h =
    ap ok (record_of (sym (append-nil found.data_sections)) (sym (append-nil found.text_sections)))
collect_lem ((h, parse_error) ∷ rest) found r = rw r.0 (collect_lem rest found r.1)
collect_lem ((h, compressed) ∷ rest) found r = rw r.0 (collect_lem rest found r.1)
collect_lem ((h, plain bytes) ∷ rest) found r = elim (Bool-cases (is_data h)) [
  | inl of_data ↦
      rw (of_data, data-not_text h of_data)
        (collect_lem rest _ r.1 ∙ ap ok (record_of (append_assoc found.data_sections _ _) refl))
  | inr no_data ↦ elim (Bool-cases (is_text h)) [
    | inl of_text ↦
        rw (no_data, of_text)
          (collect_lem rest _ r.1 ∙ ap ok (record_of refl (append_assoc found.text_sections _ _)))
    | inr no_text ↦ rw (no_data, no_text) (collect_lem rest found r.1)
  ]
]

code_size-bound : (sections : List Section) (size : ℕ) → size ≤ code_size sections size
unfolding code_size
code_size-bound [] size = omega arith
code_size-bound (s ∷ sections) size =
    let end = (s.0.sh_addr + s.0.sh_size) % 2 ^ 64 in
    elim (Bool-cases (ltb size end)) [
      | inl more ↦ rw more (omega (arith, ltb→lt size end more, code_size-bound sections end))
      | inr enough ↦ rw enough (code_size-bound sections size)
    ]

-- The section has the bytes that it claims, and its end is a `u64`.
abbrev pub FitsText : Section → Type 0
FitsText s = (s.0.sh_size ≤ length s.1) × (s.0.sh_addr + s.0.sh_size < 2 ^ 64)

greater : (m n : ℕ) → n ≤ (if ltb m n then n else m)
greater m n = ground arith

fits_in :
    (sections : List Section) (size : ℕ)
    → All FitsText sections
    → All (FitsIn (code_size sections size)) sections
unfolding code_size
fits_in [] size h = tt
fits_in (s ∷ sections) size h =
    let end = (s.0.sh_addr + s.0.sh_size) % 2 ^ 64 in
    let whole : end ≡ s.0.sh_addr + s.0.sh_size = omega (arith, h.0.1) in
    let next = if ltb size end then end else size in
    (
      (h.0.0, omega (arith, whole, greater size end, code_size-bound sections next)),
      fits_in sections next h.1,
    )

code_size_small :
    (sections : List Section) (size : ℕ) → size ≤ 2 ^ 64 → code_size sections size ≤ 2 ^ 64
unfolding code_size
code_size_small [] size h = h
code_size_small (s ∷ sections) size h =
    code_size_small sections _
      (either_small size ((s.0.sh_addr + s.0.sh_size) % 2 ^ 64) h (omega arith))
  where
    either_small :
        (size end : ℕ)
        → size ≤ 2 ^ 64
        → end ≤ 2 ^ 64
        → (if ltb size end then end else size) ≤ 2 ^ 64
    either_small size end h k = ground (arith, h, k)

get_elem?-replicate : (n j : ℕ) → j < n → get_elem? {A = ℕ} (replicate n 0) j ≡ some 0
get_elem?-replicate zero j h = absurd (omega arith)
get_elem?-replicate (suc n) zero h = refl
get_elem?-replicate (suc n) (suc j) h = get_elem?-replicate n j (omega arith)

-- The program that is loaded: the image of the text sections, decoded, and the words of the data
-- sections.
pub record IsLoaded (texts datas : List Section) (o : Outcome Program) : Type 0 where
  pub image : List ℕ
  pub words : BTreeMap (Word ℕ)
  pub same : o ≡ ok (record { code = from_machine_code image; static_data = words })
  pub size : length image ≡ code_size texts 0
  pub shows : Shows texts image
  pub zeros : (j : ℕ) → j < length image → All (Misses j) texts → get_elem? {A = ℕ} image j ≡ some 0
  pub holds : Holds datas words
  pub no_others : (j : ℕ) → All (Without j) datas → get j words ≡ none

load_sections-IsLoaded :
    (found : Sections)
    → All FitsText found.text_sections
    → All FitsData found.data_sections
    → IsLoaded found.text_sections found.data_sections (load_sections found)
unfolding load_sections get
load_sections-IsLoaded found texts datas =
    let size = code_size found.text_sections 0 in
    let blank = replicate size 0 in
    let whole : length blank ≡ size = length-replicate size 0 in
    let code =
      copy_sections-CopiedAll found.text_sections blank
        (omega (arith, whole, code_size_small found.text_sections 0 (omega arith)))
        (subst (λ n. All (FitsIn n) found.text_sections) (sym whole)
          (fits_in found.text_sections 0 texts)) in
    let words = insert_sections-InsertedAll found.data_sections [] datas in
    rw (code.same, words.same)
      (record {
        image = code.result;
        words = words.result;
        same = refl;
        size = code.size ∙ whole;
        shows = code.shows;
        zeros = λ j small apart.
            code.outside j apart
            ∙ get_elem?-replicate size j (omega (arith, small, code.size, whole));
        holds = words.holds;
        no_others = λ j apart. words.outside j apart;
      })

load_elf_object_file-IsLoaded :
    (headers : List (SectionHeader × SectionData))
    → All IsReadable headers
    → All FitsText (kept is_text headers)
    → All FitsData (kept is_data headers)
    → IsLoaded (kept is_text headers) (kept is_data headers) (load_elf_object_file (some headers))
unfolding load_elf_object_file
load_elf_object_file-IsLoaded headers readable texts datas =
    let found = collect_lem headers (record { data_sections = []; text_sections = [] }) readable in
    rw found (
      load_sections-IsLoaded (both (record { data_sections = []; text_sections = [] }) headers)
        texts datas)

-- For a file with the magic bytes whose section headers the reader gives, with sections of data
-- and code that can be read and have the bytes that they claim, at addresses of 32 bits for data
-- and with ends of 64 bits for code, the loader does not panic. The code is decoded from an image
-- that reaches to the end of the last text section, in which each byte of a text section stands
-- at its address unless a later one has a byte there, and every other byte is zero. The static
-- data has each word of a data section at its address unless a later one has a word there, and no
-- other word.
pub load_executable_file-IsLoaded :
    (parse : List ℕ → Option (List (SectionHeader × SectionData))) (file : List ℕ)
    (headers : List (SectionHeader × SectionData))
    → has_magic file ≡ ok true
    → parse file ≡ some headers
    → All IsReadable headers
    → All FitsText (kept is_text headers)
    → All FitsData (kept is_data headers)
    → IsLoaded (kept is_text headers) (kept is_data headers) (load_executable_file parse file)
unfolding load_executable_file
load_executable_file-IsLoaded parse file headers magic parsed readable texts datas =
    rw (magic, parsed) (load_elf_object_file-IsLoaded headers readable texts datas)
