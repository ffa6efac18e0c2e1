-- ===== src/Elf/Words.antt =====
-- elf/src/lib.rs: the static data that the loops over the data sections leave.
use valida.Prelude.{
  ℕ, zero, suc, ◌+◌, ◌*◌, ◌/◌, ◌%◌, ◌^◌, ◌≤◌, ◌<◌, ◌≡◌, ◌≢◌, ◌∙◌, refl, sym, ap, arith, List, [],
  ◌∷◌, false, Bool-cases, inl, inr, ◌==◌, ==_iff, lt→ltb, some, Outcome, ok, to_option, length, All,
  get_elem?_total,
}
use valida.Prelude.BTreeMap.{BTreeMap, get, insert, get-insert}
use valida.Word.{Word}
use valida.Elf.{Section, try_into_u32, word_at, insert_words, insert_sections}
use valida.Elf.Image.{unequal}

record Readable (bytes : List ℕ) (k : ℕ) : Type 0 where
  word : Word ℕ
  same : word_at bytes k ≡ ok word

readable : (bytes : List ℕ) (k : ℕ) → k + 4 ≤ length bytes → Readable bytes k
unfolding word_at
readable bytes k h =
    let (b0, e0) = get_elem?_total bytes k (omega arith) in
    let (b1, e1) = get_elem?_total bytes (k + 1) (omega arith) in
    let (b2, e2) = get_elem?_total bytes (k + 2) (omega arith) in
    let (b3, e3) = get_elem?_total bytes (k + 3) (omega arith) in
    record {
      word = record { byte_0 = b0; byte_1 = b1; byte_2 = b2; byte_3 = b3 };
      same = rw (e0, e1, e2, e3) refl;
    }

-- `n` words of a section from its word `i` are in the map, and the rest is kept.
record Inserted (n i : ℕ) (s : Section) (words : BTreeMap (Word ℕ))
    (o : Outcome (BTreeMap (Word ℕ))) : Type 0 where
  result : BTreeMap (Word ℕ)
  same : o ≡ ok result
  inside :
      (t : ℕ)
      → i ≤ t
      → t < i + n
      → get (s.0.sh_addr + t * 4) result ≡ to_option (word_at s.1 (t * 4))
  outside :
      (j : ℕ) → ((t : ℕ) → i ≤ t → t < i + n → j ≢ s.0.sh_addr + t * 4) → get j result ≡ get j words

get-insert_self : (k : ℕ) (v : Word ℕ) (m : BTreeMap (Word ℕ)) → get k (insert k v m) ≡ some v
get-insert_self k v m = get-insert k k v m ∙ rw ((==_iff k k).1 refl) refl

differ : (a b : ℕ) → a ≢ b → (a == b) ≡ false
differ a b n = ground arith

get-insert_ne :
    (k j : ℕ) (v : Word ℕ) (m : BTreeMap (Word ℕ)) → j ≢ k → get j (insert k v m) ≡ get j m
get-insert_ne k j v m n = get-insert k j v m ∙ rw (differ j k n) refl

insert_words-Inserted :
    (n i : ℕ) (s : Section) (words : BTreeMap (Word ℕ))
    → (i + n) * 4 ≤ length s.1
    → s.0.sh_addr + (i + n) * 4 < 2 ^ 32
    → Inserted n i s words (insert_words n i s words)
unfolding insert_words try_into_u32
insert_words-Inserted zero i s words h k = record {
  result = words;
  same = refl;
  inside = λ t low high. absurd (omega arith);
  outside = λ j apart. refl;
}
insert_words-Inserted (suc n) i s words h k =
    let r = readable s.1 (i * 4) (omega arith) in
    let key = s.0.sh_addr + i * 4 in
    let same_key : (s.0.sh_addr + i * 4) % 2 ^ 32 ≡ key = omega arith in
    let next = insert key r.word words in
    let rest = insert_words-Inserted n (suc i) s next (omega arith) (omega arith) in
    rw
      (
        lt→ltb s.0.sh_addr (2 ^ 32) (omega arith),
        lt→ltb (i * 4) (2 ^ 32) (omega arith),
        r.same,
        same_key,
      )
      (record {
        result = rest.result;
        same = rest.same;
        inside = λ t low high. elim (Bool-cases (t == i)) [
          | inl here ↦ rw ((==_iff t i).0 here) (
              rest.outside key (λ u low high e. absurd (omega arith))
              ∙ get-insert_self key r.word words
              ∙ ap to_option (sym r.same))
          | inr further ↦ rest.inside t (omega (arith, unequal t i further)) (omega arith)
        ];
        outside = λ j apart.
            rest.outside j (λ t low high. apart t (omega arith) (omega arith))
            ∙ get-insert_ne key j r.word words (apart i (omega arith) (omega arith));
      })

-- The section has no word at `j`.
abbrev pub Without : ℕ → Section → Type 0
Without j s = (t : ℕ) → t < s.0.sh_size / 4 → j ≢ s.0.sh_addr + t * 4

-- Each word of a section is at its address, unless a later section has one there.
unfoldable pub Holds : List Section → BTreeMap (Word ℕ) → Type 0
Holds [] words = Unit
Holds (s ∷ later) words =
    ((t : ℕ)
      → t < s.0.sh_size / 4
      → All (Without (s.0.sh_addr + t * 4)) later
      → get (s.0.sh_addr + t * 4) words ≡ to_option (word_at s.1 (t * 4)))
    × Holds later words

-- The section has the bytes that it claims, at addresses of 32 bits.
abbrev pub FitsData : Section → Type 0
FitsData s = (s.0.sh_size ≤ length s.1) × (s.0.sh_addr + s.0.sh_size < 2 ^ 32)

pub record InsertedAll (sections : List Section) (words : BTreeMap (Word ℕ))
    (o : Outcome (BTreeMap (Word ℕ))) : Type 0 where
  pub result : BTreeMap (Word ℕ)
  pub same : o ≡ ok result
  pub holds : Holds sections result
  pub outside : (j : ℕ) → All (Without j) sections → get j result ≡ get j words

pub insert_sections-InsertedAll :
    (sections : List Section) (words : BTreeMap (Word ℕ))
    → All FitsData sections
    → InsertedAll sections words (insert_sections sections words)
unfolding insert_sections Holds
insert_sections-InsertedAll [] words fits = record {
  result = words;
  same = refl;
  holds = tt;
  outside = λ j apart. refl;
}
insert_sections-InsertedAll (s ∷ sections) words fits =
    let first =
      insert_words-Inserted (s.0.sh_size / 4) 0 s words (omega (arith, fits.0.0))
        (omega (arith, fits.0.1)) in
    let rest = insert_sections-InsertedAll sections first.result fits.1 in
    rw first.same (record {
      result = rest.result;
      same = rest.same;
      holds = (
        λ t small apart.
            rest.outside (s.0.sh_addr + t * 4) apart ∙ first.inside t (omega arith) (omega arith),
        rest.holds,
      );
      outside = λ j apart.
          rest.outside j apart.1 ∙ first.outside j (λ t low high. apart.0 t (omega arith));
    })
