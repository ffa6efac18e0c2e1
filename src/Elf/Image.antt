-- ===== src/Elf/Image.antt =====
-- elf/src/lib.rs: the code that the loops over the text sections leave.
use valida.Prelude.{
  ℕ, zero, suc, ◌+◌, ◌%◌, ◌^◌, ◌≤◌, ◌<◌, ◌≡◌, ◌≢◌, ◌∙◌, refl, sym, arith, List, [], ◌∷◌, true,
  false, Bool-cases, inl, inr, ◌==◌, ==_iff, lt→ltb, Outcome, ok, get_elem?, set, length, All,
  get_elem?_total, get_elem?-set_self, get_elem?-set_ne, length-set,
}
use mathlib.Core.Path.{subst}
use valida.Elf.{Section, assign, copy_bytes, copy_sections}

pub unequal : (a b : ℕ) → (a == b) ≡ false → a ≢ b
unequal a b e same = absurd (distinct (sym ((==_iff a b).1 same) ∙ e))
  where
    distinct : true ≢ false
    distinct e = cc e

-- `n` bytes of a section from its byte `i` stand in the code, and the rest is kept.
record Copied (n i : ℕ) (s : Section) (code : List ℕ) (o : Outcome (List ℕ)) : Type 0 where
  result : List ℕ
  same : o ≡ ok result
  size : length result ≡ length code
  inside : (t : ℕ) → i ≤ t → t < i + n → get_elem? result (t + s.0.sh_addr) ≡ get_elem? s.1 t
  outside :
      (j : ℕ)
      → ((t : ℕ) → i ≤ t → t < i + n → j ≢ t + s.0.sh_addr)
      → get_elem? result j ≡ get_elem? code j

copy_bytes-Copied :
    (n i : ℕ) (s : Section) (code : List ℕ)
    → length code ≤ 2 ^ 64
    → i + n ≤ length s.1
    → i + n + s.0.sh_addr ≤ length code
    → Copied n i s code (copy_bytes n i s code)
unfolding copy_bytes assign
copy_bytes-Copied zero i s code bounded h k = record {
  result = code;
  same = refl;
  size = refl;
  inside = λ t low high. absurd (omega arith);
  outside = λ j apart. refl;
}
copy_bytes-Copied (suc n) i s code bounded h k =
    let (byte, e) = get_elem?_total s.1 i (omega arith) in
    let at = i + s.0.sh_addr in
    let next = set code at byte in
    let kept : length next ≡ length code = length-set code at byte in
    let rest =
      copy_bytes-Copied n (suc i) s next (omega (arith, kept)) (omega arith)
        (omega (arith, kept)) in
    let no_wrap : at % 2 ^ 64 ≡ at = omega arith in
    rw (e, no_wrap, lt→ltb at (length code) (omega arith))
      (record {
        result = rest.result;
        same = rest.same;
        size = rest.size ∙ kept;
        inside = λ t low high. elim (Bool-cases (t == i)) [
          | inl here ↦
              let t_is_i : t ≡ i = (==_iff t i).0 here in
              rw t_is_i (
                rest.outside at (λ u low high e. absurd (omega arith))
                ∙ get_elem?-set_self code at byte (omega arith)
                ∙ sym e)
          | inr further ↦ rest.inside t (omega (arith, unequal t i further)) (omega arith)
        ];
        outside = λ j apart.
            rest.outside j (λ t low high. apart t (omega arith) (omega arith))
            ∙ get_elem?-set_ne code at j byte (λ e. apart i (omega arith) (omega arith) (sym e));
      })

-- The section has no byte at `j`.
abbrev pub Misses : ℕ → Section → Type 0
Misses j s = (t : ℕ) → t < s.0.sh_size → j ≢ t + s.0.sh_addr

-- Each byte of a section stands at its address, unless a later section has one there.
unfoldable pub Shows : List Section → List ℕ → Type 0
Shows [] code = Unit
Shows (s ∷ later) code =
    ((t : ℕ)
      → t < s.0.sh_size
      → All (Misses (t + s.0.sh_addr)) later
      → get_elem? code (t + s.0.sh_addr) ≡ get_elem? s.1 t)
    × Shows later code

-- The section has the bytes that it claims, below the end of the code.
abbrev pub FitsIn : ℕ → Section → Type 0
FitsIn size s = (s.0.sh_size ≤ length s.1) × (s.0.sh_size + s.0.sh_addr ≤ size)

pub record CopiedAll (sections : List Section) (code : List ℕ) (o : Outcome (List ℕ)) : Type 0 where
  pub result : List ℕ
  pub same : o ≡ ok result
  pub size : length result ≡ length code
  pub shows : Shows sections result
  pub outside : (j : ℕ) → All (Misses j) sections → get_elem? result j ≡ get_elem? code j

pub copy_sections-CopiedAll :
    (sections : List Section) (code : List ℕ)
    → length code ≤ 2 ^ 64
    → All (FitsIn (length code)) sections
    → CopiedAll sections code (copy_sections sections code)
unfolding copy_sections Shows
copy_sections-CopiedAll [] code bounded fits = record {
  result = code;
  same = refl;
  size = refl;
  shows = tt;
  outside = λ j apart. refl;
}
copy_sections-CopiedAll (s ∷ sections) code bounded fits =
    let first =
      copy_bytes-Copied s.0.sh_size 0 s code bounded (omega (arith, fits.0.0))
        (omega (arith, fits.0.1)) in
    let rest =
      copy_sections-CopiedAll sections first.result (omega (arith, first.size, bounded))
        (subst (λ n. All (FitsIn n) sections) (sym first.size) fits.1) in
    rw first.same (record {
      result = rest.result;
      same = rest.same;
      size = rest.size ∙ first.size;
      shows = (
        λ t small apart.
            rest.outside (t + s.0.sh_addr) apart ∙ first.inside t (omega arith) (omega arith),
        rest.shows,
      );
      outside = λ j apart.
          rest.outside j apart.1 ∙ first.outside j (λ t low high. apart.0 t (omega arith));
    })
