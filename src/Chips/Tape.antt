-- ===== src/Chips/Tape.antt =====
-- machine/src/advice.rs: the fixed provider is the list of the bytes that it has not given yet.
use valida.Prelude.{
  ℕ, zero, suc, ◌≤◌, ◌<◌, ◌≡◌, refl, ap, sym, ◌∙◌, arith, List, [], ◌∷◌, Option, none, some,
  get_elem?, length, ltb, ltb→le, ltb→lt, Bool-cases, inl, inr,
}
use valida.Chips.Advice.{FixedAdviceProvider, get_fixed}

drop : ℕ → List ℕ → List ℕ
drop zero xs = xs
drop (suc n) [] = []
drop (suc n) (x ∷ xs) = drop n xs

-- The bytes that are left.
unfoldable pub remaining : FixedAdviceProvider → List ℕ
unfolding drop
remaining p = drop p.index p.advice

-- The next byte of a list, and the rest.
unfoldable pub take_next : List ℕ → Option ℕ × List ℕ
take_next [] = (none, [])
take_next (x ∷ xs) = (some x, xs)

drop-inside :
    (n : ℕ) (xs : List ℕ)
    → n < length xs
    → take_next (drop n xs) ≡ (get_elem? xs n, drop (suc n) xs)
unfolding drop take_next
drop-inside n [] h = absurd (omega arith)
drop-inside zero (x ∷ xs) h = refl
drop-inside (suc n) (x ∷ xs) h = drop-inside n xs (omega arith)

drop-outside : (n : ℕ) (xs : List ℕ) → length xs ≤ n → drop n xs ≡ []
unfolding drop
drop-outside zero [] h = refl
drop-outside zero (x ∷ xs) h = absurd (omega arith)
drop-outside (suc n) [] h = refl
drop-outside (suc n) (x ∷ xs) h = drop-outside n xs (omega arith)

-- The fixed provider of advice gives the next of the bytes that are left, or none when none is
-- left, and moves on to the rest.
pub get_fixed-remaining :
    (p : FixedAdviceProvider)
    → ((get_fixed p).0, remaining (get_fixed p).1) ≡ take_next (remaining p)
unfolding get_fixed remaining take_next
get_fixed-remaining p = elim (Bool-cases (ltb p.index (length p.advice))) [
  | inl inside ↦ rw inside (
      ap (λ n. (get_elem? p.advice p.index, drop n p.advice)) {y = suc p.index} (omega arith)
      ∙ sym (drop-inside p.index p.advice (ltb→lt _ _ inside)))
  | inr outside ↦ rw outside (
      let empty = drop-outside p.index p.advice (ltb→le p.index (length p.advice) outside) in
      ap (λ xs. (none, xs)) empty ∙ sym (ap take_next empty))
]
