-- ===== src/Refine/Step/Inputs.antt =====
-- The programs and the tapes that the refinement is about: instructions that fit, and the fixed
-- provider of bytes.
use valida.Prelude.{
  ℕ, zero, suc, ◌+◌, ◌^◌, ◌<◌, ◌≡◌, refl, ap, sym, ◌∙◌, List, [], ◌∷◌, All, none, some, get_elem?,
  length, ltb, Bool-cases, inl, inr, true, false,
}
use valida.Program.{IsOperands, ProgramRom}
use valida.Chips.Advice.{FixedAdviceProvider, get_fixed, fixed_advice}
use valida.Refine.Step.Run.{IsRom, GivesBytes}
use mathlib.Core.Path.{subst}
use mathlib.Core.Option.{some-injective}

All-get_elem? :
    {A : Type 0} (P : A → Type 0) (xs : List A) (i : ℕ) (x : A)
    → All P xs
    → get_elem? xs i ≡ some x
    → P x
All-get_elem? P [] i x h e = cc e
All-get_elem? P (y ∷ xs) zero x h e = subst P (some-injective _ _ e) h.0
All-get_elem? P (y ∷ xs) (suc i) x h e = All-get_elem? P xs i x h.1 e

pub All-IsRom : (rom : ProgramRom) → All (λ w. IsOperands w.operands) rom → IsRom rom
All-IsRom rom h pc word e = All-get_elem? (λ w. IsOperands w.operands) rom pc word h e

abbrev pub HasBytes : FixedAdviceProvider → Type 0
HasBytes p = All (λ b. b < 2 ^ 8) p.advice

inside_fixed :
    (p : FixedAdviceProvider)
    → ltb p.index (length p.advice) ≡ true
    → get_fixed p ≡ (get_elem? p.advice p.index, record p { index = p.index + 1 })
unfolding get_fixed
inside_fixed p h = rw h refl

outside_fixed :
    (p : FixedAdviceProvider) → ltb p.index (length p.advice) ≡ false → get_fixed p ≡ (none, p)
unfolding get_fixed
outside_fixed p h = rw h refl

-- It gives bytes where it has them.
pub fixed_advice-GivesBytes : GivesBytes fixed_advice HasBytes
fixed_advice-GivesBytes = record {
  gives_byte = λ adv byte valid e. elim (Bool-cases (ltb adv.index (length adv.advice))) [
    | inl inside ↦
        All-get_elem? (λ b. b < 2 ^ 8) adv.advice adv.index byte valid
          (sym (ap (λ r. r.0) (inside_fixed adv inside)) ∙ e)
    | inr outside ↦ absurd (cc (e, ap (λ r. r.0) (outside_fixed adv outside)))
  ];
  stays = λ adv valid. elim (Bool-cases (ltb adv.index (length adv.advice))) [
    | inl inside ↦ subst (λ r. HasBytes r.1) (sym (inside_fixed adv inside)) valid
    | inr outside ↦ subst (λ r. HasBytes r.1) (sym (outside_fixed adv outside)) valid
  ];
}
