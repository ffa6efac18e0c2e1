-- ===== src/Machine/Hoare.antt =====
-- Rules for what an instruction leaves: a condition before an action that returns, and one after.
pub mod Trace
use valida.Prelude.{
  ℕ, ◌≡◌, ◌∙◌, refl, sym, ap, List, Option, none, some, Outcome, ok, panic, Panic, Outcome-cases,
  inl, inr,
}
use valida.Machine.{BasicMachine, M, ◌>>=◌, ◌>>◌, lift, modify}
use mathlib.Core.Path.{subst}

pub record Triple {A : Type 0} (P : BasicMachine → Type 0) (m : M A) (Q : A → BasicMachine → Type 0)
    : Type 0 where
  pub holds : (s t : BasicMachine) (a : A) → P s → m s ≡ ok (a, t) → Q a t

abbrev pub Keeps : {A : Type 0} → (BasicMachine → Type 0) → M A → Type 0
Keeps P m = Triple P m (λ _. P)

-- How a bind runs.
module _ {A B : Type 0} (m : M A) (f : A → M B) (s : BasicMachine) where
  pub bind-ok : (t : BasicMachine) (a : A) → m s ≡ ok (a, t) → (m >>= f) s ≡ f a t
  unfolding ◌>>=◌
  bind-ok t a e = rw (e, ◌>>=◌)

  pub bind-panic : (p : Panic) → m s ≡ panic p → (m >>= f) s ≡ panic p
  unfolding ◌>>=◌
  bind-panic p e = rw (e, ◌>>=◌)

module _ {A B : Type 0} where
  pub Triple-bind :
      (P : BasicMachine → Type 0) (R : A → BasicMachine → Type 0) (Q : B → BasicMachine → Type 0)
      (m : M A) (f : A → M B)
      → Triple P m R
      → ((a : A) → Triple (R a) (f a) Q)
      → Triple P (m >>= f) Q
  Triple-bind P R Q m f first rest = record {
    holds = λ s t b p e. elim (Outcome-cases (m s)) [
      | inl (x, h) ↦ absurd (cc (e, bind-panic m f s x h))
      | inr ((a, u), h) ↦
          (rest a).holds u t b (first.holds s u a p h) (sym (bind-ok m f s u a h) ∙ e)
    ];
  }

module _ {B : Type 0} where
  pub Triple-then :
      (P R : BasicMachine → Type 0) (Q : B → BasicMachine → Type 0) (m : M (Unit {0})) (f : M B)
      → Triple P m (λ _. R)
      → Triple R f Q
      → Triple P (m >> f) Q
  unfolding ◌>>◌
  Triple-then P R Q m f first rest = Triple-bind P (λ _. R) Q m (λ _. f) first (λ _. rest)

pub Triple-modify :
    (P R : BasicMachine → Type 0) (k : BasicMachine → BasicMachine)
    → ((s : BasicMachine) → P s → R (k s))
    → Triple P (modify k) (λ _. R)
Triple-modify P R k h = record { holds = λ s t a p e. subst R (cc e) (h s p) }

pub Keeps-lift : {A : Type 0} (P : BasicMachine → Type 0) (r : Outcome A) → Keeps P (lift r)
unfolding lift
Keeps-lift P (ok x) = record { holds = λ s t a p e. subst P (cc e) p }
Keeps-lift P (panic x) = record { holds = λ s t a p e. cc e }
