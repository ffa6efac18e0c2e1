-- ===== src/Prelude/Panics.antt =====
-- A run of the code that may panic, as a value, and its monad.
use Prim.Native.Nat.{ℕ}
use mathlib.Core.Path.{◌≡◌, refl, ap}
use mathlib.Core.Logic.{◌⊎◌, inl, inr}
use mathlib.Core.Option.{Option, none, some}

-- The panics that the modelled code can raise.
pub data Panic : Type 0 where
  read_before_write : ℕ → Panic
  divide_by_zero divide_overflow index_out_of_bounds assertion_failed advice_expected : Panic
  unwrap_failed unknown_mnemonic unsupported_section : Panic
  unrecognized_opcode : ℕ → Panic

pub data Outcome {ℓ} (A : Type ℓ) : Type ℓ where
  ok : A → Outcome A
  panic : Panic → Outcome A

infixl 5 ◌>>=◌
abbrev pub ◌>>=◌ {ℓ κ} : {A : Type ℓ} {B : Type κ} → Outcome A → (A → Outcome B) → Outcome B
ok a >>= f = f a
panic e >>= f = panic e

-- A lookup that the code unwraps or indexes with.
abbrev pub or_panic {ℓ} : {A : Type ℓ} → Panic → Option A → Outcome A
or_panic e none = panic e
or_panic e (some a) = ok a

abbrev pub to_option {ℓ} : {A : Type ℓ} → Outcome A → Option A
to_option (ok a) = some a
to_option (panic e) = none

abbrev pub map_outcome {ℓ κ} : {A : Type ℓ} {B : Type κ} → (A → B) → Outcome A → Outcome B
map_outcome f (ok a) = ok (f a)
map_outcome f (panic e) = panic e

-- To split on a computed outcome and keep the equation.
pub Outcome-cases {ℓ} :
    {A : Type ℓ} (r : Outcome A) → ((p : Panic) × (r ≡ panic p)) ⊎ ((a : A) × (r ≡ ok a))
Outcome-cases (panic p) = inl (p, refl)
Outcome-cases (ok a) = inr (a, refl)

pub or_panic-some {ℓ} :
    {A : Type ℓ} (p : Panic) (o : Option A) (a : A) → or_panic p o ≡ ok a → o ≡ some a
or_panic-some p none a e = cc e
or_panic-some p (some x) a e = ap some (cc e)

-- What a run that does not panic went through.
pub bind_inv {ℓ κ} :
    {A : Type ℓ} {B : Type κ} (r : Outcome A) (f : A → Outcome B) (b : B)
    → (r >>= f) ≡ ok b
    → (a : A) × (r ≡ ok a) × (f a ≡ ok b)
bind_inv (ok a) f b e = (a, refl, e)
bind_inv (panic p) f b e = absurd (cc e)

pub ok-injective {ℓ} : {A : Type ℓ} (a b : A) → ok a ≡ ok b → a ≡ b
ok-injective a b e = cc e
