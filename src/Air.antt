-- ===== src/Air.antt =====
-- The field of the trace's elements, as far as the chips' columns and constraints use it. It comes
-- from the proof system, so its operations and their laws are a parameter.
pub mod Integers
pub mod Add
pub mod Sub
pub mod Squares
pub mod Equality
pub mod Com
pub mod Inverse
pub mod Cpu
pub mod Memory
pub mod NativeField
pub mod Output
use valida.Prelude.{
  ◌≢◌, ℕ, zero, suc, arith, inl, inr, ◌*◌, ◌≤◌, ◌+◌, ◌^◌, ◌<◌, ◌≡◌, ◌↔◌, ◌⊎◌, ◌∙◌, refl, sym, ap,
  List, Bool, true,
}
use valida.Word.{Word}

pub record PrimeField (F : Type 0) : Type 0 where
  pub field_zero : F
  pub field_one : F
  pub plus : F → F → F
  pub minus : F → F → F
  pub times : F → F → F
  pub from_canonical : ℕ → F
  pub is_zero : F → Bool
  pub is_zero_iff : (x : F) → (is_zero x ≡ true) ↔ (x ≡ field_zero)
  pub from_zero : from_canonical 0 ≡ field_zero
  pub from_one : from_canonical 1 ≡ field_one
  pub from_plus : (m n : ℕ) → plus (from_canonical m) (from_canonical n) ≡ from_canonical (m + n)
  pub plus_assoc : (x y z : F) → plus (plus x y) z ≡ plus x (plus y z)
  pub plus_comm : (x y : F) → plus x y ≡ plus y x
  pub plus_zero : (x : F) → plus x field_zero ≡ x
  pub minus_iff : (x y z : F) → (minus x y ≡ z) ↔ (x ≡ plus y z)
  pub times_iff : (x y : F) → (times x y ≡ field_zero) ↔ ((x ≡ field_zero) ⊎ (y ≡ field_zero))
  pub times_one : (x : F) → times x field_one ≡ x
  pub times_comm : (x y : F) → times x y ≡ times y x
  pub times_plus : (x y z : F) → times x (plus y z) ≡ plus (times x y) (times x z)
  pub from_times : (m n : ℕ) → times (from_canonical m) (from_canonical n) ≡ from_canonical (m * n)
  -- The order of the field is above 2 ^ 30.
  pub from_injective :
      (m n : ℕ) → m < 2 ^ 30 → n < 2 ^ 30 → from_canonical m ≡ from_canonical n → m ≡ n

module _ {F : Type 0} (p : PrimeField F) where
  abbrev pub word_of_zeros : Word F
  word_of_zeros = record {
    byte_0 = p.field_zero;
    byte_1 = p.field_zero;
    byte_2 = p.field_zero;
    byte_3 = p.field_zero;
  }

  pub plus_cancel : (x y z : F) → p.plus x y ≡ p.plus x z → y ≡ z
  plus_cancel x y z e =
      sym ((p.minus_iff (p.plus x y) x y).1 refl) ∙ (p.minus_iff (p.plus x y) x z).1 e

  -- A difference with a carry, as an equation of sums.
  pub carried : (x y c k : F) → (p.plus (p.minus x y) c ≡ k) ↔ (p.plus x c ≡ p.plus y k)
  carried x y c k =
      let o = p.minus x y in
      let sum : p.plus x c ≡ p.plus y (p.plus o c) =
        ap (λ t. p.plus t c) ((p.minus_iff x y o).0 refl) ∙ p.plus_assoc y o c in
      (λ e. sum ∙ ap (p.plus y) e, λ e. plus_cancel y (p.plus o c) k (sym sum ∙ e))

  pub minus_self : (x : F) → p.minus x x ≡ p.field_zero
  minus_self x = (p.minus_iff x x p.field_zero).1 (sym (p.plus_zero x))

  pub minus_zero : (x y : F) → p.minus x y ≡ p.field_zero → x ≡ y
  minus_zero x y e = (p.minus_iff x y p.field_zero).0 e ∙ p.plus_zero y

  -- A factor that is 0 or 1.
  pub times_digit :
      (x : ℕ) (k : ℕ)
      → k ≤ 1
      → p.times (p.from_canonical x) (p.from_canonical k) ≡ p.from_canonical (x * k)
  times_digit x zero small =
      (p.times_iff (p.from_canonical x) (p.from_canonical 0)).1 (inr p.from_zero)
      ∙ sym p.from_zero
      ∙ ap p.from_canonical (omega arith)
  times_digit x (suc zero) small =
      ap (p.times (p.from_canonical x)) p.from_one
      ∙ p.times_one (p.from_canonical x)
      ∙ ap p.from_canonical (omega arith)
  times_digit x (suc (suc k)) small = absurd (omega arith)

  -- What `assert_bool` says.
  pub digit_of :
      (x : F)
      → p.times x (p.minus x p.field_one) ≡ p.field_zero
      → (k : ℕ) × (k ≤ 1) × (x ≡ p.from_canonical k)
  digit_of x e = elim ((p.times_iff x (p.minus x p.field_one)).0 e) [
    | inl unset ↦ (0, omega arith, unset ∙ sym p.from_zero)
    | inr set ↦ (1, omega arith, minus_zero x p.field_one set ∙ sym p.from_one)
  ]

  pub zero_times : (x : F) → p.times p.field_zero x ≡ p.field_zero
  zero_times x = (p.times_iff p.field_zero x).1 (inl refl)

  pub times_zero : (x : F) → p.times x p.field_zero ≡ p.field_zero
  times_zero x = (p.times_iff x p.field_zero).1 (inr refl)

  pub one_times : (x : F) → p.times p.field_one x ≡ x
  one_times x = p.times_comm p.field_one x ∙ p.times_one x

  pub zero_plus : (x : F) → p.plus p.field_zero x ≡ x
  zero_plus x = p.plus_comm p.field_zero x ∙ p.plus_zero x

  pub minus_zero_right : (x : F) → p.minus x p.field_zero ≡ x
  minus_zero_right x = (p.minus_iff x p.field_zero x).1 (sym (zero_plus x))

  pub one_zero : p.field_one ≢ p.field_zero
  one_zero e = absurd (
      omega (
        arith,
        p.from_injective 1 0 (omega arith) (omega arith) (p.from_one ∙ e ∙ sym p.from_zero),
      ))
