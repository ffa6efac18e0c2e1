-- ===== src/Refine/Core/Bytes.antt =====
-- The bytes of a word as digits of its value.
use valida.Prelude.{
  ℕ, zero, suc, ◌^◌, ◌<◌, ◌≡◌, refl, arith, Option, some, or_panic, index_out_of_bounds,
}
use valida.Word.{
  Word, IsWord, into_u32, index, update_byte, zero_extend_byte, sign_extend_byte, index_of_byte,
}
use valida.Machine.{M, lift, ◌>>=◌}
use valida.Isa.{Isa}
use valida.Isa.Ops.{byte_of, with_byte, zero_extend, sign_extend}
use valida.Refine.{Refines}

pub index_of_byte-lt : (addr : ℕ) → index_of_byte addr < 4
unfolding index_of_byte
index_of_byte-lt addr = omega arith

-- An index below 4 finds the digit of the word's value.
pub index_total :
    (w : Word ℕ) (i : ℕ)
    → IsWord w
    → i < 4
    → (b : ℕ) × (index w i ≡ some b) × (b ≡ byte_of (into_u32 w) i) × (b < 2 ^ 8)
unfolding index into_u32
index_total w zero h k = (w.byte_0, refl, omega arith, h.fits_0)
index_total w (suc zero) h k = (w.byte_1, refl, omega arith, h.fits_1)
index_total w (suc (suc zero)) h k = (w.byte_2, refl, omega arith, h.fits_2)
index_total w (suc (suc (suc zero))) h k = (w.byte_3, refl, omega arith, h.fits_3)
index_total w (suc (suc (suc (suc i)))) h k = absurd (omega arith)

pub update_byte_total :
    (w : Word ℕ) (b i : ℕ)
    → IsWord w
    → b < 2 ^ 8
    → i < 4
    → (v : Word ℕ) × (update_byte w b i ≡ some v)
      × IsWord v
      × (into_u32 v ≡ with_byte (into_u32 w) i b)
unfolding update_byte into_u32
update_byte_total w b zero h f k = (record w { byte_0 = b }, refl, omega arith, omega arith)
update_byte_total w b (suc zero) h f k = (record w { byte_1 = b }, refl, omega arith, omega arith)
update_byte_total w b (suc (suc zero)) h f k =
    (record w { byte_2 = b }, refl, omega arith, omega arith)
update_byte_total w b (suc (suc (suc zero))) h f k =
    (record w { byte_3 = b }, refl, omega arith, omega arith)
update_byte_total w b (suc (suc (suc (suc i)))) h f k = absurd (omega arith)

-- How a byte becomes a word, in the code and in the specification.
pub record Extends (extend : ℕ → Word ℕ) (extend_value : ℕ → ℕ) : Type 0 where
  pub extend-IsWord : (b : ℕ) → b < 2 ^ 8 → IsWord (extend b)
  pub extend-value : (b : ℕ) → into_u32 (extend b) ≡ extend_value b

pub zero_extend-Extends : Extends zero_extend_byte zero_extend
unfolding zero_extend_byte zero_extend into_u32
zero_extend-Extends = record { extend-IsWord = λ b h. omega arith; extend-value = λ b. omega arith }

pub sign_extend-Extends : Extends sign_extend_byte sign_extend
unfolding sign_extend_byte sign_extend into_u32
sign_extend-Extends = record {
  extend-IsWord = λ b h. ground arith;
  extend-value = λ b. ground arith;
}

-- A lookup that succeeds has no counterpart in the specification.
pub Refines-found :
    {A : Type 0} (f : A → M (Unit {0})) (n : Isa (Unit {0})) (o : Option A) (a : A)
    → o ≡ some a
    → Refines (f a) n
    → Refines (lift (or_panic index_out_of_bounds o) >>= f) n
unfolding lift ◌>>=◌
Refines-found f n o a e r = record { agrees = λ s wf. rw e (r.agrees s wf) }
