-- ===== src/Air/Inverse.antt =====
-- util/src/lib.rs: the inverses of a batch of field elements. The inverses of the elements that are
-- not zero come from the proof system's library, as the parameter `batch_multiplicative_inverse`.
pub mod Batch
use valida.Prelude.{
  ℕ, suc, ◌+◌, List, [], ◌∷◌, Outcome, ok, panic, index_out_of_bounds, set, if◌then◌else◌,
}
use valida.Air.{PrimeField}

module _ {F : Type 0} (p : PrimeField F) where
  -- The first loop: the values that are not zero, and where they stand from `i`.
  unfoldable pub nonzero_values : List F → List F
  nonzero_values [] = []
  nonzero_values (value ∷ values) =
      let rest = nonzero_values values in if p.is_zero value then rest else value ∷ rest

  unfoldable pub indices : ℕ → List F → List ℕ
  indices i [] = []
  indices i (value ∷ values) =
      let rest = indices (suc i) values in if p.is_zero value then rest else i ∷ rest

  -- The last loop: `result[index] = inverse_nonzero_values[i]`.
  unfoldable pub reconstruct : List F → List ℕ → List F → Outcome (List F)
  reconstruct result [] inverses = ok result
  reconstruct result (index ∷ indices) [] = panic index_out_of_bounds
  reconstruct result (index ∷ indices) (inverse ∷ inverses) =
      reconstruct (set result index inverse) indices inverses

  unfoldable pub batch_multiplicative_inverse_allowing_zero :
      (List F → List F) → List F → Outcome (List F)
  unfolding nonzero_values indices reconstruct
  batch_multiplicative_inverse_allowing_zero batch_multiplicative_inverse values =
      reconstruct values (indices 0 values) (batch_multiplicative_inverse (nonzero_values values))
