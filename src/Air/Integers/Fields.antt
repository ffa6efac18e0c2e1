-- ===== src/Air/Integers/Fields.antt =====
-- Examples of the chips of the native field and of the output, over the integers.
use valida.Prelude.{ℕ, ◌≡◌, ◌↔◌, refl, arith, [], ◌∷◌}
use valida.Prelude.Int.{ℤ, pos, negsuc}
use valida.Word.{into_u32}
use valida.Air.Equality.{AllZero}
use valida.Air.Integers.{integers}
use valida.Air.NativeField.{add, op_to_row, eval, native, result}
use valida.Air.NativeField.Rows.{op_to_row-AllZero}
use valida.Chips.Output.{OutputChip}
use valida.Air.Output.{generate_trace}
use valida.Air.Output.Rows.{Traced, real_values-generate_trace}
use valida.Examples.{five, seven, twelve}

abbrev as_canonical_u32 : ℤ → ℕ
as_canonical_u32 (pos n) = n
as_canonical_u32 (negsuc n) = 0

op_to_row-AllZero_example :
    (AllZero integers (eval integers (op_to_row integers (add twelve five seven)))
      ↔ (integers.from_canonical (into_u32 twelve) ≡ native integers (add twelve five seven)))
    × AllZero integers (
        eval integers (
          op_to_row integers
            (add (result integers as_canonical_u32 (add twelve five seven)) five seven)))
unfolding integers into_u32
op_to_row-AllZero_example =
    op_to_row-AllZero integers as_canonical_u32 (add twelve five seven) refl (omega arith)

-- The letters A and B, written in the cycles 3 and 9.
abbrev two_letters : OutputChip
two_letters = (3, 65) ∷ (9, 66) ∷ []

real_values-generate_trace_example :
    Traced integers two_letters (generate_trace integers two_letters)
real_values-generate_trace_example =
    real_values-generate_trace integers two_letters (omega arith) (omega arith)
