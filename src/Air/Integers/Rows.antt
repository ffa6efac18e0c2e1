-- ===== src/Air/Integers/Rows.antt =====
-- Examples of the chips' rows and constraints, over the integers.
use valida.Prelude.{◌+◌, ◌%◌, ◌^◌, ◌≡◌, refl, arith}
use valida.Word.{into_u32, transform}
use valida.Chips.Alu.{add32, sub32}
use valida.Air.Integers.{integers}
use valida.Air.Add as Add
use valida.Air.Add.Rows.{eval_sound}
use valida.Air.Add.Honest.{eval_complete}
use valida.Air.Sub as Sub
use valida.Air.Sub.Borrows.{eval_no_wrap}
use valida.Examples.{five, seven, twelve}

eval_complete_example :
    Add.Holds integers (Add.eval integers (Add.op_to_row integers (add32 twelve five seven)))
unfolding into_u32
eval_complete_example =
    eval_complete integers twelve five seven (omega arith) (omega arith) (omega arith) refl

sum_row-Holds :
    Add.Holds integers (Add.eval integers (Add.op_to_row integers (add32 twelve five seven)))
unfolding into_u32
sum_row-Holds =
    eval_complete integers twelve five seven (omega arith) (omega arith) (omega arith) refl

eval_sound_example : into_u32 twelve ≡ (into_u32 five + into_u32 seven) % 2 ^ 32
unfolding Add.op_to_row
eval_sound_example =
    eval_sound integers (Add.op_to_row integers (add32 twelve five seven)) twelve five seven
      (omega arith) (omega arith) (omega arith) refl refl refl sum_row-Holds

difference_row-Holds :
    Sub.Holds integers (Sub.eval integers (Sub.op_to_row integers (sub32 seven twelve five)))
unfolding Sub.Holds Sub.eval Sub.op_to_row integers transform
difference_row-Holds = (refl, (refl, (refl, (refl, (refl, (refl, (refl, tt)))))))

eval_no_wrap_example : into_u32 twelve ≡ into_u32 five + into_u32 seven
unfolding Sub.op_to_row
eval_no_wrap_example =
    eval_no_wrap integers (Sub.op_to_row integers (sub32 seven twelve five)) seven twelve five
      (omega arith) (omega arith) (omega arith) refl refl refl difference_row-Holds
