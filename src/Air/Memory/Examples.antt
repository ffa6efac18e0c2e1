-- ===== src/Air/Memory/Examples.antt =====
-- An example of the memory's trace: two cells, of which one is static, over two cycles.
use valida.Prelude.{[], ◌∷◌, refl, arith}
use valida.Prelude.BTreeMap.{get}
use valida.Memory.{MemoryChip, read, write}
use valida.Memory.Log.{IsLogged, history, replay, IsHistory}
use valida.Air.Integers.{integers}
use valida.Air.Memory.{flatten, generate_trace}
use valida.Air.Memory.Order.{IsTrace, generate_trace-IsTrace}
use valida.Examples.{five, seven}

abbrev mem : MemoryChip
mem = record {
  cells = (20, seven) ∷ (24, seven) ∷ [];
  operations =
      (0, write 24 seven ∷ read 20 five ∷ []) ∷ (1, read 24 seven ∷ write 20 seven ∷ []) ∷ [];
  static_data = (20, five) ∷ [];
}

mem-IsLogged : IsLogged 1 mem
unfolding history replay IsHistory get
mem-IsLogged = record {
  sorted = (omega arith, (tt, tt));
  in_time = (omega arith, (omega arith, tt));
  explained = (refl, (refl, tt));
  current = λ addr. ground arith;
}

generate_trace-IsTrace_example : IsTrace integers mem (generate_trace integers mem)
unfolding flatten
generate_trace-IsTrace_example =
    generate_trace-IsTrace integers 1 mem mem-IsLogged (omega arith) (omega arith)
