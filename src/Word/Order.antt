-- ===== src/Word/Order.antt =====
-- The byte-wise comparisons of two words order them by value.
use valida.Prelude.{ℕ, ◌≡◌, arith, ltb, leb, ◌==◌}
use valida.Word.{Word, IsWord, into_u32}
use valida.Word.Ordering.{eq, lt, le}

pub eq-into_u32 : (b c : Word ℕ) → IsWord b → IsWord c → eq b c ≡ (into_u32 b == into_u32 c)
unfolding eq into_u32
eq-into_u32 b c h k = ground arith

-- The lexicographic comparison of the bytes of two words is the comparison of their values.
pub lt-into_u32 : (b c : Word ℕ) → IsWord b → IsWord c → lt b c ≡ ltb (into_u32 b) (into_u32 c)
unfolding lt into_u32
lt-into_u32 b c h k = ground arith

pub le-into_u32 : (b c : Word ℕ) → IsWord b → IsWord c → le b c ≡ leb (into_u32 b) (into_u32 c)
unfolding le into_u32
le-into_u32 b c h k = ground arith
