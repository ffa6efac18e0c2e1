-- ===== src/Word/Bytes.antt =====
-- Laws of the conversions and of the byte operations of a word.
use valida.Prelude.{ℕ, ◌^◌, ◌<◌, ◌≡◌, arith}
use valida.Word.{Word, IsWord, into_u32, from_u32}

-- Every word has a value below 2 ^ 32.
pub into_u32-lt : (w : Word ℕ) → IsWord w → into_u32 w < 2 ^ 32
unfolding into_u32
into_u32-lt w h = omega arith

pub from_u32-IsWord : (v : ℕ) → IsWord (from_u32 v)
unfolding from_u32
from_u32-IsWord v = omega arith

-- A 32-bit value survives the way through its bytes.
pub into_u32-from_u32 : (v : ℕ) → v < 2 ^ 32 → into_u32 (from_u32 v) ≡ v
unfolding into_u32 from_u32
into_u32-from_u32 v h = omega arith

-- A word of four bytes is the word of its value.
pub from_u32-into_u32 : (w : Word ℕ) → IsWord w → from_u32 (into_u32 w) ≡ w
unfolding into_u32 from_u32
from_u32-into_u32 w h = ground arith

pub into_u32-injective : (w v : Word ℕ) → IsWord w → IsWord v → into_u32 w ≡ into_u32 v → w ≡ v
unfolding into_u32
into_u32-injective w v h k e = ground arith
