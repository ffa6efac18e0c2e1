-- ===== src/Chips/Advice.antt =====
-- machine/src/advice.rs: the advice tape. The provider is a type with one method; the fixed
-- provider reads a list of bytes.
use valida.Prelude.{ℕ, ◌+◌, List, Option, none, get_elem?, length, ltb, if◌then◌else◌}

pub record AdviceProvider (Adv : Type 0) : Type 0 where
  pub get_advice : Adv → Option ℕ × Adv

pub record FixedAdviceProvider : Type 0 where
  pub advice : List ℕ
  pub index : ℕ

unfoldable pub new : List ℕ → FixedAdviceProvider
new advice = record { advice = advice; index = 0 }

-- The index is checked before the byte is read.
unfoldable pub get_fixed : FixedAdviceProvider → Option ℕ × FixedAdviceProvider
get_fixed p =
    if ltb p.index (length p.advice)
    then (get_elem? p.advice p.index, record p { index = p.index + 1 })
    else (none, p)

instance abbrev pub fixed_advice : AdviceProvider FixedAdviceProvider
fixed_advice = record { get_advice = get_fixed }
