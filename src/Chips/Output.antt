-- ===== src/Chips/Output.antt =====
-- output/src/lib.rs: the output chip's list of clock cycles and bytes.
use valida.Prelude.{ℕ, List, map}

abbrev pub OutputChip : Type 0
OutputChip = List (ℕ × ℕ)

unfoldable pub bytes : OutputChip → List ℕ
bytes = map (λ v. v.1)
