-- ===== src/Refine/Alu.antt =====
-- The arithmetic instructions, the comparisons and the output refine the specification's.
pub mod Laws
pub mod Instructions
use valida.Prelude.{
  ℕ, ◌+◌, ◌-◌, ◌*◌, ◌/◌, ◌%◌, ◌^◌, ◌<◌, ◌≡◌, refl, ap, ◌∙◌, arith, Option, none, some, Outcome, ok,
  panic, Bool, true, false, ◌==◌, if◌then◌else◌, not, to_option, map_outcome, ltb, leb,
}
use valida.Word.{Word, IsWord, into_u32, from_u32}
use valida.Word.Bytes.{from_u32-IsWord, into_u32-from_u32}
use valida.Word.Ordering.{eq, ne, lt, le}
use valida.Opcode.{Opcode}
use valida.Program.{Operands, IsOperands}
use valida.Chips.Cpu.{CpuChip}
use valida.Machine.{BasicMachine, M, ◌>>=◌, ◌>>◌}
use valida.Machine.Exec.Alu
use valida.Machine.Exec.Alu.{Recorder, binary_op, total}
use valida.Machine.Exec.Compare
use valida.Machine.Exec.Compare.{order_op, flag}
use valida.Machine.Exec.Write.{write_output}
use valida.Isa
use valida.Isa.Ops as IsaOps
use valida.Refine.{Refines}
use valida.Refine.Rules.{Refines-regs, Refines-read, Refines-write}
use valida.Refine.Operands.{Refines-second, Refines-first, Refines-lift}
use valida.Refine.Ends.{
  IsSilent, Refines-silent, Refines-push_bus_op_check, Refines-push_bus_op_end, Refines-push_bus_op,
  Refines-push_output, Refines-assert, Refines-assert_end,
}

-- The word operation gives words, and computes `g` on their values.
pub record Computes (f : Word ℕ → Word ℕ → Outcome (Word ℕ)) (g : ℕ → ℕ → Option ℕ) : Type 0 where
  pub gives_word : (b c a : Word ℕ) → IsWord b → IsWord c → f b c ≡ ok a → IsWord a
  pub computes :
      (b c : Word ℕ)
      → IsWord b
      → IsWord c
      → to_option (map_outcome into_u32 (f b c)) ≡ g (into_u32 b) (into_u32 c)

pub binary_op-Refines :
    (op : Opcode) (f : Word ℕ → Word ℕ → Outcome (Word ℕ)) (g : ℕ → ℕ → Option ℕ)
    (record_op : Recorder) (check : Word ℕ → M (Unit {0}))
    → Computes f g
    → ((a b c : Word ℕ) → IsSilent (record_op a b c))
    → ((a : Word ℕ) → Refines (check a) Isa.done)
    → (ops : Operands) → IsOperands ops
    → Refines (binary_op op f record_op check ops) (IsaOps.alu g ops)
unfolding binary_op IsaOps.alu
binary_op-Refines op f g record_op check law silent ends ops fits = Refines-regs _ _ λ c.
    Refines-read _ _ _ _ λ x hx.
      Refines-second _ _ _ _ _
        (λ y i hy. Refines-lift _ _ (f x y) _ (law.computes x y hx hy) λ a e.
          Refines-write _ _ _ _ _ _ (law.gives_word x y a hx hy e) refl
            (Refines-silent _ (silent a x y) _ _ (Refines-push_bus_op_check _ _ _ _ (ends a))))
        fits.fits_c

pub into_u32-flag : (t : Bool) → into_u32 (flag t) ≡ (if t then 1 else 0)
into_u32-flag true = into_u32-from_u32 1 (omega arith)
into_u32-flag false = into_u32-from_u32 0 (omega arith)

last_byte : (x : Word ℕ) → IsWord x → x.byte_3 ≡ into_u32 x % 2 ^ 8
unfolding into_u32
last_byte x h = omega arith

-- A comparison's test on words, and on their values.
pub order_op-Refines :
    (op : Opcode) (test : Word ℕ → Word ℕ → Bool) (value_test : ℕ → ℕ → Bool) (record_op : Recorder)
    → ((x y : Word ℕ) → IsWord x → IsWord y → test x y ≡ value_test (into_u32 x) (into_u32 y))
    → ((a b c : Word ℕ) → IsSilent (record_op a b c))
    → (ops : Operands) → IsOperands ops
    → Refines (order_op op test record_op ops) (IsaOps.compare_op value_test ops)
unfolding order_op IsaOps.compare_op
order_op-Refines op test value_test record_op law silent ops fits = Refines-regs _ _ λ c.
    Refines-first _ _ _ _ _
      (λ x i hx.
        Refines-second _ _ _ _ _
          (λ y j hy.
            Refines-write _ _ _ _ _ _ (from_u32-IsWord _)
              (into_u32-flag (test x y) ∙ ap (λ t. if t then 1 else 0) (law x y hx hy))
              (Refines-silent _ (silent _ x y) _ _ (Refines-push_bus_op_end _ _ _)))
          fits.fits_c)
      fits.fits_b

pub write_output-Refines : (ops : Operands) → Refines (write_output ops) (IsaOps.write_output ops)
unfolding write_output IsaOps.write_output
write_output-Refines ops = Refines-regs _ _ λ c. Refines-read _ _ _ _ λ x hx.
    Refines-push_output _ _ _ _ _ (last_byte x hx)
      (Refines-push_bus_op _ _ _ _ _ (Refines-assert _ _ _ (Refines-assert_end _)))
