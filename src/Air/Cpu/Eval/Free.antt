-- ===== src/Air/Cpu/Eval/Free.antt =====
-- cpu/src/stark.rs: the rows after which the constraints leave the next `pc` free.
use valida.Prelude.{◌≡◌, ◌∙◌, refl, ap}
use valida.Chips.Cpu.{Operation}
use valida.Chips.Cpu.Operation.{store32, storeu8, load32, loadu8, loads8}
use valida.Air.{PrimeField, zero_times}
use valida.Air.Cpu.{CpuCols, OpcodeFlagCols}
use valida.Air.Cpu.Trace.{flags_of, zero_flags}
use valida.Air.Cpu.Eval.{Position, HoldAt, should_increment_pc, eval_pc, eval_fp, eval_clock, eval}
use valida.Air.Cpu.Eval.Sound.{separate, whole}

-- The operations of loads and stores.
pub data IsLoadStore : Operation → Type 0 where
  is_store32 : IsLoadStore store32
  is_storeu8 : IsLoadStore storeu8
  is_load32 : IsLoadStore load32
  is_loadu8 : IsLoadStore loadu8
  is_loads8 : IsLoadStore loads8

module _ {F : Type 0} (p : PrimeField F) where
  -- No flag of the constraints on `pc` is set.
  record Unset (r : CpuCols F) : Type 0 where
    no_increment : should_increment_pc p r ≡ p.field_zero
    no_beq : r.opcode_flags.is_beq ≡ p.field_zero
    no_bne : r.opcode_flags.is_bne ≡ p.field_zero
    no_jal : r.opcode_flags.is_jal ≡ p.field_zero
    no_jalv : r.opcode_flags.is_jalv ≡ p.field_zero
    no_stop : r.opcode_flags.is_stop ≡ p.field_zero

  no_sum :
      p.plus (p.plus (p.plus p.field_zero p.field_zero) p.field_zero) p.field_zero ≡ p.field_zero
  no_sum = p.plus_zero _ ∙ p.plus_zero _ ∙ p.plus_zero _

  -- The flags, less those of loads and stores.
  others : OpcodeFlagCols F → OpcodeFlagCols F
  others f = record f {
    is_load = p.field_zero;
    is_load_u8 = p.field_zero;
    is_load_s8 = p.field_zero;
    is_store = p.field_zero;
    is_store_u8 = p.field_zero;
  }

  others-flags_of : {op : Operation} → IsLoadStore op → others (flags_of p op) ≡ zero_flags p
  unfolding others
  others-flags_of is_store32 = refl
  others-flags_of is_storeu8 = refl
  others-flags_of is_load32 = refl
  others-flags_of is_loadu8 = refl
  others-flags_of is_loads8 = refl

  unset :
      (op : Operation) (r : CpuCols F) → IsLoadStore op → r.opcode_flags ≡ flags_of p op → Unset r
  unfolding should_increment_pc others
  unset op r kind flags =
      let e : others r.opcode_flags ≡ zero_flags p = ap others flags ∙ others-flags_of kind in
      record {
        no_increment =
            ap (λ f. p.plus (p.plus (p.plus f.is_imm32 f.is_loadfp) f.is_bus_op) f.is_advice) e
            ∙ no_sum;
        no_beq = ap (λ f. f.is_beq) e;
        no_bne = ap (λ f. f.is_bne) e;
        no_jal = ap (λ f. f.is_jal) e;
        no_jalv = ap (λ f. f.is_jalv) e;
        no_stop = ap (λ f. f.is_stop) e;
      }

  off : (c x : F) → c ≡ p.field_zero → p.times c x ≡ p.field_zero
  off c x e = ap (λ t. p.times t x) e ∙ zero_times p x

  module _ (local next : CpuCols F) (position : Position) (u : Unset local) (pc : F) where
    pc_met : HoldAt p position (eval_pc p local (record next { pc = pc }))
    unfolding eval_pc HoldAt
    pc_met = (
      λ a. off _ _ u.no_increment,
      (
        λ a. off _ _ u.no_beq,
        (λ a. off _ _ u.no_bne, (λ a. off _ _ u.no_jal, (λ a. off _ _ u.no_jalv, tt))),
      ),
    )

    clock_met :
        HoldAt p position (eval_clock p local next)
        → HoldAt p position (eval_clock p local (record next { pc = pc }))
    unfolding eval_clock HoldAt
    clock_met h = (
      h.0,
      (h.1.0, (h.1.1.0, (h.1.1.1.0, (h.1.1.1.1.0, (λ a. off _ _ u.no_stop, h.1.1.1.1.1.1))))),
    )

  -- Where a row with the flag of a load or of a store satisfies the constraints with a next row,
  -- it satisfies them with that row and any other pc.
  pub load_store_free :
      (op : Operation) (local next : CpuCols F) (position : Position) (pc : F)
      → IsLoadStore op
      → local.opcode_flags ≡ flags_of p op
      → HoldAt p position (eval p local next)
      → HoldAt p position (eval p local (record next { pc = pc }))
  unfolding eval_fp
  load_store_free op local next position pc kind flags h =
      let u = unset op local kind flags in
      let parts = separate p local next position h in
      whole p local (record next { pc = pc }) position
        (record {
          pcs = pc_met local next position u pc;
          fps = parts.fps;
          tests = parts.tests;
          channels = parts.channels;
          clocks = clock_met local next position u pc parts.clocks;
        })
