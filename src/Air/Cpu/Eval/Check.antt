-- ===== src/Air/Cpu/Eval/Check.antt =====
-- cpu/src/stark.rs: the constraints as a test.
use valida.Prelude.{◌≡◌, refl, List, [], ◌∷◌, Bool, true, false, not, ◌&&◌, ◌||◌}
use valida.Air.{PrimeField}
use valida.Air.Cpu.Eval.{
  Filter, all_rows, first_row, transition, last_row, Constraint, Position, Active, HoldAt,
}

unfoldable pub active : Position → Filter → Bool
active position all_rows = true
active position first_row = position.is_first
active position transition = not position.is_last
active position last_row = position.is_last

active-Active : (position : Position) (f : Filter) → Active position f → active position f ≡ true
unfolding active Active
active-Active position all_rows a = refl
active-Active position first_row a = a
active-Active position transition a = rw a refl
active-Active position last_row a = a

both : (a b : Bool) → a && b ≡ true → (a ≡ true) × (b ≡ true)
both true b e = (refl, e)
both false b e = absurd (cc e)

either : (a b : Bool) → not a || b ≡ true → a ≡ true → b ≡ true
either true b e set = e
either false b e set = absurd (cc set)

module _ {F : Type 0} (p : PrimeField F) where
  unfoldable pub met : Position → List (Constraint p) → Bool
  unfolding active
  met position [] = true
  met position (c ∷ cs) = (not (active position c.0) || p.is_zero c.1) && met position cs

  pub met-HoldAt :
      (position : Position) (cs : List (Constraint p))
      → met position cs ≡ true
      → HoldAt p position cs
  unfolding met HoldAt
  met-HoldAt position [] e = tt
  met-HoldAt position (c ∷ cs) e =
      let (here, rest) = both _ (met position cs) e in
      (
        λ a.
            (p.is_zero_iff c.1).0
              (either (active position c.0) (p.is_zero c.1) here (active-Active position c.0 a)),
        met-HoldAt position cs rest,
      )
