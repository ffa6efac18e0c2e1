-- ===== src/Assembler/Layout.antt =====
-- assembler/src/lib.rs: the operands of an instruction and the zeros among them.
use valida.Prelude.{
  ℕ, suc, ◌^◌, ◌<◌, ◌≡◌, refl, arith, List, [], ◌∷◌, Option, none, some, ok, All, length,
}
use valida.Program.{Operands, IsOperands}
use valida.Assembler.Tables.{Shape}
use valida.Assembler.{insert_zeros}

-- How many operands a mnemonic takes.
abbrev pub takes : Shape → ℕ
takes Shape.zero_b = 2
takes Shape.zero_a = 2
takes Shape.all_given = 5
takes Shape.none_given = 0
takes Shape.three_given = 3
takes Shape.immediate = 3
takes Shape.one_given = 1

-- The five operands of an instruction, from those that are given.
unfoldable pub layout : Shape → List ℕ → Option Operands
layout Shape.zero_b (a ∷ c ∷ []) = some (record { a = a; b = 0; c = c; d = 0; e = 0 })
layout Shape.zero_a (b ∷ c ∷ []) = some (record { a = 0; b = b; c = c; d = 0; e = 0 })
layout Shape.all_given (a ∷ b ∷ c ∷ d ∷ e ∷ []) =
    some (record { a = a; b = b; c = c; d = d; e = e })
layout Shape.none_given [] = some (record { a = 0; b = 0; c = 0; d = 0; e = 0 })
layout Shape.three_given (a ∷ b ∷ c ∷ []) = some (record { a = a; b = b; c = c; d = 0; e = 0 })
layout Shape.immediate (a ∷ b ∷ c ∷ []) = some (record { a = a; b = b; c = c; d = 0; e = 1 })
layout Shape.one_given (a ∷ []) = some (record { a = a; b = 0; c = 0; d = 0; e = 0 })
layout _ _ = none

abbrev pub Fits : List ℕ → Type 0
Fits = All (λ v. v < 2 ^ 32)

abbrev pub listed : Operands → List ℕ
listed ops = ops.a ∷ ops.b ∷ ops.c ∷ ops.d ∷ ops.e ∷ []

uncons :
    (n : ℕ) (vs : List ℕ)
    → length vs ≡ suc n
    → (v : ℕ) × (rest : List ℕ) × (vs ≡ v ∷ rest) × (length rest ≡ n)
uncons n [] e = absurd (omega arith)
uncons n (v ∷ vs) e = (v, vs, refl, omega arith)

empty : (vs : List ℕ) → length vs ≡ 0 → vs ≡ []
empty [] e = refl
empty (v ∷ vs) e = absurd (omega arith)

pub record LaidOut (shape : Shape) (vs : List ℕ) : Type 0 where
  pub ops : Operands
  pub laid : layout shape vs ≡ some ops
  pub inserted : insert_zeros shape vs ≡ ok (listed ops)
  pub fits : Fits vs → IsOperands ops

pub laid_out : (shape : Shape) (vs : List ℕ) → length vs ≡ takes shape → LaidOut shape vs
unfolding layout insert_zeros
laid_out Shape.zero_b vs e =
    let (a, r, e1, l1) = uncons 1 vs e in
    let (c, s, e2, l2) = uncons 0 r l1 in
    rw (e1, e2, empty s l2)
      (record { ops = _; laid = refl; inserted = refl; fits = λ h. omega (arith, h.0, h.1.0) })
laid_out Shape.zero_a vs e =
    let (b, r, e1, l1) = uncons 1 vs e in
    let (c, s, e2, l2) = uncons 0 r l1 in
    rw (e1, e2, empty s l2)
      (record { ops = _; laid = refl; inserted = refl; fits = λ h. omega (arith, h.0, h.1.0) })
laid_out Shape.all_given vs e =
    let (a, r, e1, l1) = uncons 4 vs e in
    let (b, s, e2, l2) = uncons 3 r l1 in
    let (c, t, e3, l3) = uncons 2 s l2 in
    let (d, u, e4, l4) = uncons 1 t l3 in
    let (f, v, e5, l5) = uncons 0 u l4 in
    rw (e1, e2, e3, e4, e5, empty v l5)
      (record {
        ops = _;
        laid = refl;
        inserted = refl;
        fits = λ h. omega (arith, h.0, h.1.0, h.1.1.0, h.1.1.1.0, h.1.1.1.1.0);
      })
laid_out Shape.none_given vs e =
    rw (empty vs e) (record { ops = _; laid = refl; inserted = refl; fits = λ h. omega arith })
laid_out Shape.three_given vs e =
    let (a, r, e1, l1) = uncons 2 vs e in
    let (b, s, e2, l2) = uncons 1 r l1 in
    let (c, t, e3, l3) = uncons 0 s l2 in
    rw (e1, e2, e3, empty t l3)
      (record {
        ops = _;
        laid = refl;
        inserted = refl;
        fits = λ h. omega (arith, h.0, h.1.0, h.1.1.0);
      })
laid_out Shape.immediate vs e =
    let (a, r, e1, l1) = uncons 2 vs e in
    let (b, s, e2, l2) = uncons 1 r l1 in
    let (c, t, e3, l3) = uncons 0 s l2 in
    rw (e1, e2, e3, empty t l3)
      (record {
        ops = _;
        laid = refl;
        inserted = refl;
        fits = λ h. omega (arith, h.0, h.1.0, h.1.1.0);
      })
laid_out Shape.one_given vs e =
    let (a, r, e1, l1) = uncons 0 vs e in
    rw (e1, empty r l1)
      (record { ops = _; laid = refl; inserted = refl; fits = λ h. omega (arith, h.0) })
