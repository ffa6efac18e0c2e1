-- ===== src/Assembler/Fits.antt =====
-- assembler/src/lib.rs: the operands that are resolved are `i32` bit patterns.
use valida.Prelude.{
  ℕ, ◌+◌, ◌-◌, ◌^◌, ◌<◌, ◌≤◌, ◌≡◌, ok-injective, or_panic-some, bind_inv, ◌∙◌, sym, ap, arith, List,
  [], ◌∷◌, some, Bool, true, false, Bool-cases, Option-cases, inl, inr, ok, All, ◌==◌, leb,
}
use mathlib.Core.List.{reverse}
use valida.Assembler.Layout.{Fits}
use valida.Assembler.{
  Text, Labels, Inner, whitespace, operand, Pair, label, instruction, other, get_label, first_pass,
  in_range, signed_digits, parse_i32, resolve, resolve_all, same, drop_fp, ends_with_fp, digits,
}

of_some : (v w : ℕ) → some v ≡ some w → v ≡ w
of_some v w e = cc e

leb→le : (a b : ℕ) → leb a b ≡ true → a ≤ b
leb→le a b e = ground arith

abbrev pub LabelsFit : Labels → Type 0
LabelsFit = All (λ l. l.1 < 2 ^ 32)

in_range-fits : (negative : Bool) (n v : ℕ) → in_range negative n ≡ some v → v < 2 ^ 32
unfolding in_range
in_range-fits true n v e = elim (Bool-cases (leb n (2 ^ 31))) [
  | inl within ↦ omega (arith, of_some _ _ (rw within at e))
  | inr over ↦ absurd (cc (rw over at e))
]
in_range-fits false n v e = elim (Bool-cases (leb n (2 ^ 31 - 1))) [
  | inl within ↦ omega (arith, of_some _ _ (rw within at e), leb→le n _ within)
  | inr over ↦ absurd (cc (rw over at e))
]

signed_digits-fits :
    (negative : Bool) (text : Text) (v : ℕ) → signed_digits negative text ≡ some v → v < 2 ^ 32
unfolding signed_digits
signed_digits-fits negative [] v e = absurd (cc e)
signed_digits-fits negative (c ∷ cs) v e = elim (Option-cases (digits 0 (c ∷ cs))) [
  | inl bad ↦ absurd (cc (rw (bad, signed_digits) at e))
  | inr (n, good) ↦ in_range-fits negative n v (rw (good, signed_digits) at e)
]

parse_i32-fits : (text : Text) (v : ℕ) → parse_i32 text ≡ some v → v < 2 ^ 32
unfolding parse_i32
parse_i32-fits [] v e = absurd (cc e)
parse_i32-fits (c ∷ cs) v e = elim (Bool-cases (c == b'-')) [
  | inl minus ↦ signed_digits-fits true cs v (rw minus at e)
  | inr no_minus ↦ elim (Bool-cases (c == b'+')) [
    | inl plus ↦ signed_digits-fits false cs v (rw (no_minus, plus) at e)
    | inr no_plus ↦ signed_digits-fits false (c ∷ cs) v (rw (no_minus, no_plus) at e)
  ]
]

get_label-fits :
    (name : Text) (labels : Labels) (v : ℕ)
    → LabelsFit labels
    → get_label name labels ≡ some v
    → v < 2 ^ 32
unfolding get_label
get_label-fits name [] v h e = absurd (cc e)
get_label-fits name ((k, w) ∷ labels) v h e = elim (Bool-cases (same name k)) [
  | inl found ↦ omega (arith, h.0, of_some _ _ (rw found at e))
  | inr next ↦ get_label-fits name labels v h.1 (rw next at e)
]

pub first_pass-fits :
    (pairs : List Pair) (pc : ℕ) (labels : Labels)
    → LabelsFit labels
    → LabelsFit (first_pass pairs pc labels)
unfolding first_pass
first_pass-fits [] pc labels h = h
first_pass-fits (label text ∷ pairs) pc labels h = first_pass-fits pairs pc _ (omega arith, h)
first_pass-fits (instruction m inner ∷ pairs) pc labels h = first_pass-fits pairs (pc + 1) labels h
first_pass-fits (other ∷ pairs) pc labels h = first_pass-fits pairs pc labels h

resolve-fits :
    (labels : Labels) (text : Text) (v : ℕ)
    → LabelsFit labels
    → resolve labels text ≡ ok v
    → v < 2 ^ 32
unfolding resolve
resolve-fits labels text v h e = elim (Bool-cases (ends_with_fp (reverse text))) [
  | inl fp ↦ parse_i32-fits (reverse (drop_fp (reverse text))) v (or_panic-some _ _ v (rw fp at e))
  | inr plain ↦ elim (Option-cases (get_label text labels)) [
    | inl missing ↦ parse_i32-fits text v (or_panic-some _ _ v (rw (plain, missing) at e))
    | inr (w, found) ↦
        get_label-fits text labels v h (found ∙ ap some (ok-injective _ _ (rw (plain, found) at e)))
  ]
]

pub resolve_all-Fits :
    (labels : Labels) (inner : List Inner) (vs : List ℕ)
    → LabelsFit labels
    → resolve_all labels inner ≡ ok vs
    → Fits vs
unfolding resolve_all
resolve_all-Fits labels [] vs h e = rw (sym (ok-injective _ _ e)) tt
resolve_all-Fits labels (whitespace ∷ inner) vs h e = resolve_all-Fits labels inner vs h e
resolve_all-Fits labels (operand text ∷ inner) vs h e =
    let (v, e1, e2) = bind_inv (resolve labels text) _ vs e in
    let (ws, e3, e4) = bind_inv (resolve_all labels inner) _ vs e2 in
    rw (sym (ok-injective _ _ e4))
      (resolve-fits labels text v h e1, resolve_all-Fits labels inner ws h e3)
