-- ===== src/Air/Integers/Arith.antt =====
-- The operations of the integers, with the laws that a field shares.
use valida.Prelude.{
  ℕ, zero, suc, ◌+◌, ◌-◌, ◌*◌, ◌≡◌, ◌↔◌, ◌⊎◌, inl, inr, refl, ap, sym, ◌∙◌, arith, ltb,
  if◌then◌else◌, Bool-cases, ltb→lt, ltb→le, ◌==◌, ==_iff, Bool, true, false,
}
use valida.Prelude.Int.{ℤ, pos, negsuc}
use mathlib.Core.Path.{ap₂}

-- `a - b`
abbrev difference : ℕ → ℕ → ℤ
difference a b = if ltb a b then negsuc (b - a - 1) else pos (a - b)

abbrev pub plus : ℤ → ℤ → ℤ
plus (pos a) (pos b) = pos (a + b)
plus (pos a) (negsuc b) = difference a (b + 1)
plus (negsuc a) (pos b) = difference b (a + 1)
plus (negsuc a) (negsuc b) = negsuc (a + b + 1)

abbrev opposite : ℤ → ℤ
opposite (pos a) = difference 0 a
opposite (negsuc a) = pos (a + 1)

abbrev pub minus : ℤ → ℤ → ℤ
minus x y = plus x (opposite y)

abbrev pub times : ℤ → ℤ → ℤ
times (pos a) (pos b) = pos (a * b)
times (pos a) (negsuc b) = difference 0 (a * (b + 1))
times (negsuc a) (pos b) = difference 0 ((a + 1) * b)
times (negsuc a) (negsuc b) = pos ((a + 1) * (b + 1))

pub plus_assoc : (x y z : ℤ) → plus (plus x y) z ≡ plus x (plus y z)
plus_assoc (pos a) (pos b) (pos c) = ground arith
plus_assoc (pos a) (pos b) (negsuc c) = ground arith
plus_assoc (pos a) (negsuc b) (pos c) = ground arith
plus_assoc (pos a) (negsuc b) (negsuc c) = ground arith
plus_assoc (negsuc a) (pos b) (pos c) = ground arith
plus_assoc (negsuc a) (pos b) (negsuc c) = ground arith
plus_assoc (negsuc a) (negsuc b) (pos c) = ground arith
plus_assoc (negsuc a) (negsuc b) (negsuc c) = ground arith

pub plus_comm : (x y : ℤ) → plus x y ≡ plus y x
plus_comm (pos a) (pos b) = ground arith
plus_comm (pos a) (negsuc b) = ground arith
plus_comm (negsuc a) (pos b) = ground arith
plus_comm (negsuc a) (negsuc b) = ground arith

pub plus_zero : (x : ℤ) → plus x (pos 0) ≡ x
plus_zero (pos a) = ground arith
plus_zero (negsuc a) = ground arith

pub plus_minus : (x y : ℤ) → plus y (minus x y) ≡ x
plus_minus (pos a) (pos b) = ground arith
plus_minus (pos a) (negsuc b) = ground arith
plus_minus (negsuc a) (pos b) = ground arith
plus_minus (negsuc a) (negsuc b) = ground arith

pub minus_plus : (y z : ℤ) → minus (plus y z) y ≡ z
minus_plus (pos a) (pos b) = ground arith
minus_plus (pos a) (negsuc b) = ground arith
minus_plus (negsuc a) (pos b) = ground arith
minus_plus (negsuc a) (negsuc b) = ground arith

pub pos-injective : (a b : ℕ) → pos a ≡ pos b → a ≡ b
pos-injective a b e = cc e

product_zero : (a b : ℕ) → a * b ≡ 0 → (a ≡ 0) ⊎ (b ≡ 0)
product_zero zero b e = inl refl
product_zero (suc a) zero e = inr refl
product_zero (suc a) (suc b) e = absurd (grind arith)

difference_zero : (a : ℕ) → difference 0 a ≡ pos 0 → a ≡ 0
difference_zero a e = ground arith

pub times_zero : (x y : ℤ) → times x y ≡ pos 0 → (x ≡ pos 0) ⊎ (y ≡ pos 0)
times_zero (pos a) (pos b) e = elim (product_zero a b (pos-injective _ _ e)) [
  | inl z ↦ inl (ap pos z)
  | inr z ↦ inr (ap pos z)
]
times_zero (pos a) (negsuc b) e = elim (product_zero a (b + 1) (difference_zero _ e)) [
  | inl z ↦ inl (ap pos z)
  | inr z ↦ absurd (omega (arith, z))
]
times_zero (negsuc a) (pos b) e = elim (product_zero (a + 1) b (difference_zero _ e)) [
  | inl z ↦ absurd (omega (arith, z))
  | inr z ↦ inr (ap pos z)
]
times_zero (negsuc a) (negsuc b) e = elim (product_zero (a + 1) (b + 1) (pos-injective _ _ e)) [
  | inl z ↦ absurd (omega (arith, z))
  | inr z ↦ absurd (omega (arith, z))
]

zero_times : (y : ℤ) → times (pos 0) y ≡ pos 0
zero_times (pos b) = ground arith
zero_times (negsuc b) = ground arith

times_by_zero : (x : ℤ) → times x (pos 0) ≡ pos 0
times_by_zero (pos a) = ground arith
times_by_zero (negsuc a) = ground arith

pub zero_factor : (x y : ℤ) → (x ≡ pos 0) ⊎ (y ≡ pos 0) → times x y ≡ pos 0
zero_factor x y (inl e) = ap (λ t. times t y) e ∙ zero_times y
zero_factor x y (inr e) = ap (times x) e ∙ times_by_zero x

pub times_one : (x : ℤ) → times x (pos 1) ≡ x
times_one (pos a) = ground arith
times_one (negsuc a) = ground arith

pub times_comm : (x y : ℤ) → times x y ≡ times y x
times_comm (pos a) (pos b) = ground arith
times_comm (pos a) (negsuc b) = ground arith
times_comm (negsuc a) (pos b) = ground arith
times_comm (negsuc a) (negsuc b) = ground arith

plus-difference :
    (a b c d : ℕ) → plus (difference a b) (difference c d) ≡ difference (a + c) (b + d)
plus-difference a b c d = ground arith

difference_pos : (a b k : ℕ) → a ≡ b + k → difference a b ≡ pos k
difference_pos a b k e = ground arith

difference_negsuc : (a b k : ℕ) → b ≡ a + k + 1 → difference a b ≡ negsuc k
difference_negsuc a b k e = ground arith

same_difference : (a b c d : ℕ) → a + d ≡ c + b → difference a b ≡ difference c d
same_difference a b c d e = ground arith

data Sign (a b : ℕ) : Type 0 where
  above : (k : ℕ) → a ≡ b + k → Sign a b
  below : (k : ℕ) → b ≡ a + k + 1 → Sign a b

sign : (a b : ℕ) → Sign a b
sign a b = elim (Bool-cases (ltb a b)) [
  | inl less ↦ below (b - a - 1) (omega (arith, ltb→lt a b less))
  | inr more ↦ above (a - b) (omega (arith, ltb→le a b more))
]

times-difference :
    (a b c d : ℕ)
    → times (difference a b) (difference c d) ≡ difference (a * c + b * d) (a * d + b * c)
times-difference a b c d = elim (sign a b) [
  | above k e ↦ elim (sign c d) [
    | above l f ↦
        rw (difference_pos a b k e, difference_pos c d l f, e, f)
          (sym (difference_pos _ _ (k * l) (omega arith)))
    | below l f ↦
        rw (difference_pos a b k e, difference_negsuc c d l f, e, f)
          (same_difference 0 (k * (l + 1)) _ _ (omega arith))
  ]
  | below k e ↦ elim (sign c d) [
    | above l f ↦
        rw (difference_negsuc a b k e, difference_pos c d l f, e, f)
          (same_difference 0 ((k + 1) * l) _ _ (omega arith))
    | below l f ↦
        rw (difference_negsuc a b k e, difference_negsuc c d l f, e, f)
          (sym (difference_pos _ _ ((k + 1) * (l + 1)) (omega arith)))
  ]
]

as_difference : (x : ℤ) → (a : ℕ) × (b : ℕ) × (x ≡ difference a b)
as_difference (pos a) = (a, 0, sym (difference_pos a 0 a (omega arith)))
as_difference (negsuc a) = (0, a + 1, sym (difference_negsuc 0 (a + 1) a (omega arith)))

times_plus_difference :
    (a b c d g h : ℕ)
    → times (difference a b) (plus (difference c d) (difference g h))
      ≡ plus (times (difference a b) (difference c d)) (times (difference a b) (difference g h))
times_plus_difference a b c d g h =
    ap (times (difference a b)) (plus-difference c d g h)
    ∙ times-difference a b (c + g) (d + h)
    ∙ same_difference (a * (c + g) + b * (d + h)) (a * (d + h) + b * (c + g))
        (a * c + b * d + (a * g + b * h)) (a * d + b * c + (a * h + b * g)) (omega arith)
    ∙ sym (plus-difference (a * c + b * d) (a * d + b * c) (a * g + b * h) (a * h + b * g))
    ∙ sym (ap₂ plus (times-difference a b c d) (times-difference a b g h))

pub times_plus : (x y z : ℤ) → times x (plus y z) ≡ plus (times x y) (times x z)
times_plus x y z =
    let (a, b, e) = as_difference x in
    let (c, d, f) = as_difference y in
    let (g, h, i) = as_difference z in rw (e, f, i) (times_plus_difference a b c d g h)

abbrev pub is_zero : ℤ → Bool
is_zero (pos a) = a == 0
is_zero (negsuc a) = false

pub is_zero_iff : (x : ℤ) → (is_zero x ≡ true) ↔ (x ≡ pos 0)
is_zero_iff (pos a) = (λ e. ap pos ((==_iff a 0).0 e), λ e. (==_iff a 0).1 (pos-injective a 0 e))
is_zero_iff (negsuc a) = (λ e. cc e, λ e. cc e)
