-- ===== src/Word/Signed.antt =====
-- The signed operators: the quotient and the arithmetic shift of the integers that two words
-- stand for, and the high half of a product.
use valida.Prelude.{
  ℕ, zero, suc, ◌-◌, ◌*◌, ◌/◌, ◌%◌, ◌^◌, ◌<◌, ◌≤◌, ◌≡◌, arith, refl, ap, ok, ltb, ltb→lt, ltb→le,
  Bool-cases, inl, inr, ◌∙◌, ◌≢◌,
}
use valida.Prelude.Int.{ℤ, pos, negsuc, as_i32, as_i64, as_u32, negate, ◌/ℤ◌, ◌>>ℤ◌}
use valida.Word.{Word, IsWord, into_u32, from_u32}
use valida.Word.Bytes.{from_u32-IsWord, into_u32-lt, into_u32-from_u32}
use native.Mathlib.Nat.{div-le_self, mul-div-le}
use valida.Word.Arith.{div-lt}
use valida.Word.Ops.{mulhs, mulhu, sdiv, sra}

-- The low 32 bits of the arithmetic shift by 32 of a 64-bit pattern are its high half.
high_half : (p : ℕ) → p < 2 ^ 64 → as_u32 (◌>>ℤ◌ (as_i64 p) 32) ≡ p / 2 ^ 32 % 2 ^ 32
high_half p h = ground arith

-- On all words, the signed high product of the code is its unsigned high product.
pub mulhs-eq-mulhu : (b c : Word ℕ) → mulhs b c ≡ mulhu b c
unfolding mulhs mulhu
mulhs-eq-mulhu b c = ap from_u32 (high_half (into_u32 b * into_u32 c % 2 ^ 64) (omega arith))

-- The integers that an `i32` holds.
data FitsI32 : ℤ → Type 0 where
  fits_pos : (n : ℕ) → n < 2 ^ 31 → FitsI32 (pos n)
  fits_negsuc : (n : ℕ) → n < 2 ^ 31 → FitsI32 (negsuc n)

as_i32-as_u32 : (z : ℤ) → FitsI32 z → as_i32 (as_u32 z) ≡ z
as_i32-as_u32 z (fits_pos n h) = ground arith
as_i32-as_u32 z (fits_negsuc n h) = ground arith

pub as_u32-lt : (z : ℤ) → as_u32 z < 2 ^ 32
as_u32-lt (pos n) = omega arith
as_u32-lt (negsuc n) = omega arith

as_i32-FitsI32 : (v : ℕ) → v < 2 ^ 32 → FitsI32 (as_i32 v)
as_i32-FitsI32 v h = elim (Bool-cases (ltb v (2 ^ 31))) [
  | inl small ↦ rw small (fits_pos v (ltb→lt v _ small))
  | inr large ↦ rw large (fits_negsuc _ (omega (arith, ltb→le v _ large)))
]

>>ℤ-FitsI32 : (z : ℤ) (k : ℕ) → FitsI32 z → FitsI32 (◌>>ℤ◌ z k)
>>ℤ-FitsI32 z k (fits_pos n h) = fits_pos _ (div-lt n (2 ^ k) (2 ^ 31) h)
>>ℤ-FitsI32 z k (fits_negsuc n h) = fits_negsuc _ (div-lt n (2 ^ k) (2 ^ 31) h)

-- The arithmetic right shift of a word has the `i32` value of the word, rounded down after the
-- division by 2 to the power of the shift's amount mod 32.
pub as_i32-sra :
    (b c : Word ℕ)
    → IsWord b
    → as_i32 (into_u32 (sra b c)) ≡ ◌>>ℤ◌ (as_i32 (into_u32 b)) (into_u32 c % 32)
unfolding sra
as_i32-sra b c h =
    ap as_i32 (into_u32-from_u32 _ (as_u32-lt (◌>>ℤ◌ (as_i32 (into_u32 b)) (into_u32 c % 32))))
    ∙ as_i32-as_u32 _ (>>ℤ-FitsI32 _ _ (as_i32-FitsI32 _ (into_u32-lt b h)))

-- A negated magnitude of at most 2 ^ 31.
negate-FitsI32 : (q : ℕ) → q ≤ 2 ^ 31 → FitsI32 (negate q)
negate-FitsI32 zero h = fits_pos 0 (omega arith)
negate-FitsI32 (suc q) h = fits_negsuc q (omega arith)

quotient-lt : (a b : ℕ) → suc a ≤ 2 ^ 31 → (b ≡ 0 → suc a < 2 ^ 31) → suc a / suc b < 2 ^ 31
quotient-lt a zero h k = omega (arith, k refl)
quotient-lt a (suc b) h k =
    let q = suc a / suc (suc b) in
    let twice : 2 * q ≤ suc (suc b) * q = grind arith in
    omega (arith, twice, mul-div-le (suc a) (suc (suc b)))

/ℤ-FitsI32 :
    (y z : ℤ)
    → FitsI32 y
    → FitsI32 z
    → (z ≡ negsuc 0 → y ≢ negsuc (2 ^ 31 - 1))
    → FitsI32 (◌/ℤ◌ y z)
/ℤ-FitsI32 y z (fits_pos a h) (fits_pos b k) other = fits_pos _ (div-lt a b (2 ^ 31) h)
/ℤ-FitsI32 y z (fits_pos a h) (fits_negsuc b k) other =
    negate-FitsI32 (a / suc b) (omega (arith, div-le_self a (suc b)))
/ℤ-FitsI32 y z (fits_negsuc a h) (fits_pos b k) other =
    negate-FitsI32 (suc a / b) (omega (arith, div-le_self (suc a) b))
/ℤ-FitsI32 y z (fits_negsuc a h) (fits_negsuc b k) other =
    fits_pos _ (quotient-lt a b h (λ e. at_minus_one e))
  where
    at_minus_one : b ≡ 0 → suc a < 2 ^ 31
    at_minus_one e = elim (Bool-cases (ltb (suc a) (2 ^ 31))) [
      | inl below ↦ ltb→lt _ _ below
      | inr above ↦ absurd (other (ap negsuc e) (ap negsuc (omega (arith, ltb→le _ _ above))))
    ]

minus_one : (v : ℕ) → v < 2 ^ 32 → as_i32 v ≡ negsuc 0 → v ≡ 2 ^ 32 - 1
minus_one v h e = ground arith

minimum : (v : ℕ) → v < 2 ^ 32 → as_i32 v ≡ negsuc (2 ^ 31 - 1) → v ≡ 2 ^ 31
minimum v h e = ground arith

-- The signed quotient of two words returns a word with the truncated quotient of their `i32`
-- values, where the divisor is not 0 and the operands are not -2 ^ 31 and -1.
pub as_i32-sdiv :
    (b c : Word ℕ)
    → IsWord b
    → IsWord c
    → into_u32 c ≢ 0
    → (into_u32 c ≡ 2 ^ 32 - 1 → into_u32 b ≢ 2 ^ 31)
    → (q : Word ℕ) × (sdiv b c ≡ ok q)
      × IsWord q
      × (as_i32 (into_u32 q) ≡ ◌/ℤ◌ (as_i32 (into_u32 b)) (as_i32 (into_u32 c)))
unfolding sdiv
as_i32-sdiv b c h k nonzero other = (
  from_u32 (as_u32 z),
  ground arith,
  from_u32-IsWord _,
  ap as_i32 (into_u32-from_u32 _ (as_u32-lt z))
      ∙ as_i32-as_u32 z (
          /ℤ-FitsI32 _ _ (as_i32-FitsI32 _ (into_u32-lt b h)) (as_i32-FitsI32 _ (into_u32-lt c k))
            (λ e. λ m. other (minus_one _ (into_u32-lt c k) e) (minimum _ (into_u32-lt b h) m))),
)
  where
    z : ℤ
    z = ◌/ℤ◌ (as_i32 (into_u32 b)) (as_i32 (into_u32 c))
