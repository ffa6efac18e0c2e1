-- ===== src/Word/Bits/Digits.antt =====
-- The bit operations split at any digit: their binary recursion, by induction on the width.
use Prim.Native.Nat.{
  min, max, differ, digits, bitwise, bit_and-bitwise, bit_or-bitwise, bit_xor-bitwise,
}
use native.Mathlib.Nat.{pow-suc}
use valida.Prelude.{ℕ, zero, suc, ◌+◌, ◌*◌, ◌/◌, ◌%◌, ◌^◌, ◌≤◌, ◌<◌, ◌≡◌, refl, ap, arith}
use valida.Prelude.{bit_and, bit_or, bit_xor}

-- An operation that works digit by digit, `digit` on the lowest.
abbrev HasDigits : (ℕ → ℕ → ℕ) → (ℕ → ℕ → ℕ) → Type 0
HasDigits op digit = (a b : ℕ) → op a b ≡ op (a / 2) (b / 2) * 2 + digit (a % 2) (b % 2)

-- All that covers the first number is fuel enough.
same_digits :
    (rest : ℕ → ℕ) (op : ℕ → ℕ → ℕ) (a b n m : ℕ)
    → a ≤ n
    → a ≤ m
    → digits rest op n a b ≡ digits rest op m a b
same_digits rest op zero b zero zero h k = refl
same_digits rest op zero b zero (suc m) h k = refl
same_digits rest op zero b (suc n) zero h k = refl
same_digits rest op zero b (suc n) (suc m) h k = refl
same_digits rest op (suc a) b zero m h k = absurd (omega arith)
same_digits rest op (suc a) b (suc n) zero h k = absurd (omega arith)
same_digits rest op (suc a) b (suc n) (suc m) h k =
    ap (λ higher. higher * 2 + op (suc a % 2) (b % 2))
      (same_digits rest op (suc a / 2) (b / 2) n m (omega arith) (omega arith))

lowest_digit :
    (rest : ℕ → ℕ) (op : ℕ → ℕ → ℕ) (a b : ℕ)
    → bitwise rest op (suc a) b ≡ bitwise rest op (suc a / 2) (b / 2) * 2 + op (suc a % 2) (b % 2)
lowest_digit rest op a b =
    ap (λ higher. higher * 2 + op (suc a % 2) (b % 2))
      (same_digits rest op (suc a / 2) (b / 2) a (suc a / 2) (omega arith) (omega arith))

bit_and_digit : HasDigits bit_and min
bit_and_digit zero b = simp bit_and-bitwise (omega arith)
bit_and_digit (suc a) b = simp bit_and-bitwise (lowest_digit (λ y. 0) min a b)

bit_or_digit : HasDigits bit_or max
bit_or_digit zero b = simp bit_or-bitwise (omega arith)
bit_or_digit (suc a) b = simp bit_or-bitwise (lowest_digit (λ y. y) max a b)

bit_xor_digit : HasDigits bit_xor differ
bit_xor_digit zero b = simp bit_xor-bitwise (omega arith)
bit_xor_digit (suc a) b = simp bit_xor-bitwise (lowest_digit (λ y. y) differ a b)

double : (q k : ℕ) → q * 2 ^ suc k ≡ 2 * (q * 2 ^ k)
double q k = omega (arith, ap (λ (t : ℕ). q * t) (pow-suc 2 k))

module _ (op digit : ℕ → ℕ → ℕ) (at_zero : op 0 0 ≡ 0) (step : HasDigits op digit) where
  split_at :
      (k a b x y : ℕ)
      → x < 2 ^ k
      → y < 2 ^ k
      → op (a * 2 ^ k + x) (b * 2 ^ k + y) ≡ op a b * 2 ^ k + op x y
  split_at zero a b x y h e = ground (arith, at_zero)
  split_at (suc k) a b x y h e = ground (
    arith,
    step (a * 2 ^ suc k + x) (b * 2 ^ suc k + y),
    step x y,
    double a k,
    double b k,
    double (op a b) k,
    pow-suc 2 k,
    split_at k a b (x / 2) (y / 2) (omega (arith, pow-suc 2 k)) (omega (arith, pow-suc 2 k)),
  )

module _ (op digit : ℕ → ℕ → ℕ) (at_zero : op 0 0 ≡ 0) (step : HasDigits op digit)
    (small : (a b : ℕ) → a < 2 → b < 2 → digit a b < 2) where
  op-lt : (k a b : ℕ) → a < 2 ^ k → b < 2 ^ k → op a b < 2 ^ k
  op-lt zero a b h e = ground (arith, at_zero)
  op-lt (suc k) a b h e = omega (
    arith,
    step a b,
    small (a % 2) (b % 2) (omega arith) (omega arith),
    pow-suc 2 k,
    op-lt k (a / 2) (b / 2) (omega (arith, pow-suc 2 k)) (omega (arith, pow-suc 2 k)),
  )

pub bit_and-lt : (k a b : ℕ) → a < 2 ^ k → b < 2 ^ k → bit_and a b < 2 ^ k
bit_and-lt = op-lt bit_and min refl bit_and_digit (λ a b h e. omega arith)

pub bit_or-lt : (k a b : ℕ) → a < 2 ^ k → b < 2 ^ k → bit_or a b < 2 ^ k
bit_or-lt = op-lt bit_or max refl bit_or_digit (λ a b h e. omega arith)

differ-lt : (a b : ℕ) → a < 2 → b < 2 → differ a b < 2
differ-lt zero zero p q = omega arith
differ-lt zero (suc zero) p q = omega arith
differ-lt (suc zero) zero p q = omega arith
differ-lt (suc zero) (suc zero) p q = omega arith
differ-lt zero (suc (suc b)) p q = absurd (omega arith)
differ-lt (suc zero) (suc (suc b)) p q = absurd (omega arith)
differ-lt (suc (suc a)) b p q = absurd (omega arith)

pub bit_xor-lt : (k a b : ℕ) → a < 2 ^ k → b < 2 ^ k → bit_xor a b < 2 ^ k
bit_xor-lt = op-lt bit_xor differ refl bit_xor_digit differ-lt

abbrev pub Splits : (ℕ → ℕ → ℕ) → Type 0
Splits op =
    (a b x y : ℕ)
    → x < 2 ^ 8
    → y < 2 ^ 8
    → op (a * 2 ^ 8 + x) (b * 2 ^ 8 + y) ≡ op a b * 2 ^ 8 + op x y

pub bit_and_fields : Splits bit_and
bit_and_fields = split_at bit_and min refl bit_and_digit 8

pub bit_or_fields : Splits bit_or
bit_or_fields = split_at bit_or max refl bit_or_digit 8

pub bit_xor_fields : Splits bit_xor
bit_xor_fields = split_at bit_xor differ refl bit_xor_digit 8
