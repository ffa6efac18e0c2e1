-- ===== src/Machine/Invariant/Padding.antt =====
-- basic/src/lib.rs, `run`: the padding that follows the loop, and the whole run.
use valida.Prelude.{
  ℕ, zero, suc, ◌+◌, ◌*◌, ◌%◌, ◌^◌, ◌≤◌, ◌<◌, ◌≡◌, ◌∙◌, arith, leb, Bool-cases, inl, inr,
}
use valida.Machine.Run.{double_up, next_power_of_two, next_power_of_two_usize, padding}
use native.Mathlib.Nat.{pow-suc}

-- What the doubling returns: the first of the powers from `p` on that is not below `n`.
record IsDoubled (k p n r : ℕ) : Type 0 where
  enough : n ≤ r
  exponent : ℕ
  within : exponent ≤ k
  power : r ≡ p * 2 ^ exponent
  least : 1 ≤ exponent → r < 2 * n

doubled_less : (e p n r : ℕ) → r ≡ 2 * p * 2 ^ e → p < n → (1 ≤ e → r < 2 * n) → r < 2 * n
doubled_less zero p n r h below rest = omega (arith, h)
doubled_less (suc e) p n r h below rest = rest (omega arith)

power-suc : (p e : ℕ) → 2 * p * 2 ^ e ≡ p * 2 ^ suc e
power-suc p e = grind (arith, pow-suc 2 e)

double_up-IsDoubled : (k p n : ℕ) → n ≤ p * 2 ^ k → IsDoubled k p n (double_up k p n)
unfolding double_up
double_up-IsDoubled zero p n h = record {
  enough = omega arith;
  exponent = 0;
  within = omega arith;
  power = omega arith;
  least = λ e. absurd (omega arith);
}
double_up-IsDoubled (suc k) p n h = elim (Bool-cases (leb n p)) [
  | inl covered ↦ rw covered (record {
    enough = ground (arith, covered);
    exponent = 0;
    within = omega arith;
    power = omega arith;
    least = λ e. absurd (omega arith);
  })
  | inr below ↦
      let d = double_up-IsDoubled k (2 * p) n (omega (arith, h, power-suc p k)) in
      rw below (record {
        enough = d.enough;
        exponent = suc d.exponent;
        within = omega (arith, d.within);
        power = d.power ∙ power-suc p d.exponent;
        least = λ e. doubled_less d.exponent p n _ d.power (ground (arith, below)) d.least;
      })
]

-- The least power of two that is not below `n`.
pub record IsNextPower (n r : ℕ) : Type 0 where
  pub enough : n ≤ r
  pub exponent : ℕ
  pub power : r ≡ 2 ^ exponent
  pub least : r < 2 * n

-- At exponent 0 the power is 1.
one_or_less : (e n r : ℕ) → 1 ≤ n → r ≡ 1 * 2 ^ e → (1 ≤ e → r < 2 * n) → r < 2 * n
one_or_less zero n r pos h rest = omega (arith, h)
one_or_less (suc e) n r pos h rest = rest (omega arith)

-- For a number from 1 to 2 ^ 31, the next power of two is a power of two that is not below the
-- number and is less than twice the number.
pub next_power_of_two-IsNextPower :
    (n : ℕ) → 1 ≤ n → n ≤ 2 ^ 31 → IsNextPower n (next_power_of_two n)
unfolding next_power_of_two
next_power_of_two-IsNextPower n pos small =
    let d = double_up-IsDoubled 32 1 n (omega arith) in
    let less = one_or_less d.exponent n (double_up 32 1 n) pos d.power d.least in
    let same : double_up 32 1 n % 2 ^ 32 ≡ double_up 32 1 n = omega (arith, less) in
    record {
      enough = omega (arith, same, d.enough);
      exponent = d.exponent;
      power = omega (arith, same, d.power);
      least = omega (arith, same, less);
    }

pub usize-IsNextPower : (n : ℕ) → 1 ≤ n → n ≤ 2 ^ 63 → IsNextPower n (next_power_of_two_usize n)
unfolding next_power_of_two_usize
usize-IsNextPower n pos small =
    let d = double_up-IsDoubled 64 1 n (omega arith) in
    let less = one_or_less d.exponent n (double_up 64 1 n) pos d.power d.least in
    let same : double_up 64 1 n % 2 ^ 64 ≡ double_up 64 1 n = omega (arith, less) in
    record {
      enough = omega (arith, same, d.enough);
      exponent = d.exponent;
      power = omega (arith, same, d.power);
      least = omega (arith, same, less);
    }

-- With the padding the clock reaches that power.
pub padding_lem :
    (clock : ℕ) → 1 ≤ clock → clock ≤ 2 ^ 31 → clock + padding clock ≡ next_power_of_two clock
unfolding padding
padding_lem clock pos small =
    let p = next_power_of_two-IsNextPower clock pos small in omega (arith, p.enough, p.least)
