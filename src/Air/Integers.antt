-- ===== src/Air/Integers.antt =====
-- The integers satisfy the laws of the field that are used.
mod Rows
mod Traces
mod Arith
mod Fields
use valida.Prelude.{refl, ap, sym, ◌∙◌}
use valida.Prelude.Int.{ℤ, pos}
use valida.Air.Integers.Arith.{
  is_zero, is_zero_iff, plus, minus, times, plus_assoc, plus_comm, plus_zero, plus_minus,
  minus_plus, pos-injective, times_zero, zero_factor, times_one, times_comm, times_plus,
}
use valida.Air.{PrimeField}

pub integers : PrimeField ℤ
integers = record {
  field_zero = pos 0;
  field_one = pos 1;
  plus = plus;
  minus = minus;
  times = times;
  from_canonical = pos;
  is_zero = is_zero;
  is_zero_iff = is_zero_iff;
  from_zero = refl;
  from_one = refl;
  from_plus = λ m n. refl;
  plus_assoc = plus_assoc;
  plus_comm = plus_comm;
  plus_zero = plus_zero;
  minus_iff = λ x y z.
      (λ e. sym (plus_minus x y) ∙ ap (plus y) e, λ e. ap (λ t. minus t y) e ∙ minus_plus y z);
  times_iff = λ x y. (times_zero x y, zero_factor x y);
  times_one = times_one;
  times_comm = times_comm;
  times_plus = times_plus;
  from_times = λ m n. refl;
  from_injective = λ m n h k e. pos-injective m n e;
}
