-- ===== src/Refine/Alu/Laws.antt =====
-- The word operations give words and compute the specification's functions on their values.
use valida.Prelude.{
  ℕ, ◌+◌, ◌-◌, ◌*◌, ◌/◌, ◌%◌, ◌^◌, ◌≡◌, refl, ap, ◌∙◌, none, some, Outcome, ok, panic, Panic, Bool,
  true, false, ◌==◌, if◌then◌else◌, not, to_option, map_outcome, bit_and, bit_or, bit_xor,
}
use valida.Prelude.Int.{as_i32, as_u32, ◌>>ℤ◌}
use valida.Word.{Word, IsWord, into_u32, from_u32}
use valida.Word.Bytes.{from_u32-IsWord, into_u32-from_u32}
use valida.Word.Ordering.{eq, ne}
use valida.Word.Order.{eq-into_u32}
use valida.Word.Arith.{
  into_u32-add, into_u32-sub, into_u32-mul, into_u32-mulhu, into_u32-shl, into_u32-shr,
  into_u32-div,
}
use valida.Word.Signed.{mulhs-eq-mulhu, as_u32-lt}
use valida.Word.Bits.{into_u32-xor, into_u32-and, into_u32-or, xor-IsWord, and-IsWord, or-IsWord}
use valida.Word.Ops
use valida.Machine.Exec.Alu.{total}
use valida.Machine.Exec.Compare.{flag}
use valida.Isa.Ops as IsaOps
use valida.Refine.Alu.{Computes, into_u32-flag}
use mathlib.Core.Path.{subst}

-- An operation that cannot fail.
total-Computes :
    (f : Word ℕ → Word ℕ → Word ℕ) (g : ℕ → ℕ → ℕ)
    → ((b c : Word ℕ) → IsWord b → IsWord c → IsWord (f b c))
    → ((b c : Word ℕ) → IsWord b → IsWord c → into_u32 (f b c) ≡ g (into_u32 b) (into_u32 c))
    → Computes (total f) (λ x y. some (g x y))
total-Computes f g word law = record {
  gives_word = λ b c a hb hc e. subst IsWord (cc e) (word b c hb hc);
  computes = λ b c hb hc. ap some (law b c hb hc);
}

pub add-Computes : Computes (total Ops.add) (λ x y. some ((x + y) % 2 ^ 32))
unfolding Ops.add
add-Computes = total-Computes _ _ (λ b c hb hc. from_u32-IsWord _) (λ b c hb hc. into_u32-add b c)

pub sub-Computes : Computes (total Ops.sub) (λ x y. some ((x + 2 ^ 32 - y) % 2 ^ 32))
unfolding Ops.sub
sub-Computes = total-Computes _ _ (λ b c hb hc. from_u32-IsWord _) (λ b c hb hc. into_u32-sub b c)

pub mul-Computes : Computes (total Ops.mul) (λ x y. some (x * y % 2 ^ 32))
unfolding Ops.mul
mul-Computes = total-Computes _ _ (λ b c hb hc. from_u32-IsWord _) (λ b c hb hc. into_u32-mul b c)

pub mulhu-Computes : Computes (total Ops.mulhu) (λ x y. some (x * y / 2 ^ 32))
unfolding Ops.mulhu
mulhu-Computes = total-Computes _ _ (λ b c hb hc. from_u32-IsWord _) into_u32-mulhu

pub mulhs-Computes : Computes (total Ops.mulhs) (λ x y. some (x * y / 2 ^ 32))
mulhs-Computes =
    total-Computes _ _ (λ b c hb hc. rw mulhs-eq-mulhu (word b c))
      (λ b c hb hc. rw mulhs-eq-mulhu (into_u32-mulhu b c hb hc))
  where
    word : (b c : Word ℕ) → IsWord (Ops.mulhu b c)
    word b c = unfold Ops.mulhu in from_u32-IsWord _

pub shl-Computes : Computes (total Ops.shl) (λ x y. some (x * 2 ^ (y % 32) % 2 ^ 32))
unfolding Ops.shl
shl-Computes = total-Computes _ _ (λ b c hb hc. from_u32-IsWord _) (λ b c hb hc. into_u32-shl b c)

pub shr-Computes : Computes (total Ops.shr) (λ x y. some (x / 2 ^ (y % 32)))
unfolding Ops.shr
shr-Computes =
    total-Computes _ _ (λ b c hb hc. from_u32-IsWord _) (λ b c hb hc. into_u32-shr b c hb)

pub sra-Computes : Computes (total Ops.sra) (λ x y. some (as_u32 (◌>>ℤ◌ (as_i32 x) (y % 32))))
unfolding Ops.sra
sra-Computes =
    total-Computes _ _ (λ b c hb hc. from_u32-IsWord _)
      (λ b c hb hc. into_u32-from_u32 _ (as_u32-lt _))

pub xor-Computes : Computes (total Ops.xor) (λ x y. some (bit_xor x y))
xor-Computes = total-Computes _ _ xor-IsWord into_u32-xor

pub and-Computes : Computes (total Ops.and) (λ x y. some (bit_and x y))
and-Computes = total-Computes _ _ and-IsWord into_u32-and

pub or-Computes : Computes (total Ops.or) (λ x y. some (bit_or x y))
or-Computes = total-Computes _ _ or-IsWord into_u32-or

pub ne-Computes : Computes (λ b c. ok (flag (ne b c))) (λ x y. some (if not (x == y) then 1 else 0))
unfolding ne
ne-Computes =
    total-Computes (λ b c. flag (not (eq b c))) _ (λ b c hb hc. from_u32-IsWord _)
      λ b c hb hc.
        into_u32-flag (not (eq b c)) ∙ ap (λ t. if not t then 1 else 0) (eq-into_u32 b c hb hc)

pub eq-Computes : Computes (λ b c. ok (flag (eq b c))) (λ x y. some (if x == y then 1 else 0))
eq-Computes =
    total-Computes (λ b c. flag (eq b c)) _ (λ b c hb hc. from_u32-IsWord _)
      λ b c hb hc. into_u32-flag (eq b c) ∙ ap (λ t. if t then 1 else 0) (eq-into_u32 b c hb hc)

-- The outcomes of the divisions are words.
GivesWord : Outcome (Word ℕ) → Type 0
GivesWord r = (a : Word ℕ) → r ≡ ok a → IsWord a

GivesWord-from_u32 : (v : ℕ) → GivesWord (ok (from_u32 v))
unfolding GivesWord
GivesWord-from_u32 v a e = subst IsWord (cc e) (from_u32-IsWord v)

GivesWord-panic : (p : Panic) → GivesWord (panic p)
unfolding GivesWord
GivesWord-panic p a e = cc e

GivesWord-if :
    (t : Bool) (x y : Outcome (Word ℕ)) → GivesWord x → GivesWord y → GivesWord (if t then x else y)
GivesWord-if true x y h k = h
GivesWord-if false x y h k = k

-- Two tests that stop a division.
stops :
    (t u : Bool) (p q : Panic) (v w : ℕ)
    → into_u32 (from_u32 v) ≡ w
    → to_option
        (map_outcome into_u32 (if t then panic p else if u then panic q else ok (from_u32 v)))
      ≡ (if t then none else if u then none else some w)
stops true u p q v w e = refl
stops false true p q v w e = refl
stops false false p q v w e = ap some e

stops_once :
    (t : Bool) (p : Panic) (v : ℕ)
    → to_option (if t then panic p else ok v) ≡ (if t then none else some v)
stops_once true p v = refl
stops_once false p v = refl

pub div-Computes : Computes Ops.div (λ x y. if y == 0 then none else some (x / y))
unfolding Ops.div GivesWord
div-Computes = record {
  gives_word = λ b c a hb hc e.
      GivesWord-if (into_u32 c == 0) _ _ (GivesWord-panic _) (GivesWord-from_u32 _) a e;
  computes = λ b c hb hc. ap to_option (into_u32-div b c hb) ∙ stops_once (into_u32 c == 0) _ _;
}

pub sdiv-Computes : Computes Ops.sdiv IsaOps.sdiv
unfolding Ops.sdiv GivesWord
sdiv-Computes = record {
  gives_word = λ b c a hb hc e.
      GivesWord-if (into_u32 c == 0) _ _ (GivesWord-panic _)
        (GivesWord-if _ _ _ (GivesWord-panic _) (GivesWord-from_u32 _)) a e;
  computes = λ b c hb hc. stops (into_u32 c == 0) _ _ _ _ _ (into_u32-from_u32 _ (as_u32-lt _));
}
