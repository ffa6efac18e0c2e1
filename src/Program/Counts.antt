-- ===== src/Program/Counts.antt =====
-- program/src/lib.rs: the counters of the program chip.
use valida.Prelude.{
  ℕ, zero, suc, ◌+◌, ◌%◌, ◌^◌, ◌≤◌, ◌<◌, ◌≡◌, ◌≢◌, refl, ap, sym, ◌∙◌, arith, List, [], ◌∷◌, some,
  ok, panic, length, get_elem?, set, replicate, length-set, get_elem?-set_self, get_elem?-set_ne,
  length-replicate, get_elem?_total, ltb, ltb→lt, lt→ltb, false, Bool-cases, inl, inr,
  assertion_failed,
}
use valida.Program.{ProgramRom, ProgramChip, read_word, set_program_rom}
use mathlib.Core.Path.{subst}

unfoldable pub total : List ℕ → ℕ
total [] = 0
total (n ∷ ns) = n + total ns

total-set :
    (ns : List ℕ) (i n v : ℕ) → get_elem? ns i ≡ some n → total (set ns i v) + n ≡ total ns + v
unfolding total
total-set [] i n v e = cc e
total-set (m ∷ ns) zero n v e = ground (arith, e)
total-set (m ∷ ns) (suc i) n v e = omega (arith, total-set ns i n v e)

total-replicate : (k : ℕ) → total (replicate k 0) ≡ 0
unfolding total
total-replicate zero = refl
total-replicate (suc k) = omega (arith, total-replicate k)

-- There is one counter for each instruction.
pub record IsCounted (chip : ProgramChip) : Type 0 where
  pub each : length chip.counts ≡ length chip.program_rom

abbrev pub counted_at : ProgramChip → ℕ → ℕ → ProgramChip
counted_at chip i n = record chip { counts = set chip.counts i ((n + 1) % 2 ^ 32) }

-- The instruction is there, and so is its counter.
pub read_word_total :
    (i : ℕ) (chip : ProgramChip)
    → IsCounted chip
    → i < length chip.program_rom
    → (n : ℕ) × (get_elem? chip.counts i ≡ some n) × (read_word i chip ≡ ok (counted_at chip i n))
unfolding read_word
read_word_total i chip counted inside =
    let (n, e) = get_elem?_total chip.counts i (subst (λ k. i < k) (sym counted.each) inside) in
    (n, e, rw (lt→ltb i (length chip.program_rom) inside, e) refl)

pub read_word_outside :
    (i : ℕ) (chip : ProgramChip)
    → ltb i (length chip.program_rom) ≡ false
    → read_word i chip ≡ panic assertion_failed
unfolding read_word
read_word_outside i chip outside = rw outside refl

-- What a read that returns has done: it has counted the instruction, and nothing else.
pub record Counts (i : ℕ) (chip new : ProgramChip) : Type 0 where
  pub inside : i < length chip.program_rom
  pub same_rom : new.program_rom ≡ chip.program_rom
  pub counted : IsCounted new
  pub count : ℕ
  pub before : get_elem? chip.counts i ≡ some count
  pub after : get_elem? new.counts i ≡ some ((count + 1) % 2 ^ 32)
  pub elsewhere : (j : ℕ) → i ≢ j → get_elem? new.counts j ≡ get_elem? chip.counts j
  pub sum : total new.counts + count ≡ total chip.counts + (count + 1) % 2 ^ 32

total_ge : (ns : List ℕ) (i n : ℕ) → get_elem? ns i ≡ some n → n ≤ total ns
unfolding total
total_ge [] i n e = cc e
total_ge (m ∷ ns) zero n e = ground (arith, e)
total_ge (m ∷ ns) (suc i) n e = omega (arith, total_ge ns i n e)

counted_at-Counts :
    (i n : ℕ) (chip : ProgramChip)
    → IsCounted chip
    → i < length chip.program_rom
    → get_elem? chip.counts i ≡ some n
    → Counts i chip (counted_at chip i n)
counted_at-Counts i n chip counted inside e = record {
  inside = inside;
  same_rom = refl;
  counted = record { each = length-set chip.counts i _ ∙ counted.each };
  count = n;
  before = e;
  after = get_elem?-set_self chip.counts i _ (subst (λ k. i < k) (sym counted.each) inside);
  elsewhere = λ j ne. get_elem?-set_ne chip.counts i j _ ne;
  sum = total-set chip.counts i n ((n + 1) % 2 ^ 32) e;
}

-- While the counters have room, there is one more.
pub one_more :
    (i : ℕ) (chip new : ProgramChip)
    → Counts i chip new
    → total chip.counts + 1 < 2 ^ 32
    → total new.counts ≡ total chip.counts + 1
one_more i chip new c room = omega (arith, c.sum, total_ge chip.counts i c.count c.before, room)

-- The counter itself then has one more.
pub one_count :
    (i : ℕ) (chip new : ProgramChip) (n : ℕ)
    → Counts i chip new
    → total chip.counts + 1 < 2 ^ 32
    → get_elem? chip.counts i ≡ some n
    → get_elem? new.counts i ≡ some (n + 1)
one_count i chip new n c room e =
    let same : c.count ≡ n = cc (c.before, e) in
    let small = total_ge chip.counts i n e in c.after ∙ ap some (omega (arith, same, small, room))

-- A count that returns was of an instruction of the program, added one (mod 2 ^ 32) to its
-- counter and left the other counters and the program alone, where there was a counter for each
-- instruction.
pub read_word-Counts :
    (i : ℕ) (chip new : ProgramChip)
    → IsCounted chip
    → read_word i chip ≡ ok new
    → Counts i chip new
read_word-Counts i chip new counted e = elim (Bool-cases (ltb i (length chip.program_rom))) [
  | inl within ↦
      let inside = ltb→lt i (length chip.program_rom) within in
      let (n, h, r) = read_word_total i chip counted inside in
      subst (Counts i chip) (cc (e, r)) (counted_at-Counts i n chip counted inside h)
  | inr outside ↦ absurd (cc (e, read_word_outside i chip outside))
]

-- A loaded program has a counter at zero for each instruction.
pub set_program_rom-IsCounted :
    (rom : ProgramRom) (chip : ProgramChip)
    → IsCounted (set_program_rom rom chip) × (total ((set_program_rom rom chip).counts) ≡ 0)
unfolding set_program_rom
set_program_rom-IsCounted rom chip =
    (record { each = length-replicate (length rom) 0 }, total-replicate (length rom))
