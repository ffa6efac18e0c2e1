-- ===== src/Refine/Rules.antt =====
-- One rule for each action: a `do` block refines another action by action.
use valida.Prelude.{
  ℕ, ◌≡◌, ◌∙◌, refl, ap, sym, fun_ext, arith, none, some, ok, panic, Panic, read_before_write, ◌==◌,
  Bool-cases, Option-cases, inl, inr,
}
use valida.Prelude.BTreeMap.{BTreeMap, get, insert, get-insert}
use valida.Word.{Word, IsWord, into_u32}
use valida.Memory.{
  Operation as MemoryOperation, log_operation, read_cell, read_or_init, write_cell, zero_word,
}
use valida.Chips.Cpu.{CpuChip}
use valida.Machine.{BasicMachine, M, get_cpu, read, read_init, write, ◌>>=◌, ◌>>◌}
use valida.Machine.Hoare.{bind-ok, bind-panic}
use valida.Isa.{Arch, Isa, Regs, update}
use valida.Isa
use valida.Refine.{values, view, IsMachine, Agrees, fail, Refines}
use mathlib.Core.Path.{subst}

values-insert :
    (k : ℕ) (w : Word ℕ) (cells : BTreeMap (Word ℕ))
    → values (insert k w cells) ≡ update (values cells) k (into_u32 w)
unfolding values
values-insert k w cells = fun_ext λ j. ground (arith, get-insert k j w cells)

insert-fits :
    (k : ℕ) (v : Word ℕ) (cells : BTreeMap (Word ℕ))
    → IsWord v
    → ((addr : ℕ) (w : Word ℕ) → get addr cells ≡ some w → IsWord w)
    → (addr : ℕ) (w : Word ℕ) → get addr (insert k v cells) ≡ some w
    → IsWord w
insert-fits k v cells hv h addr w e = elim (Bool-cases (addr == k)) [
  | inl same ↦ subst IsWord (ground (arith, get-insert k addr v cells)) hv
  | inr other ↦ h addr w (ground (arith, get-insert k addr v cells))
]

-- How a bind of the specification runs.
module _ {A : Type 0} where
  isa_bind-some :
      (m : Isa A) (g : A → Isa (Unit {0})) (s t : Arch) (a : A)
      → m s ≡ some (a, t)
      → Isa.◌>>=◌ m g s ≡ g a t
  unfolding Isa.◌>>=◌
  isa_bind-some m g s t a e = rw (e, Isa.◌>>=◌)

  isa_bind-none :
      (m : Isa A) (g : A → Isa (Unit {0})) (s : Arch) → m s ≡ none → Isa.◌>>=◌ m g s ≡ none
  unfolding Isa.◌>>=◌
  isa_bind-none m g s e = rw (e, Isa.◌>>=◌)

-- The rule that the others are cases of: both actions go on with related values in related
-- states, or both fail.
pub data Meets {A B : Type 0} (f : A → M (Unit {0})) (g : B → Isa (Unit {0})) (m : M A) (n : Isa B)
    (s : BasicMachine) : Type 0 where
  failing : (p : Panic) → m s ≡ panic p → n (view s) ≡ none → Meets f g m n s
  going :
      (a : A) (b : B) (t : BasicMachine)
      → m s ≡ ok (a, t)
      → n (view s) ≡ some (b, view t)
      → IsMachine t
      → Refines (f a) (g b)
      → Meets f g m n s

module _ {A B : Type 0} (f : A → M (Unit {0})) (g : B → Isa (Unit {0})) (m : M A) (n : Isa B) where
  Meets-Agrees :
      (s : BasicMachine) → Meets f g m n s → Agrees ((m >>= f) s) (Isa.◌>>=◌ n g (view s))
  Meets-Agrees s (failing p e i) = rw (bind-panic m f s p e, isa_bind-none n g (view s) i) (fail p)
  Meets-Agrees s (going a b t e i wf r) =
      rw (bind-ok m f s t a e, isa_bind-some n g (view s) (view t) b i) (r.agrees t wf)

  pub Refines-Meets :
      ((s : BasicMachine) → IsMachine s → Meets f g m n s) → Refines (m >>= f) (Isa.◌>>=◌ n g)
  Refines-Meets h = record { agrees = λ s wf. Meets-Agrees s (h s wf) }

pub Refines-regs :
    (f : CpuChip → M (Unit {0})) (g : Regs → Isa (Unit {0}))
    → ((c : CpuChip) → Refines (f c) (g (record { pc = c.pc; fp = c.fp })))
    → Refines (get_cpu >>= f) (Isa.◌>>=◌ Isa.get_regs g)
unfolding get_cpu Isa.get_regs view
Refines-regs f g h =
    Refines-Meets f g get_cpu Isa.get_regs λ s wf. going s.cpu _ s refl refl wf (h s.cpu)

-- A read that finds a word goes on with its value; one that finds none panics, and faults.
pub Refines-read :
    (f : Word ℕ → M (Unit {0})) (g : ℕ → Isa (Unit {0})) (clk addr : ℕ)
    → ((w : Word ℕ) → IsWord w → Refines (f w) (g (into_u32 w)))
    → Refines (read clk addr >>= f) (Isa.◌>>=◌ (Isa.load addr) g)
unfolding read read_cell Isa.load view values
Refines-read f g clk addr h = Refines-Meets f g (read clk addr) (Isa.load addr) λ s wf.
    elim (Option-cases (get addr s.mem.cells)) [
      | inl e ↦ failing (read_before_write addr) (rw (e, read_cell)) (rw (e, Isa.load))
      | inr (w, e) ↦
          going w (into_u32 w) (logged s w) (rw (e, read_cell)) (rw (e, Isa.load))
            (record { cells_fit = wf.cells_fit }) (h w (wf.cells_fit addr w e))
    ]
  where
    logged : BasicMachine → Word ℕ → BasicMachine
    logged s w = record s { mem = log_operation clk (MemoryOperation.read addr w) s.mem }

zero_word-IsWord : IsWord zero_word
zero_word-IsWord = omega arith

pub Refines-read_init :
    (f : Word ℕ → M (Unit {0})) (g : ℕ → Isa (Unit {0})) (clk addr : ℕ)
    → ((w : Word ℕ) → IsWord w → Refines (f w) (g (into_u32 w)))
    → Refines (read_init clk addr >>= f) (Isa.◌>>=◌ (Isa.load_or_zero addr) g)
unfolding read_init read_or_init Isa.load_or_zero view values into_u32
Refines-read_init f g clk addr h =
    Refines-Meets f g (read_init clk addr) (Isa.load_or_zero addr) λ s wf.
      elim (Option-cases (get addr s.mem.cells)) [
        | inl e ↦
            going zero_word 0 (logged s zero_word) (rw (e, read_or_init)) (rw (e, Isa.load_or_zero))
              (record { cells_fit = wf.cells_fit }) (h zero_word zero_word-IsWord)
        | inr (w, e) ↦
            going w (into_u32 w) (logged s w) (rw (e, read_or_init)) (rw (e, Isa.load_or_zero))
              (record { cells_fit = wf.cells_fit }) (h w (wf.cells_fit addr w e))
      ]
  where
    logged : BasicMachine → Word ℕ → BasicMachine
    logged s w = record s { mem = log_operation clk (MemoryOperation.read addr w) s.mem }

-- An action without a result, before the rest.
module _ (m : M (Unit {0})) (n : Isa (Unit {0})) (f : M (Unit {0})) (g : Isa (Unit {0})) where
  pub Refines-then :
      ((s : BasicMachine)
        → IsMachine s
        → (t : BasicMachine) × (m s ≡ ok (tt, t)) × (n (view s) ≡ some (tt, view t)) × IsMachine t)
      → Refines f g
      → Refines (m >> f) (Isa.◌>>◌ n g)
  unfolding ◌>>◌ Isa.◌>>◌
  Refines-then h r =
      Refines-Meets (λ _. f) (λ _. g) m n
        λ s wf. let (t, e, i, wf') = h s wf in going tt tt t e i wf' r

pub Refines-write :
    (f : M (Unit {0})) (g : Isa (Unit {0})) (clk addr : ℕ) (w : Word ℕ) (v : ℕ)
    → IsWord w
    → into_u32 w ≡ v
    → Refines f g
    → Refines (write clk addr w >> f) (Isa.◌>>◌ (Isa.store addr v) g)
unfolding write write_cell Isa.store view
Refines-write f g clk addr w v hw e r =
    Refines-then (write clk addr w) (Isa.store addr v) f g
      (λ s wf. (
        record s { mem = write_cell clk addr w s.mem },
        refl,
        ap (λ x. some (tt, record (view s) { mem = update (values s.mem.cells) addr x })) (sym e)
            ∙ ap (λ m. some (tt, record (view s) { mem = m }))
                (sym (values-insert addr w s.mem.cells)),
        record { cells_fit = insert-fits addr w s.mem.cells hw wf.cells_fit },
      ))
      r
