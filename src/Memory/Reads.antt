-- ===== src/Memory/Reads.antt =====
-- memory/src/lib.rs: what `read` and `read_or_init` return, and what they log.
use valida.Prelude.{
  ℕ, ◌≡◌, refl, ap, [], ◌∷◌, ◌++◌, none, some, Outcome, ok, panic, read_before_write, ◌==◌, false,
  Option-cases, inl, inr,
}
use valida.Prelude.BTreeMap.{get}
use valida.Word.{Word}
use valida.Memory.{MemoryChip, Operation, read, zero_word, log_operation, read_cell, read_or_init}
use valida.Memory.Entries.{entry-push_entry, elsewhere-push_entry}
use valida.Memory.Log.{IsLogged, history, same_history, read-IsLogged}
use mathlib.Core.Option.{get_or}

-- The operation comes last in the log and in the entry of its cycle. The other entries, the cells
-- and the static data are as before.
pub record Recorded (clk : ℕ) (op : Operation) (m new : MemoryChip) : Type 0 where
  pub logged : IsLogged clk new
  pub appended : history new.operations ≡ history m.operations ++ op ∷ []
  pub entry : get clk new.operations ≡ some (get_or (get clk m.operations) [] ++ op ∷ [])
  pub elsewhere : (k : ℕ) → (k == clk) ≡ false → get k new.operations ≡ get k m.operations
  pub same_cells : new.cells ≡ m.cells
  pub same_static : new.static_data ≡ m.static_data

-- An empty cell panics, and another returns its word.
pub data CellRead (clk addr : ℕ) (m : MemoryChip) : Outcome (Word ℕ × MemoryChip) → Type 0 where
  empty : get addr m.cells ≡ none → CellRead clk addr m (panic (read_before_write addr))
  found :
      (value : Word ℕ) (new : MemoryChip)
      → get addr m.cells ≡ some value
      → Recorded clk (read addr value) m new
      → CellRead clk addr m (ok (value, new))

-- `read_or_init` returns zero for an empty cell.
pub record CellOrZero (clk addr : ℕ) (m : MemoryChip) (r : Word ℕ × MemoryChip) : Type 0 where
  pub value : r.0 ≡ get_or (get addr m.cells) zero_word
  pub recorded : Recorded clk (read addr r.0) m r.1

module _ (clk : ℕ) (m : MemoryChip) (logged : IsLogged clk m) where
  log_operation-Recorded :
      (addr : ℕ) (value : Word ℕ)
      → get_or (get addr m.cells) zero_word ≡ value
      → Recorded clk (read addr value) m (log_operation clk (read addr value) m)
  unfolding log_operation
  log_operation-Recorded addr value e = record {
    logged = read-IsLogged clk m logged addr value e;
    appended = same_history clk m logged (read addr value);
    entry = entry-push_entry clk (read addr value) m.operations;
    elsewhere = λ k. elsewhere-push_entry clk k (read addr value) m.operations;
    same_cells = refl;
    same_static = refl;
  }

  read_cell-CellRead : (addr : ℕ) → CellRead clk addr m (read_cell clk addr m)
  unfolding read_cell
  read_cell-CellRead addr = elim (Option-cases (get addr m.cells)) [
    | inl absent ↦ rw (absent, read_cell) (empty absent)
    | inr (value, e) ↦
        rw (e, read_cell)
          (found value (log_operation clk (read addr value) m) e
            (log_operation-Recorded addr value (ap (λ o. get_or o zero_word) e)))
  ]

  -- At the last cycle of a log that explains the memory, `read` panics on an empty cell and else
  -- returns its word, and `read_or_init` returns its word or zero. One that returns has logged
  -- the read with the word that it returns, last in the log and in the entry of the cycle, and
  -- has changed no other entry, no cell and no static data; the log still explains the memory.
  pub reads-Recorded :
      (addr : ℕ)
      → CellRead clk addr m (read_cell clk addr m) × CellOrZero clk addr m (read_or_init clk addr m)
  unfolding read_or_init
  reads-Recorded addr = (
    read_cell-CellRead addr,
    record { value = refl; recorded = log_operation-Recorded addr _ refl },
  )
