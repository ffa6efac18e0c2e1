-- ===== src/Memory/Log.antt =====
-- The log of the memory chip: its operations in the order of the clock, replayed from the static
-- data.
use valida.Prelude.{
  ℕ, ◌≤◌, ◌≡◌, refl, ap, sym, ◌∙◌, arith, List, [], ◌∷◌, ◌++◌, Option, some, false, ◌==◌, ltb,
  if◌then◌else◌, Bool-cases, inl, inr, ==_iff,
}
use valida.Prelude.BTreeMap.{BTreeMap, get, insert, get-insert, Above, IsSorted, IsSorted-insert}
use valida.Word.{Word}
use valida.Memory.{
  MemoryChip, Operation, read, write, dummy_read, zero_word, push_entry, log_operation, write_cell,
}
use mathlib.Core.Option.{get_or}
use mathlib.Core.List.{append_assoc, append-nil}
use mathlib.Core.Path.{subst}

abbrev pub Cells : Type 0
Cells = ℕ → Option (Word ℕ)

abbrev pub update : Cells → ℕ → Word ℕ → Cells
update cells k v j = if j == k then some v else cells j

-- The log as one list.
unfoldable pub history : BTreeMap (List Operation) → List Operation
history [] = []
history ((clk, ops) ∷ rest) = ops ++ history rest

-- The cells after the operations.
unfoldable pub replay : List Operation → Cells → Cells
replay [] cells = cells
replay (read addr value ∷ ops) cells = replay ops cells
replay (write addr value ∷ ops) cells = replay ops (update cells addr value)
replay (dummy_read addr value ∷ ops) cells = replay ops cells

-- Each read has the value that the operations before it left in its cell, or zero where none did.
unfoldable pub IsHistory : List Operation → Cells → Type 0
IsHistory [] cells = Unit
IsHistory (read addr value ∷ ops) cells =
    (get_or (cells addr) zero_word ≡ value) × IsHistory ops cells
IsHistory (write addr value ∷ ops) cells = IsHistory ops (update cells addr value)
IsHistory (dummy_read addr value ∷ ops) cells =
    (get_or (cells addr) zero_word ≡ value) × IsHistory ops cells

-- No entry is later than `clk`.
abbrev pub AtMost {ℓ} : {V : Type ℓ} → ℕ → BTreeMap V → Type 0
AtMost clk [] = Unit
AtMost clk ((j, v) ∷ m) = (j ≤ clk) × AtMost clk m

module _ {ℓ} {V : Type ℓ} where
  pub AtMost-le : (i j : ℕ) (m : BTreeMap V) → i ≤ j → AtMost i m → AtMost j m
  AtMost-le i j [] h a = tt
  AtMost-le i j ((k, v) ∷ m) h a = (omega (arith, h, a.0), AtMost-le i j m h a.1)

  AtMost-insert : (clk : ℕ) (v : V) (m : BTreeMap V) → AtMost clk m → AtMost clk (insert clk v m)
  unfolding insert
  AtMost-insert clk v [] a = (omega arith, tt)
  AtMost-insert clk v ((j, w) ∷ m) a = elim (Bool-cases (clk == j)) [
    | inl same ↦ rw same (omega arith, a.1)
    | inr other ↦ elim (Bool-cases (ltb clk j)) [
      | inl below ↦ rw (other, below) (omega arith, a)
      | inr above ↦ rw (other, above) (a.0, AtMost-insert clk v m a.1)
    ]
  ]

le→ltb : (a b : ℕ) → b ≤ a → ltb a b ≡ false
le→ltb a b h = ground arith

-- An operation that is logged at the last cycle comes last.
nothing-Above :
    (clk : ℕ) (m : BTreeMap (List Operation)) → Above clk m → AtMost clk m → history m ≡ []
unfolding history
nothing-Above clk [] above most = refl
nothing-Above clk ((j, ops) ∷ m) above most = absurd (omega (arith, above, most.0))

get_skip :
    (clk j : ℕ) (ops : List Operation) (m : BTreeMap (List Operation))
    → (clk == j) ≡ false
    → get clk ((j, ops) ∷ m) ≡ get clk m
unfolding get
get_skip clk j ops m other = rw other refl

insert_skip :
    (clk j : ℕ) (new ops : List Operation) (m : BTreeMap (List Operation))
    → (clk == j) ≡ false
    → j ≤ clk
    → insert clk new ((j, ops) ∷ m) ≡ (j, ops) ∷ insert clk new m
unfolding insert
insert_skip clk j new ops m other later = rw (other, le→ltb clk j later) refl

push_entry_skip :
    (clk j : ℕ) (op : Operation) (ops : List Operation) (m : BTreeMap (List Operation))
    → (clk == j) ≡ false
    → j ≤ clk
    → push_entry clk op ((j, ops) ∷ m) ≡ (j, ops) ∷ push_entry clk op m
unfolding push_entry
push_entry_skip clk j op ops m other later =
    ap (λ o. insert clk (get_or o [] ++ op ∷ []) ((j, ops) ∷ m)) (get_skip clk j ops m other)
    ∙ insert_skip clk j _ ops m other later

history-push_entry :
    (clk : ℕ) (op : Operation) (m : BTreeMap (List Operation))
    → IsSorted m
    → AtMost clk m
    → history (push_entry clk op m) ≡ history m ++ op ∷ []
unfolding history push_entry insert get
history-push_entry clk op [] sorted most = refl
history-push_entry clk op ((j, ops) ∷ m) sorted most = elim (Bool-cases (clk == j)) [
  | inl same ↦
      let above = subst (λ k. Above k m) (sym ((==_iff clk j).0 same)) sorted.0 in
      rw same (
        rw (nothing-Above clk m above most.1)
          (append-nil (ops ++ op ∷ []) ∙ ap (λ h. h ++ op ∷ []) (sym (append-nil ops))))
  | inr other ↦
      ap history (push_entry_skip clk j op ops m other most.0)
      ∙ ap (λ h. ops ++ h) (history-push_entry clk op m sorted.1 most.1)
      ∙ sym (append_assoc ops (history m) (op ∷ []))
]

replay-append :
    (ops : List Operation) (op : Operation) (cells : Cells)
    → replay (ops ++ op ∷ []) cells ≡ replay (op ∷ []) (replay ops cells)
unfolding replay
replay-append [] op cells = refl
replay-append (read addr value ∷ ops) op cells = replay-append ops op cells
replay-append (write addr value ∷ ops) op cells = replay-append ops op _
replay-append (dummy_read addr value ∷ ops) op cells = replay-append ops op cells

IsHistory-append :
    (ops : List Operation) (op : Operation) (cells : Cells)
    → IsHistory ops cells
    → IsHistory (op ∷ []) (replay ops cells)
    → IsHistory (ops ++ op ∷ []) cells
unfolding replay IsHistory
IsHistory-append [] op cells h k = k
IsHistory-append (read addr value ∷ ops) op cells h k = (h.0, IsHistory-append ops op cells h.1 k)
IsHistory-append (write addr value ∷ ops) op cells h k = IsHistory-append ops op _ h k
IsHistory-append (dummy_read addr value ∷ ops) op cells h k =
    (h.0, IsHistory-append ops op cells h.1 k)

abbrev initial : MemoryChip → Cells
initial m addr = get addr m.static_data

-- The log up to the cycle `clk` explains every read and the cells.
pub record IsLogged (clk : ℕ) (m : MemoryChip) : Type 0 where
  pub sorted : IsSorted m.operations
  pub in_time : AtMost clk m.operations
  pub explained : IsHistory (history m.operations) (initial m)
  pub current : (addr : ℕ) → replay (history m.operations) (initial m) addr ≡ get addr m.cells

module _ (clk : ℕ) (m : MemoryChip) (logged : IsLogged clk m) where
  pub same_history :
      (op : Operation) → history (push_entry clk op m.operations) ≡ history m.operations ++ op ∷ []
  same_history op = history-push_entry clk op m.operations logged.sorted logged.in_time

  pushed-IsSorted : (op : Operation) → IsSorted (push_entry clk op m.operations)
  unfolding push_entry
  pushed-IsSorted op = IsSorted-insert clk _ m.operations logged.sorted

  pushed-AtMost : (op : Operation) → AtMost clk (push_entry clk op m.operations)
  unfolding push_entry
  pushed-AtMost op = AtMost-insert clk _ m.operations logged.in_time

  -- Logging a read of a cell's value, or of zero for an empty cell, at the last cycle of a log
  -- that explains the memory gives such a log again.
  pub read-IsLogged :
      (addr : ℕ) (value : Word ℕ)
      → get_or (get addr m.cells) zero_word ≡ value
      → IsLogged clk (log_operation clk (read addr value) m)
  unfolding log_operation IsHistory replay
  read-IsLogged addr value e = record {
    sorted = pushed-IsSorted _;
    in_time = pushed-AtMost _;
    explained = rw (same_history (read addr value)) (
        IsHistory-append (history m.operations) (read addr value) (initial m) logged.explained
          (ap (λ o. get_or o zero_word) (logged.current addr) ∙ e, tt));
    current = λ a.
        rw (same_history (read addr value), replay-append (history m.operations))
          (logged.current a);
  }

  -- A write at the last cycle of a log that explains the memory keeps it so: each logged read
  -- still has the value that was last written before it, and replaying the log from the static
  -- data gives the new cells.
  pub write-IsLogged : (addr : ℕ) (value : Word ℕ) → IsLogged clk (write_cell clk addr value m)
  unfolding write_cell log_operation IsHistory replay
  write-IsLogged addr value = record {
    sorted = pushed-IsSorted _;
    in_time = pushed-AtMost _;
    explained = rw (same_history (write addr value)) (
        IsHistory-append (history m.operations) (write addr value) (initial m) logged.explained tt);
    current = λ a.
        rw
          (same_history (write addr value), replay-append (history m.operations), get-insert addr a)
          (ap (λ o. if a == addr then some value else o) (logged.current a));
  }

pub IsLogged-le : (i j : ℕ) (m : MemoryChip) → i ≤ j → IsLogged i m → IsLogged j m
IsLogged-le i j m h logged = record {
  sorted = logged.sorted;
  in_time = AtMost-le i j m.operations h logged.in_time;
  explained = logged.explained;
  current = logged.current;
}
