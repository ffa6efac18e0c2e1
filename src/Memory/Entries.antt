-- ===== src/Memory/Entries.antt =====
-- memory/src/lib.rs: what the calls of one cycle add to the log.
use valida.Prelude.{ℕ, ◌≡◌, ◌∙◌, refl, sym, ap, List, [], ◌∷◌, ◌++◌, some, false, ◌==◌, ==_iff}
use valida.Prelude.BTreeMap.{BTreeMap, get, get-insert}
use valida.Memory.{MemoryChip, Operation, read, write, dummy_read, push_entry}
use valida.Memory.Log.{IsLogged, history, same_history}
use mathlib.Core.Option.{get_or}
use mathlib.Core.List.{append_assoc, append-nil}

-- The kind of an operation.
pub data Access : Type 0 where
  reading writing dummy : Access

abbrev pub access_of : Operation → Access
access_of (read addr value) = reading
access_of (write addr value) = writing
access_of (dummy_read addr value) = dummy

abbrev pub accesses_of : List Operation → List Access
accesses_of [] = []
accesses_of (op ∷ ops) = access_of op ∷ accesses_of ops

accesses_of-append :
    (ops : List Operation) (op : Operation)
    → accesses_of (ops ++ op ∷ []) ≡ accesses_of ops ++ access_of op ∷ []
accesses_of-append [] op = refl
accesses_of-append (first ∷ ops) op = ap (λ l. access_of first ∷ l) (accesses_of-append ops op)

-- Operations of these kinds, in this order, come last in the log and in the entry of the cycle, and no other entry changes.
pub record Extends (clk : ℕ) (accesses : List Access) (before after : BTreeMap (List Operation))
    : Type 0 where
  pub added : List Operation
  pub accessed : accesses_of added ≡ accesses
  pub appended : history after ≡ history before ++ added
  pub entry : get_or (get clk after) [] ≡ get_or (get clk before) [] ++ added
  pub elsewhere : (k : ℕ) → (k == clk) ≡ false → get k after ≡ get k before

pub nothing-Extends : (clk : ℕ) (before : BTreeMap (List Operation)) → Extends clk [] before before
nothing-Extends clk before = record {
  added = [];
  accessed = refl;
  appended = sym (append-nil _);
  entry = sym (append-nil _);
  elsewhere = λ k other. refl;
}

pub entry-push_entry :
    (clk : ℕ) (op : Operation) (ops : BTreeMap (List Operation))
    → get clk (push_entry clk op ops) ≡ some (get_or (get clk ops) [] ++ op ∷ [])
unfolding push_entry
entry-push_entry clk op ops = get-insert clk clk _ ops ∙ rw ((==_iff clk clk).1 refl) refl

pub elsewhere-push_entry :
    (clk k : ℕ) (op : Operation) (ops : BTreeMap (List Operation))
    → (k == clk) ≡ false
    → get k (push_entry clk op ops) ≡ get k ops
unfolding push_entry
elsewhere-push_entry clk k op ops other = get-insert clk k _ ops ∙ rw other refl

pub pushed-Extends :
    (clk : ℕ) (accesses : List Access) (before : BTreeMap (List Operation)) (m : MemoryChip)
    (op : Operation)
    → IsLogged clk m
    → Extends clk accesses before m.operations
    → Extends clk (accesses ++ access_of op ∷ []) before (push_entry clk op m.operations)
pushed-Extends clk accesses before m op logged e = record {
  added = e.added ++ op ∷ [];
  accessed = accesses_of-append e.added op ∙ ap (λ l. l ++ access_of op ∷ []) e.accessed;
  appended =
      same_history clk m logged op
      ∙ ap (λ h. h ++ op ∷ []) e.appended
      ∙ append_assoc (history before) e.added (op ∷ []);
  entry =
      ap (λ o. get_or o []) (entry-push_entry clk op m.operations)
      ∙ ap (λ h. h ++ op ∷ []) e.entry
      ∙ append_assoc (get_or (get clk before) []) e.added (op ∷ []);
  elsewhere = λ k other. elsewhere-push_entry clk k op m.operations other ∙ e.elsewhere k other;
}
