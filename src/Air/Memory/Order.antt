-- ===== src/Air/Memory/Order.antt =====
-- memory/src/lib.rs, `generate_trace`: the order of the trace, and the whole trace.
use valida.Prelude.{
  ℕ, zero, suc, replicate, ◌+◌, ◌-◌, ◌^◌, ◌≤◌, ◌<◌, ◌≡◌, ◌∙◌, refl, sym, ap, arith, List, [], ◌∷◌,
  ◌++◌, true, Bool-cases, inl, inr, All, All-append, length, length-append,
}
use mathlib.Core.List.{Perm, append_assoc}
use mathlib.Core.List.Perm
use mathlib.Core.Path.{subst}
use valida.Prelude.BTreeMap.{BTreeMap, get, Above, IsSorted}
use valida.Memory.{MemoryChip, Operation}
use valida.Memory.Log.{IsHistory, IsLogged, history}
use valida.Machine.Run.{next_power_of_two_usize}
use valida.Machine.Invariant.Padding.{usize-IsNextPower}
use valida.Air.{PrimeField}
use valida.Air.Memory.{
  Timed, with_clk, flatten, key_le, insert_op, sort_by_key, MemoryCols, zero_row, static_rows,
  op_rows, resize, generate_trace,
}
use valida.Air.Memory.Keys.{key_le_total, key_le_trans}
use valida.Air.Memory.Sort.{untimed, From, Ascending, IsHistory-sort_by_key}

-- Each operation is at a key that is not above those that follow.
abbrev pub IsOrdered : List Timed → Type 0
IsOrdered [] = Unit
IsOrdered (x ∷ ops) = All (λ y. key_le x y ≡ true) ops × IsOrdered ops

below-All :
    (x y : Timed) (ops : List Timed)
    → key_le x y ≡ true
    → All (λ z. key_le y z ≡ true) ops
    → All (λ z. key_le x z ≡ true) ops
below-All x y [] e h = tt
below-All x y (z ∷ ops) e h = (key_le_trans x y z e h.0, below-All x y ops e h.1)

below-insert_op :
    (x y : Timed) (ops : List Timed)
    → key_le y x ≡ true
    → All (λ z. key_le y z ≡ true) ops
    → All (λ z. key_le y z ≡ true) (insert_op x ops)
unfolding insert_op
below-insert_op x y [] e h = (e, tt)
below-insert_op x y (z ∷ ops) e h = elim (Bool-cases (key_le x z)) [
  | inl first ↦ rw first (e, h)
  | inr later ↦ rw later (h.0, below-insert_op x y ops e h.1)
]

insert_op-IsOrdered : (x : Timed) (ops : List Timed) → IsOrdered ops → IsOrdered (insert_op x ops)
unfolding insert_op
insert_op-IsOrdered x [] h = (tt, tt)
insert_op-IsOrdered x (y ∷ ops) h = elim (Bool-cases (key_le x y)) [
  | inl first ↦ rw first ((first, below-All x y ops first h.0), h)
  | inr later ↦
      rw later (below-insert_op x y ops (key_le_total x y later) h.0, insert_op-IsOrdered x ops h.1)
]

sort_by_key-IsOrdered : (ops : List Timed) → IsOrdered (sort_by_key ops)
unfolding sort_by_key
sort_by_key-IsOrdered [] = tt
sort_by_key-IsOrdered (x ∷ ops) =
    insert_op-IsOrdered x (sort_by_key ops) (sort_by_key-IsOrdered ops)

insert_op-perm : (x : Timed) (ops : List Timed) → Perm (insert_op x ops) (x ∷ ops)
unfolding insert_op
insert_op-perm x [] = Perm.refl _
insert_op-perm x (y ∷ ops) = elim (Bool-cases (key_le x y)) [
  | inl first ↦ rw first (Perm.refl _)
  | inr later ↦ rw later (Perm.trans (Perm.cons y (insert_op-perm x ops)) (Perm.swap x y ops))
]

sort_by_key-perm : (ops : List Timed) → Perm (sort_by_key ops) ops
unfolding sort_by_key
sort_by_key-perm [] = Perm.refl _
sort_by_key-perm (x ∷ ops) =
    Perm.trans (insert_op-perm x (sort_by_key ops)) (Perm.cons x (sort_by_key-perm ops))

length-insert_op : (x : Timed) (ops : List Timed) → length (insert_op x ops) ≡ suc (length ops)
unfolding insert_op
length-insert_op x [] = refl
length-insert_op x (y ∷ ops) = elim (Bool-cases (key_le x y)) [
  | inl first ↦ rw first refl
  | inr later ↦ rw later (ap suc (length-insert_op x ops))
]

length-sort_by_key : (ops : List Timed) → length (sort_by_key ops) ≡ length ops
unfolding sort_by_key
length-sort_by_key [] = refl
length-sort_by_key (x ∷ ops) =
    length-insert_op x (sort_by_key ops) ∙ ap suc (length-sort_by_key ops)

untimed-append : (xs ys : List Timed) → untimed (xs ++ ys) ≡ untimed xs ++ untimed ys
untimed-append [] ys = refl
untimed-append (x ∷ xs) ys = ap (λ t. x.1 ∷ t) (untimed-append xs ys)

untimed-with_clk : (clk : ℕ) (ops : List Operation) → untimed (with_clk clk ops) ≡ ops
untimed-with_clk clk [] = refl
untimed-with_clk clk (op ∷ ops) = ap (λ t. op ∷ t) (untimed-with_clk clk ops)

untimed-flatten : (m : BTreeMap (List Operation)) → untimed (flatten m) ≡ history m
unfolding flatten history
untimed-flatten [] = refl
untimed-flatten ((clk, ops) ∷ rest) =
    untimed-append (with_clk clk ops) (flatten rest)
    ∙ ap (λ t. t ++ untimed (flatten rest)) (untimed-with_clk clk ops)
    ∙ ap (λ t. ops ++ t) (untimed-flatten rest)

From-le : (j k : ℕ) (ops : List Timed) → j ≤ k → From k ops → From j ops
From-le j k [] h f = tt
From-le j k (x ∷ ops) h f = (omega (arith, h, f.0), From-le j k ops h f.1)

From-with_clk : (j clk : ℕ) (ops : List Operation) → j ≤ clk → From j (with_clk clk ops)
From-with_clk j clk [] h = tt
From-with_clk j clk (op ∷ ops) h = (h, From-with_clk j clk ops h)

From-flatten : (k : ℕ) (m : BTreeMap (List Operation)) → Above k m → IsSorted m → From k (flatten m)
unfolding flatten
From-flatten k [] a s = tt
From-flatten k ((clk, ops) ∷ rest) a s =
    All-append _ (with_clk clk ops) (flatten rest) (From-with_clk k clk ops (omega arith))
      (From-le k clk (flatten rest) (omega arith) (From-flatten clk rest s.0 s.1))

cycle-Ascending :
    (clk : ℕ) (ops : List Operation) (later : List Timed)
    → From clk later
    → Ascending later
    → Ascending (with_clk clk ops ++ later)
cycle-Ascending clk [] later f a = a
cycle-Ascending clk (op ∷ ops) later f a = (
  All-append _ (with_clk clk ops) later (From-with_clk clk clk ops (omega arith)) f,
  cycle-Ascending clk ops later f a,
)

flatten-Ascending : (m : BTreeMap (List Operation)) → IsSorted m → Ascending (flatten m)
unfolding flatten
flatten-Ascending [] s = tt
flatten-Ascending ((clk, ops) ∷ rest) s =
    cycle-Ascending clk ops (flatten rest) (From-flatten clk rest s.0 s.1)
      (flatten-Ascending rest s.1)

module _ {F : Type 0} (p : PrimeField F) where
  -- The rows: those of the static data, those of the operations in the order of their addresses,
  -- and padding.
  pub record IsTrace (m : MemoryChip) (rows : List (MemoryCols F)) : Type 0 where
    pub ops : List Timed
    pub padding : ℕ
    pub same :
        rows
        ≡ static_rows p 0 m.static_data
          ++ (op_rows p (length m.static_data) ops ++ replicate padding (zero_row p))
    pub ordered : IsOrdered ops
    pub permuted : Perm ops (flatten m.operations)
    pub explained : IsHistory (untimed ops) (λ addr. get addr m.static_data)
    pub power : length rows ≡ next_power_of_two_usize (length m.static_data + length ops)

  length-static_rows :
      (n : ℕ) (statics : BTreeMap _) → length (static_rows p n statics) ≡ length statics
  unfolding static_rows
  length-static_rows n [] = refl
  length-static_rows n (x ∷ statics) = ap suc (length-static_rows (suc n) statics)

  length-op_rows : (n : ℕ) (ops : List Timed) → length (op_rows p n ops) ≡ length ops
  unfolding op_rows
  length-op_rows n [] = refl
  length-op_rows n (x ∷ ops) = ap suc (length-op_rows (suc n) ops)

  resize-longer :
      (rows : List (MemoryCols F)) (n k : ℕ) (row : MemoryCols F)
      → length rows + k ≡ n
      → resize p rows n row ≡ rows ++ replicate k row
  unfolding resize
  resize-longer [] zero zero row h = refl
  resize-longer [] zero (suc k) row h = absurd (omega arith)
  resize-longer [] (suc n) zero row h = absurd (omega arith)
  resize-longer [] (suc n) (suc k) row h =
      ap (λ t. row ∷ t) (resize-longer [] n k row (omega arith))
  resize-longer (r ∷ rows) zero k row h = absurd (omega arith)
  resize-longer (r ∷ rows) (suc n) k row h =
      ap (λ t. r ∷ t) (resize-longer rows n k row (omega arith))

  length-resize :
      (rows : List (MemoryCols F)) (n : ℕ) (row : MemoryCols F) → length (resize p rows n row) ≡ n
  unfolding resize
  length-resize rows zero row = refl
  length-resize [] (suc n) row = ap suc (length-resize [] n row)
  length-resize (r ∷ rows) (suc n) row = ap suc (length-resize rows n row)

  -- For a memory chip whose log explains its cells, with an entry and fewer than 2 ^ 63 of them,
  -- the trace has the rows of the static data, then a permutation of the logged operations, and
  -- zero rows up to the next power of two. The operations are in the order of their addresses and
  -- then of their cycles, and each read has the value that was last written to its address before
  -- it in the trace, or the static one, or zero.
  pub generate_trace-IsTrace :
      (clk : ℕ) (m : MemoryChip)
      → IsLogged clk m
      → 0 < length m.static_data + length (flatten m.operations)
      → length m.static_data + length (flatten m.operations) < 2 ^ 63
      → IsTrace m (generate_trace p m)
  unfolding generate_trace
  generate_trace-IsTrace clk m logged some_op small =
      let ops = sort_by_key (flatten m.operations) in
      let statics = static_rows p 0 m.static_data in
      let n = length m.static_data + length (flatten m.operations) in
      let rows = statics ++ op_rows p (length statics) ops in
      let count : length rows ≡ n =
        length-append statics (op_rows p (length statics) ops)
        ∙ omega (
          arith,
          length-static_rows 0 m.static_data,
          length-op_rows (length statics) ops,
          length-sort_by_key (flatten m.operations),
        ) in
      let power = usize-IsNextPower n some_op (omega arith) in
      let more = next_power_of_two_usize n - n in
      let enough : length rows + more ≡ next_power_of_two_usize (length rows) =
        omega (arith, count, power.enough, ap next_power_of_two_usize count) in
      record {
        ops = ops;
        padding = more;
        same =
            resize-longer rows (next_power_of_two_usize (length rows)) more (zero_row p) enough
            ∙ append_assoc statics (op_rows p (length statics) ops) (replicate more (zero_row p))
            ∙ ap (λ k. statics ++ (op_rows p k ops ++ replicate more (zero_row p)))
                (length-static_rows 0 m.static_data);
        ordered = sort_by_key-IsOrdered (flatten m.operations);
        permuted = sort_by_key-perm (flatten m.operations);
        explained =
            IsHistory-sort_by_key (flatten m.operations) _
              (flatten-Ascending m.operations logged.sorted)
              (subst (λ h. IsHistory h (λ addr. get addr m.static_data))
                (sym (untimed-flatten m.operations)) logged.explained);
        power =
            length-resize rows (next_power_of_two_usize (length rows)) (zero_row p)
            ∙ ap next_power_of_two_usize count
            ∙ ap (λ k. next_power_of_two_usize (length m.static_data + k))
                (sym (length-sort_by_key (flatten m.operations)));
      }
