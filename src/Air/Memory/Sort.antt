-- ===== src/Air/Memory/Sort.antt =====
-- memory/src/lib.rs, `generate_trace`: the sorted log explains each read, as the log does.
use valida.Prelude.{
  ℕ, ◌≤◌, ◌<◌, ◌≡◌, ◌≢◌, ◌∙◌, refl, sym, ap, arith, fun_ext, List, [], ◌∷◌, true, false, ◌==◌,
  ==_iff, leb, Bool-cases, inl, inr, All,
}
use mathlib.Core.Option.{get_or}
use mathlib.Core.Path.{subst}
use valida.Word.{Word}
use valida.Memory.{Operation, read, write, dummy_read, get_address, zero_word}
use valida.Memory.Log.{Cells, update, IsHistory}
use valida.Air.Memory.{Timed, key_le, insert_op, sort_by_key}

-- The operations alone.
abbrev pub untimed : List Timed → List Operation
untimed [] = []
untimed ((clk, op) ∷ ops) = op ∷ untimed ops

-- The cells after an operation.
after : Operation → Cells → Cells
after (read addr value) cells = cells
after (write addr value) cells = update cells addr value
after (dummy_read addr value) cells = cells

Explains : Operation → Cells → Type 0
Explains (read addr value) cells = get_or (cells addr) zero_word ≡ value
Explains (write addr value) cells = Unit
Explains (dummy_read addr value) cells = get_or (cells addr) zero_word ≡ value

step_in :
    (op : Operation) (ops : List Operation) (cells : Cells)
    → IsHistory (op ∷ ops) cells
    → Explains op cells × IsHistory ops (after op cells)
unfolding IsHistory after Explains
step_in (read addr value) ops cells h = h
step_in (write addr value) ops cells h = (tt, h)
step_in (dummy_read addr value) ops cells h = h

step_out :
    (op : Operation) (ops : List Operation) (cells : Cells)
    → Explains op cells
    → IsHistory ops (after op cells)
    → IsHistory (op ∷ ops) cells
unfolding IsHistory after Explains
step_out (read addr value) ops cells e h = (e, h)
step_out (write addr value) ops cells e h = h
step_out (dummy_read addr value) ops cells e h = (e, h)

unequal : (a b : ℕ) → a ≢ b → (a == b) ≡ false
unequal a b n = ground arith

after_other :
    (op : Operation) (cells : Cells) (addr : ℕ)
    → addr ≢ get_address op
    → after op cells addr ≡ cells addr
unfolding after get_address
after_other (read a value) cells addr n = refl
after_other (write a value) cells addr n = rw (unequal addr a n) refl
after_other (dummy_read a value) cells addr n = refl

Explains-same :
    (op : Operation) (cells other : Cells)
    → cells (get_address op) ≡ other (get_address op)
    → Explains op cells
    → Explains op other
unfolding Explains get_address
Explains-same (read addr value) cells other e h = ap (λ o. get_or o zero_word) (sym e) ∙ h
Explains-same (write addr value) cells other e h = tt
Explains-same (dummy_read addr value) cells other e h = ap (λ o. get_or o zero_word) (sym e) ∙ h

update_comm :
    (cells : Cells) (a b : ℕ) (v w : Word ℕ)
    → a ≢ b
    → update (update cells a v) b w ≡ update (update cells b w) a v
update_comm cells a b v w n = fun_ext λ j. elim (Bool-cases (j == a)) [
  | inl at_a ↦ rw (at_a, unequal j b (λ e. n (sym ((==_iff j a).0 at_a) ∙ e))) refl
  | inr not_a ↦ rw not_a refl
]

after_comm :
    (x y : Operation) (cells : Cells)
    → get_address x ≢ get_address y
    → after y (after x cells) ≡ after x (after y cells)
unfolding after get_address
after_comm (write a v) (write b w) cells n = update_comm cells a b v w n
after_comm (write a v) (read b w) cells n = refl
after_comm (write a v) (dummy_read b w) cells n = refl
after_comm (read a v) y cells n = refl
after_comm (dummy_read a v) y cells n = refl

-- Two neighbours at different addresses may change places.
swap :
    (x y : Operation) (ops : List Operation) (cells : Cells)
    → get_address x ≢ get_address y
    → IsHistory (x ∷ y ∷ ops) cells
    → IsHistory (y ∷ x ∷ ops) cells
swap x y ops cells n h =
    let (ex, hy) = step_in x (y ∷ ops) cells h in
    let (ey, rest) = step_in y ops (after x cells) hy in
    step_out y (x ∷ ops) cells
      (Explains-same y (after x cells) cells (after_other x cells (get_address y) (λ e. n (sym e)))
        ey)
      (step_out x ops (after y cells)
        (Explains-same x cells (after y cells) (sym (after_other y cells (get_address x) n)) ex)
        (subst (IsHistory ops) (after_comm x y cells n) rest))

-- No operation is earlier than the clock.
abbrev pub From : ℕ → List Timed → Type 0
From clk = All (λ t. clk ≤ t.0)

leb→lt : (a b : ℕ) → leb a b ≡ false → b < a
leb→lt a b e = ground arith

passed : (x y : Timed) → key_le x y ≡ false → x.0 ≤ y.0 → get_address x.1 ≢ get_address y.1
unfolding key_le
passed x y e h same =
    let t : (get_address x.1 == get_address y.1) ≡ true = (==_iff _ _).1 same in
    absurd (omega (arith, h, leb→lt x.0 y.0 (rw t at e)))

IsHistory-insert_op :
    (x : Timed) (ops : List Timed) (cells : Cells)
    → From x.0 ops
    → IsHistory (x.1 ∷ untimed ops) cells
    → IsHistory (untimed (insert_op x ops)) cells
unfolding insert_op
IsHistory-insert_op x [] cells f h = h
IsHistory-insert_op x (y ∷ ops) cells f h = elim (Bool-cases (key_le x y)) [
  | inl first ↦ rw first h
  | inr later ↦
      let swapped = swap x.1 y.1 (untimed ops) cells (passed x y later f.0) h in
      let (ey, rest) = step_in y.1 (x.1 ∷ untimed ops) cells swapped in
      rw later (
        step_out y.1 (untimed (insert_op x ops)) cells ey
          (IsHistory-insert_op x ops (after y.1 cells) f.1 rest))
]

From-insert_op :
    (clk : ℕ) (x : Timed) (ops : List Timed) → clk ≤ x.0 → From clk ops → From clk (insert_op x ops)
unfolding insert_op
From-insert_op clk x [] h f = (h, tt)
From-insert_op clk x (y ∷ ops) h f = elim (Bool-cases (key_le x y)) [
  | inl first ↦ rw first (h, f)
  | inr later ↦ rw later (f.0, From-insert_op clk x ops h f.1)
]

From-sort_by_key : (clk : ℕ) (ops : List Timed) → From clk ops → From clk (sort_by_key ops)
unfolding sort_by_key
From-sort_by_key clk [] f = tt
From-sort_by_key clk (x ∷ ops) f = From-insert_op clk x _ f.0 (From-sort_by_key clk ops f.1)

-- The clocks do not fall.
abbrev pub Ascending : List Timed → Type 0
Ascending [] = Unit
Ascending (x ∷ ops) = From x.0 ops × Ascending ops

pub IsHistory-sort_by_key :
    (ops : List Timed) (cells : Cells)
    → Ascending ops
    → IsHistory (untimed ops) cells
    → IsHistory (untimed (sort_by_key ops)) cells
unfolding sort_by_key
IsHistory-sort_by_key [] cells a h = h
IsHistory-sort_by_key (x ∷ ops) cells a h =
    let (e, rest) = step_in x.1 (untimed ops) cells h in
    IsHistory-insert_op x (sort_by_key ops) cells (From-sort_by_key x.0 ops a.0) (
      step_out x.1 (untimed (sort_by_key ops)) cells e
        (IsHistory-sort_by_key ops (after x.1 cells) a.1 rest))
