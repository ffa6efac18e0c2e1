-- ===== src/Word/Ordering.antt =====
-- machine/src/core.rs: `PartialEq` and `Ord` of `Word<u8>`, byte by byte from element 0.
use Prim.Native.Nat.{compare, Ordering}
use valida.Prelude.{ℕ, Bool, true, false, ◌&&◌, ◌==◌, not, List, [], ◌∷◌}
use valida.Word.{Word}

unfoldable pub eq : Word ℕ → Word ℕ → Bool
eq a b =
    a.byte_0 == b.byte_0 && (a.byte_1 == b.byte_1 && (a.byte_2 == b.byte_2 && a.byte_3 == b.byte_3))

-- `find` the first that is not `Equal`, or `Equal`.
abbrev first_unequal : List Ordering → Ordering
first_unequal [] = Ordering.eq
first_unequal (Ordering.eq ∷ rest) = first_unequal rest
first_unequal (Ordering.lt ∷ rest) = Ordering.lt
first_unequal (Ordering.gt ∷ rest) = Ordering.gt

unfoldable pub cmp : Word ℕ → Word ℕ → Ordering
cmp a b = first_unequal (
    compare a.byte_0 b.byte_0
    ∷ compare a.byte_1 b.byte_1
    ∷ compare a.byte_2 b.byte_2
    ∷ compare a.byte_3 b.byte_3
    ∷ [])

-- `a < b` and `a <= b`, by `partial_cmp`.
unfoldable pub lt : Word ℕ → Word ℕ → Bool
unfolding cmp
lt a b = elim (cmp a b) [ Ordering.lt ↦ true | _ ↦ false ]

unfoldable pub le : Word ℕ → Word ℕ → Bool
unfolding cmp
le a b = elim (cmp a b) [ Ordering.gt ↦ false | _ ↦ true ]

unfoldable pub ne : Word ℕ → Word ℕ → Bool
unfolding eq
ne a b = not (eq a b)
