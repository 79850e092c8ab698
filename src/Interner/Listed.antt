-- ===== src/Interner/Listed.antt =====
-- An interner that keeps the strings in the order of their ids.
use weave_graph.Common.{
  ℕ, zero, suc, Text, List, [], ◌∷◌, ◌++◌, length, get_or, Option, none, some, Option-cases, ◌==◌,
  ==_iff, ==_refl, nat_eq, list_eq, if◌then◌else◌, ◌≡◌, refl, ◌⊎◌, inl, inr, arith,
}
use weave_graph.Interner.{Interner}

unfoldable pub position : List Text → Text → Option ℕ
position [] s = none
position (x ∷ xs) s =
    if x == s then some 0 else elim (position xs s) [ none ↦ none | some i ↦ some (suc i) ]

unfoldable pub adds : List Text → Text → List Text × ℕ
unfolding position
adds xs s = elim (position xs s) [ none ↦ (xs ++ s ∷ [], length xs) | some id ↦ (xs, id) ]

pub position-empty : (s : Text) → position [] s ≡ none
unfolding position
position-empty s = refl

pub position-at : (xs : List Text) (s : Text) (i : ℕ) → position xs s ≡ some i → get_or xs i [] ≡ s
unfolding position
position-at [] s i e = cc
position-at (x ∷ xs) s zero e = ground (arith, ==_iff x s)
position-at (x ∷ xs) s (suc i) e = ground (arith, position-at xs s i, ==_iff x s)

pub position-append_old :
    (xs ys : List Text) (s : Text) (i : ℕ) → position xs s ≡ some i → position (xs ++ ys) s ≡ some i
unfolding position
position-append_old [] ys s i e = cc
position-append_old (x ∷ xs) ys s zero e = ground arith
position-append_old (x ∷ xs) ys s (suc i) e = ground (arith, position-append_old xs ys s i)

pub position-append_self :
    (xs : List Text) (s : Text)
    → position xs s ≡ none
    → position (xs ++ s ∷ []) s ≡ some (length xs)
unfolding position
position-append_self [] s e = ground (arith, ==_refl s)
position-append_self (x ∷ xs) s e = ground (arith, position-append_self xs s)

position-append_other :
    (xs : List Text) (s other : Text) (i : ℕ)
    → position (xs ++ s ∷ []) other ≡ some i
    → (other ≡ s) ⊎ (position xs other ≡ some i)
unfolding position
position-append_other [] s other i e = ground (arith, ==_iff s other)
position-append_other (x ∷ xs) s other zero e = ground arith
position-append_other (x ∷ xs) s other (suc i) e =
    ground (arith, position-append_other xs s other i)

pub adds_self : (xs : List Text) (s : Text) → position (adds xs s).0 s ≡ some (adds xs s).1
unfolding adds position
adds_self xs s = elim (Option-cases (position xs s)) [
  | inl n ↦ rw (n, adds) (position-append_self xs s n)
  | inr (i, e) ↦ rw (e, adds) e
]

pub adds-kept :
    (xs : List Text) (s other : Text) (id : ℕ)
    → position xs other ≡ some id
    → position (adds xs s).0 other ≡ some id
unfolding adds position
adds-kept xs s other id e = elim (Option-cases (position xs s)) [
  | inl n ↦ rw (n, adds) (position-append_old xs (s ∷ []) other id e)
  | inr (i, k) ↦ rw (k, adds) e
]

pub adds-new :
    (xs : List Text) (s other : Text) (id : ℕ)
    → position (adds xs s).0 other ≡ some id
    → (other ≡ s) ⊎ (position xs other ≡ some id)
unfolding adds position
adds-new xs s other id e = elim (Option-cases (position xs s)) [
  | inl n ↦ position-append_other xs s other id (rw (n, adds) at e)
  | inr (i, k) ↦ inr (rw (k, adds) at e)
]

abbrev pub listed : Interner
listed = record {
  State = List Text;
  empty = [];
  intern = adds;
  get_id = position;
  resolve = λ xs id. get_or xs id [];
  get_id-empty = λ s. position-empty s;
  get_id-intern = adds_self;
  get_id_kept = adds-kept;
  get_id_new = adds-new;
  resolve-get_id = position-at;
}
