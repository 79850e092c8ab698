-- ===== src/Bitmap/Listed.antt =====
-- A bitmap as a list of its members, which shows that the assumptions on `roaring` can be met.
use weave_graph.Common.{
  ℕ, Bool, true, false, not, ◌||◌, List, [], ◌∷◌, ◌≡◌, refl, arith, contains, contains_iff, ◌==◌,
  nat_eq, if◌then◌else◌, Bool-cases, nat_beq_iff, inl, inr,
}
use weave_graph.Bitmap.{Bitmap}

abbrev pub add : List ℕ → ℕ → List ℕ × Bool
add s x = if contains s x then (s, false) else (x ∷ s, true)

pub contains-add : (s : List ℕ) (x y : ℕ) → contains (add s x).0 y ≡ (y == x || contains s y)
contains-add s x y = elim (Bool-cases (contains s x)) [
  | inl e ↦ rw e (ground (arith, contains_iff s x, contains_iff s y, nat_beq_iff y x))
  | inr e ↦ rw e
]

pub add_new : (s : List ℕ) (x : ℕ) → (add s x).1 ≡ not (contains s x)
add_new s x = ground arith

abbrev pub listed : Bitmap
listed = record {
  Bits = List ℕ;
  empty = [];
  contains = contains;
  insert = add;
  iter = λ s. s;
  contains-empty = λ x. refl;
  contains-insert = contains-add;
  insert_new = add_new;
  In-iter = λ s x. ((contains_iff s x).1, (contains_iff s x).0);
}
