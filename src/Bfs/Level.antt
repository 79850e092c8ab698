-- ===== src/Bfs/Level.antt =====
-- One level of the search: what it marks, and what it puts on the next frontier.
use weave_graph.Common.{
  ℕ, List, [], ◌∷◌, ◌++◌, true, false, ◌≡◌, ◌↔◌, ◌⊎◌, inl, inr, refl, arith, In, In-append,
  if◌then◌else◌, nat_eq, nat_beq_iff,
}
use weave_graph.Csr.{CompactCsr, neighbors_slice}
use weave_graph.Bitmap.{Bitmap}
use weave_graph.Bfs.{visit, expand}

-- `w` is a neighbour of a node of the frontier.
abbrev pub FromAny : CompactCsr → List ℕ → ℕ → Type 0
FromAny csr [] w = ⊥
FromAny csr (u ∷ us) w = In w (neighbors_slice csr u) ⊎ FromAny csr us w

pub FromAny-In :
    (csr : CompactCsr) (us : List ℕ) (u w : ℕ)
    → In u us
    → In w (neighbors_slice csr u)
    → FromAny csr us w
FromAny-In csr [] u w m e = absurd m
FromAny-In csr (x ∷ us) u w (inl same) e = inl (rw same at e)
FromAny-In csr (x ∷ us) u w (inr m) e = inr (FromAny-In csr us u w m e)

pub In-FromAny :
    (csr : CompactCsr) (us : List ℕ) (w : ℕ)
    → FromAny csr us w
    → (u : ℕ) × In u us × In w (neighbors_slice csr u)
In-FromAny csr [] w h = absurd h
In-FromAny csr (x ∷ us) w (inl e) = (x, inl refl, e)
In-FromAny csr (x ∷ us) w (inr h) = let (u, m, e) = In-FromAny csr us w h in (u, inr m, e)

module _ (bitmap : Bitmap) where
  open bitmap use {Bits, contains, insert, contains-insert, insert_new}

  visit_marks :
      (reached : Bits) (next vs : List ℕ) (w : ℕ)
      → (contains (visit bitmap (reached, next) vs).0 w ≡ true)
        ↔ ((contains reached w ≡ true) ⊎ In w vs)
  unfolding visit
  visit_marks reached next [] w = ground arith
  visit_marks reached next (v ∷ vs) w = ground (
    arith,
    visit_marks (insert reached v).0 (if (insert reached v).1 then next ++ v ∷ [] else next) vs w,
    contains-insert reached v w,
    nat_beq_iff w v,
  )

  visit_next :
      (reached : Bits) (next vs : List ℕ) (w : ℕ)
      → In w (visit bitmap (reached, next) vs).1 ↔ (
          In w next
          ⊎ (contains (visit bitmap (reached, next) vs).0 w ≡ true) × (contains reached w ≡ false))
  unfolding visit
  visit_next reached next [] w = ground arith
  visit_next reached next (v ∷ vs) w = ground (
    arith,
    visit_next (insert reached v).0 (if (insert reached v).1 then next ++ v ∷ [] else next) vs w,
    visit_marks (insert reached v).0 (if (insert reached v).1 then next ++ v ∷ [] else next) vs w,
    contains-insert reached v w,
    contains-insert reached v v,
    insert_new reached v,
    In-append w next (v ∷ []),
    nat_beq_iff w v,
  )

  pub expand_marks :
      (csr : CompactCsr) (reached : Bits) (next us : List ℕ) (w : ℕ)
      → (contains (expand bitmap csr (reached, next) us).0 w ≡ true)
        ↔ ((contains reached w ≡ true) ⊎ FromAny csr us w)
  unfolding expand
  expand_marks csr reached next [] w = ground arith
  expand_marks csr reached next (u ∷ us) w = ground (
    arith,
    expand_marks csr (visit bitmap (reached, next) (neighbors_slice csr u)).0
        (visit bitmap (reached, next) (neighbors_slice csr u)).1 us w,
    visit_marks reached next (neighbors_slice csr u) w,
  )

  pub expand_next :
      (csr : CompactCsr) (reached : Bits) (next us : List ℕ) (w : ℕ)
      → In w (expand bitmap csr (reached, next) us).1 ↔ (
          In w next
          ⊎ (contains (expand bitmap csr (reached, next) us).0 w ≡ true)
            × (contains reached w ≡ false))
  unfolding expand
  expand_next csr reached next [] w = ground arith
  expand_next csr reached next (u ∷ us) w = ground (
    arith,
    expand_next csr (visit bitmap (reached, next) (neighbors_slice csr u)).0
        (visit bitmap (reached, next) (neighbors_slice csr u)).1 us w,
    expand_marks csr (visit bitmap (reached, next) (neighbors_slice csr u)).0
        (visit bitmap (reached, next) (neighbors_slice csr u)).1 us w,
    visit_next reached next (neighbors_slice csr u) w,
    visit_marks reached next (neighbors_slice csr u) w,
  )
