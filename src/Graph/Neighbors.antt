-- ===== src/Graph/Neighbors.antt =====
-- The outbound neighbours come in rising order, so that none of them comes twice.
use weave_graph.Common.{
  ℕ, zero, suc, ◌<◌, List, [], ◌∷◌, map, get_or, length, inl, inr, refl, arith, In, Option-cases,
  sym, subst, Relates, Pairwise,
}
use weave_graph.Csr.{neighbors_slice}
use weave_graph.Graph.{CsrGraph, binary_search, outbound}
use weave_graph.Graph.Index.{binary_search-at}
use weave_graph.Graph.Outbound.{
  Represents, In-neighbors, neighbors-rising, outbound-none, outbound-some,
}

Relates-get_or :
    (x : ℕ) (xs : List ℕ) (i : ℕ) → Relates ◌<◌ x xs → i < length xs → x < get_or xs i 0
Relates-get_or x [] i h low = absurd (omega arith)
Relates-get_or x (y ∷ ys) zero h low = h.0
Relates-get_or x (y ∷ ys) (suc i) h low = Relates-get_or x ys i h.1 (omega arith)

get_or-rising :
    (ids : List ℕ) (i j : ℕ)
    → Pairwise ◌<◌ ids
    → i < j
    → j < length ids
    → get_or ids i 0 < get_or ids j 0
get_or-rising [] i j h less low = absurd (omega arith)
get_or-rising (x ∷ xs) i zero h less low = absurd (omega arith)
get_or-rising (x ∷ xs) zero (suc j) h less low = Relates-get_or x xs j h.0 (omega arith)
get_or-rising (x ∷ xs) (suc i) (suc j) h less low =
    get_or-rising xs i j h.1 (omega arith) (omega arith)

module _ (ids : List ℕ) (rising : Pairwise ◌<◌ ids) where
  abbrev storage_id : ℕ → ℕ
  storage_id n = get_or ids n 0

  Relates-map :
      (n : ℕ) (ms : List ℕ)
      → Relates ◌<◌ n ms
      → ((m : ℕ) → In m ms → m < length ids)
      → Relates ◌<◌ (storage_id n) (map storage_id ms)
  Relates-map n [] h low = tt
  Relates-map n (m ∷ ms) h low = (
    get_or-rising ids n m rising h.0 (low m (inl refl)),
    Relates-map n ms h.1 (λ k q. low k (inr q)),
  )

  map-rising :
      (ns : List ℕ)
      → Pairwise ◌<◌ ns
      → ((n : ℕ) → In n ns → n < length ids)
      → Pairwise ◌<◌ (map storage_id ns)
  map-rising [] h low = tt
  map-rising (n ∷ ns) h low =
      (Relates-map n ns h.0 (λ k q. low k (inr q)), map-rising ns h.1 (λ k q. low k (inr q)))

pub outbound-rising :
    (ids : List ℕ) (edges : List (ℕ × ℕ)) (g : CsrGraph)
    → Represents ids edges g
    → Pairwise ◌<◌ ids
    → (s : ℕ) → Pairwise ◌<◌ (outbound g s)
outbound-rising ids edges g r rising s = elim (Option-cases (binary_search ids s)) [
  | inl n ↦ subst (Pairwise ◌<◌) (sym (outbound-none ids edges g r s n)) tt
  | inr (u, e) ↦
      let low : (v : ℕ) → In v (neighbors_slice g.csr u) → v < length ids = λ v m.
        let (_, t, _, _, b) = In-neighbors ids edges g r u v m in (binary_search-at ids t v b).0 in
      subst (Pairwise ◌<◌) (sym (outbound-some ids edges g r s u e)) (
        map-rising ids rising (neighbors_slice g.csr u)
          (neighbors-rising ids edges g r u (binary_search-at ids s u e).0) low)
]
