-- ===== src/Graph/Outbound.antt =====
-- What the compacted graph holds, in terms of storage ids.
use weave_graph.Common.{
  ℕ, ◌≤◌, ◌<◌, List, [], ◌∷◌, map, filter_map, get_or, length, none, some, ◌≡◌, ◌↔◌, inl, inr, refl,
  arith, In, nat_eq, Bool-cases, Option-cases, sym, subst, ◌∙◌, In-filter_map, filter_map-In,
  In-filter, In-map, map-In, ltb, Pairwise,
}
use weave_graph.Csr.{neighbors_slice, u32_max}
use weave_graph.Csr.Rows.{row, in_range}
use weave_graph.Csr.Neighbors.{Answers, IsWellFormed, from_sorted_edges_lem}
use weave_graph.Graph.{
  CsrGraph, ok, panic, binary_search, compact_edge, build, assemble, sort_and_dedup_edges, outbound,
  as_u32,
}
use weave_graph.Graph.Index.{binary_search-at, binary_search-In, In-of-binary_search}
use weave_graph.Graph.Order.{
  Before, sort_and_dedup_edges-Before, filter-Pairwise, row-rising, sort_and_dedup_edges-Ordered,
  In-sort_and_dedup_edges,
}

In-row : (u v : ℕ) (es : List (ℕ × ℕ)) → In v (row u es) ↔ In (u, v) es
In-row u v [] = (λ h. h, λ h. h)
In-row u v (e ∷ es) = ground (arith, In-row u v es)

compact_edge-some :
    (ids : List ℕ) (s t u v : ℕ)
    → length ids ≤ u32_max
    → binary_search ids s ≡ some u
    → binary_search ids t ≡ some v
    → compact_edge ids (s, t) ≡ some (u, v)
unfolding compact_edge
compact_edge-some ids s t u v h e f =
    ground (arith, binary_search-at ids s u, binary_search-at ids t v)

compact_edge-ends :
    (ids : List ℕ) (s t u v : ℕ)
    → length ids ≤ u32_max
    → compact_edge ids (s, t) ≡ some (u, v)
    → (binary_search ids s ≡ some u) × (binary_search ids t ≡ some v)
unfolding compact_edge
compact_edge-ends ids s t u v h e = elim (Option-cases (binary_search ids s)) [
  | inl n ↦ ground arith
  | inr (u', p) ↦ elim (Option-cases (binary_search ids t)) [
    | inl n ↦ ground arith
    | inr (v', q) ↦ ground (arith, binary_search-at ids s u', binary_search-at ids t v')
  ]
]

-- A graph that was built from sorted distinct ids and the edges between them.
pub record Represents (ids : List ℕ) (edges : List (ℕ × ℕ)) (g : CsrGraph) : Type 0 where
  pub ids_kept : g.index_to_id ≡ ids
  pub small : length ids ≤ u32_max
  pub answers :
      Answers (sort_and_dedup_edges (filter_map (compact_edge ids) edges)) (length ids) g.csr
  pub well_formed : IsWellFormed g.csr

pub build-Represents :
    (ids : List ℕ) (edges : List (ℕ × ℕ))
    → length ids ≤ u32_max
    → (g : CsrGraph) × (build ids edges ≡ ok g) × Represents ids edges g
unfolding build
build-Represents ids edges small =
    let compact = sort_and_dedup_edges (filter_map (compact_edge ids) edges) in
    let (csr, e, a, w) =
      (from_sorted_edges_lem compact (length ids)
          (sort_and_dedup_edges-Ordered (filter_map (compact_edge ids) edges))).0
        small in
    (
      record { csr = csr; index_to_id = ids },
      rw (e, assemble),
      record { ids_kept = refl; small = small; answers = a; well_formed = w },
    )

pub build-panic :
    (ids : List ℕ) (edges : List (ℕ × ℕ)) → u32_max < length ids → build ids edges ≡ panic
unfolding build
build-panic ids edges large =
    let compact = sort_and_dedup_edges (filter_map (compact_edge ids) edges) in
    let e =
      (from_sorted_edges_lem compact (length ids)
          (sort_and_dedup_edges-Ordered (filter_map (compact_edge ids) edges))).1
        large in
    rw (e, assemble)

module _ (ids : List ℕ) (edges : List (ℕ × ℕ)) (g : CsrGraph) (r : Represents ids edges g) where
  open r use {ids_kept, small, answers}

  compact : List (ℕ × ℕ)
  compact = sort_and_dedup_edges (filter_map (compact_edge ids) edges)

  -- The compact neighbours are the positions of the targets.
  pub In-neighbors :
      (u v : ℕ)
      → In v (neighbors_slice g.csr u)
      → (s t : ℕ) × In (s, t) edges
        × (binary_search ids s ≡ some u)
        × (binary_search ids t ≡ some v)
  unfolding compact
  In-neighbors u v m = elim (Bool-cases (ltb u (length ids))) [
    | inl low ↦
        let kept = (In-row u v _).0 (subst (In v) (answers.inside u (ground arith)) m) in
        let c = (In-sort_and_dedup_edges (u, v) _).0 ((In-filter _ (u, v) compact).0 kept).0 in
        let ((s, t), n, e) = In-filter_map (compact_edge ids) edges (u, v) c in
        let (a, b) = compact_edge-ends ids s t u v small e in (s, t, n, a, b)
    | inr high ↦ absurd (subst (In v) (answers.outside u (ground arith)) m)
  ]

  pub neighbors-In :
      (s t u v : ℕ)
      → In (s, t) edges
      → binary_search ids s ≡ some u
      → binary_search ids t ≡ some v
      → In v (neighbors_slice g.csr u)
  unfolding compact
  neighbors-In s t u v m a b =
      let low = binary_search-at ids s u a in
      let low' = binary_search-at ids t v b in
      let c =
        filter_map-In (compact_edge ids) edges (s, t) (u, v) m
          (compact_edge-some ids s t u v small a b) in
      let kept =
        (In-filter (in_range (length ids)) (u, v) compact).1
          ((In-sort_and_dedup_edges (u, v) _).1 c, ground (arith, low.0, low'.0)) in
      subst (In v) (sym (answers.inside u low.0)) ((In-row u v _).1 kept)

  pub neighbors-rising : (u : ℕ) → u < length ids → Pairwise ◌<◌ (neighbors_slice g.csr u)
  unfolding compact
  neighbors-rising u low = subst (Pairwise ◌<◌) (sym (answers.inside u low)) (
      row-rising u _ (
        filter-Pairwise Before (in_range (length ids)) compact
          (sort_and_dedup_edges-Before (filter_map (compact_edge ids) edges))))

  pub outbound-none : (s : ℕ) → binary_search ids s ≡ none → outbound g s ≡ []
  unfolding outbound
  outbound-none s e = ground (arith, ids_kept)

  pub outbound-some :
      (s u : ℕ)
      → binary_search ids s ≡ some u
      → outbound g s ≡ map (λ n. get_or ids n 0) (neighbors_slice g.csr u)
  unfolding outbound
  outbound-some s u e =
      let low = (binary_search-at ids s u e).0 in
      let same : as_u32 u ≡ u = omega arith in
      let found : binary_search g.index_to_id s ≡ some u = rw ids_kept e in
      rw (found, outbound, same, ids_kept) refl

  -- A storage id `t` is among the outbound neighbours of `s` exactly when both are ids of the graph
  -- and the edge from `s` to `t` was given.
  pub outbound_iff : (s t : ℕ) → In t (outbound g s) ↔ (In s ids × In t ids × In (s, t) edges)
  outbound_iff s t = (
    λ m. elim (Option-cases (binary_search ids s)) [
      | inl n ↦ absurd (subst (In t) (outbound-none s n) m)
      | inr (u, e) ↦
          let (v, m', q) =
            In-map (λ n. get_or ids n 0) (neighbors_slice g.csr u) t
              (subst (In t) (outbound-some s u e) m) in
          let (s', t', n, a, b) = In-neighbors u v m' in
          let here : s' ≡ s =
            sym (binary_search-at ids s' u a).1 ∙ (binary_search-at ids s u e).1 in
          let there : t' ≡ t = sym (binary_search-at ids t' v b).1 ∙ sym q in
          (
            In-of-binary_search ids s u e,
            subst (λ x. In x ids) there (In-of-binary_search ids t' v b),
            subst (λ (p : ℕ × ℕ). In p edges) (λ i. (here i, there i)) n,
          )
    ],
    λ (ms, mt, m).
        let (u, e) = binary_search-In ids s ms in
        let (v, f) = binary_search-In ids t mt in
        subst (In t) (sym (outbound-some s u e)) (
          subst (λ x. In x (map (λ n. get_or ids n 0) (neighbors_slice g.csr u)))
            (binary_search-at ids t v f).1
            (map-In (λ n. get_or ids n 0) (neighbors_slice g.csr u) v
              (neighbors-In s t u v m e f))),
  )
