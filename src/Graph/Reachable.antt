-- ===== src/Graph/Reachable.antt =====
-- Reachability in terms of storage ids.
use weave_graph.Common.{
  ℕ, zero, suc, ◌<◌, List, [], ◌∷◌, get_or, get_elem?, length, true, none, some, ◌≡◌, ◌↔◌, inl, inr,
  arith, In, sym, subst, ap, ◌∙◌, In-filter_map, filter_map-In, In-map, Option-cases,
}
use weave_graph.Csr.{neighbors_slice}
use weave_graph.Bitmap.{Bitmap}
use weave_graph.Bfs
use weave_graph.Bfs.{bfs_within, Within}
use weave_graph.Bfs.Correct.{bfs_within_iff}
use weave_graph.Graph.{
  CsrGraph, binary_search, outbound, id_of_index, reachable_within, reachable_nodes, as_u32,
}
use weave_graph.Graph.Index.{binary_search-at, binary_search-In, In-of-binary_search}
use weave_graph.Graph.Outbound.{Represents, outbound_iff, outbound-some, In-neighbors}

-- The walks of at most `k` outbound edges between storage ids.
pub data Hops (g : CsrGraph) (from : ℕ) : ℕ → ℕ → Type 0 where
  here : {k : ℕ} → Hops g from k from
  step : {k a b : ℕ} → Hops g from k a → In b (outbound g a) → Hops g from (suc k) b

get_elem?-get_or : (xs : List ℕ) (i x : ℕ) → get_elem? xs i ≡ some x → get_or xs i 0 ≡ x
get_elem?-get_or [] i x h = cc
get_elem?-get_or (y ∷ xs) zero x h = cc
get_elem?-get_or (y ∷ xs) (suc i) x h = get_elem?-get_or xs i x h

get_or-get_elem? :
    (xs : List ℕ) (i x : ℕ) → i < length xs → get_or xs i 0 ≡ x → get_elem? xs i ≡ some x
get_or-get_elem? [] i x h e = absurd (omega arith)
get_or-get_elem? (y ∷ xs) zero x h e = ap some e
get_or-get_elem? (y ∷ xs) (suc i) x h e = get_or-get_elem? xs i x (omega arith) e

module _ (ids : List ℕ) (edges : List (ℕ × ℕ)) (g : CsrGraph) (r : Represents ids edges g)
    (from start : ℕ) (found : binary_search ids from ≡ some start) where
  open r use {ids_kept, small}

  pub Within-Hops : {k i : ℕ} → Within g.csr start k i → Hops g from k (get_or ids i 0)
  Within-Hops {k} Bfs.here =
      subst (Hops g from k) (sym (binary_search-at ids from start found).1) here
  Within-Hops (Bfs.step {k = k} {u = u} {v = v} p e) =
      let (s, t, m, a, b) = In-neighbors ids edges g r u v e in
      let at_s = (binary_search-at ids s u a).1 in
      let at_t = (binary_search-at ids t v b).1 in
      let linked =
        (outbound_iff ids edges g r s t).1
          (In-of-binary_search ids s u a, In-of-binary_search ids t v b, m) in
      subst (Hops g from (suc k)) (sym at_t)
        (step (subst (Hops g from k) at_s (Within-Hops p)) linked)

  pub Hops-Within :
      {k a : ℕ}
      → Hops g from k a
      → (i : ℕ) × (binary_search ids a ≡ some i) × Within g.csr start k i
  Hops-Within here = (start, found, Bfs.here)
  Hops-Within (step {a = a} {b = b} p m) =
      let (i, e, w) = Hops-Within p in
      let (v, m', q) =
        In-map (λ n. get_or ids n 0) (neighbors_slice g.csr i) b
          (subst (In b) (outbound-some ids edges g r a i e) m) in
      let (s, t, _, _, f) = In-neighbors ids edges g r i v m' in
      let same : t ≡ b = sym (binary_search-at ids t v f).1 ∙ sym q in
      (v, subst (λ x. binary_search ids x ≡ some v) same f, Bfs.step w m')

  module _ (bitmap : Bitmap) where
    open bitmap use {contains, In-iter}

    reachable_within_some :
        (k i : ℕ) → (contains (reachable_within bitmap g from k) i ≡ true) ↔ Within g.csr start k i
    unfolding reachable_within
    reachable_within_some k i =
        let low = (binary_search-at ids from start found).0 in
        let same : as_u32 start ≡ start = omega (arith, small) in
        let here : binary_search g.index_to_id from ≡ some start = rw ids_kept found in
        rw (here, same, reachable_within) (bfs_within_iff bitmap g.csr start k i)

    reachable_nodes_some : (k id : ℕ) → In id (reachable_nodes bitmap g from k) ↔ Hops g from k id
    unfolding reachable_nodes
    reachable_nodes_some k id = (
      λ m.
          let (i, n, e) = In-filter_map (id_of_index g) _ id m in
          let w = (reachable_within_some k i).0 ((In-iter _ i).0 n) in
          let at : get_or ids i 0 ≡ id =
            get_elem?-get_or ids i id (subst (λ l. get_elem? l i ≡ some id) ids_kept e) in
          subst (Hops g from k) at (Within-Hops w),
      λ h.
          let (i, e, w) = Hops-Within h in
          let (low, at) = binary_search-at ids id i e in
          filter_map-In (id_of_index g) _ i id ((In-iter _ i).1 ((reachable_within_some k i).1 w)) (
            subst (λ l. get_elem? l i ≡ some id) (sym ids_kept) (get_or-get_elem? ids i id low at)),
    )

-- The ids that `reachable_nodes` lists are exactly those that at most `max_hops` outbound edges
-- lead to from an id of the graph, itself included; from an unknown id it lists none.
pub reachable_nodes_iff :
    (ids : List ℕ) (edges : List (ℕ × ℕ)) (g : CsrGraph)
    → Represents ids edges g
    → (bitmap : Bitmap) (from max_hops id : ℕ)
    → In id (reachable_nodes bitmap g from max_hops) ↔ (In from ids × Hops g from max_hops id)
unfolding reachable_nodes reachable_within
reachable_nodes_iff ids edges g r bitmap from max_hops id =
    elim (Option-cases (binary_search ids from)) [
      | inl n ↦
          let none_here : binary_search g.index_to_id from ≡ none = rw r.ids_kept n in
          (
            λ m.
                let (i, q, _) = In-filter_map (id_of_index g) _ id m in
                let in_empty =
                  (bitmap.In-iter bitmap.empty i).0 (rw (none_here, reachable_within) at q) in
                cc (bitmap.contains-empty i),
            λ (m, h). let (i, e) = binary_search-In ids from m in cc,
          )
      | inr (start, e) ↦ (
        λ m. (
          In-of-binary_search ids from start e,
          (reachable_nodes_some ids edges g r from start e bitmap max_hops id).0 m,
        ),
        λ (m, h). (reachable_nodes_some ids edges g r from start e bitmap max_hops id).1 h,
      )
    ]
