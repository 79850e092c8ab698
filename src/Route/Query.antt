-- ===== src/Route/Query.antt =====
-- `query_path` in terms of storage ids.
use weave_graph.Common.{
  ℕ, ◌<◌, List, [], ◌∷◌, map, get_or, Bool-cases, none, some, Option-cases, ◌==◌, ==_iff, nat_eq,
  ◌≡◌, sym, ap, ◌∙◌, inl, inr, subst, arith, In,
}
use weave_graph.Bitmap.{Bitmap}
use weave_graph.Csr.{neighbors_slice}
use weave_graph.Csr
use weave_graph.Bfs.{Within}
use weave_graph.Graph.{CsrGraph, binary_search, outbound, as_u32}
use weave_graph.Graph.Index.{binary_search-at, binary_search-In, In-of-binary_search}
use weave_graph.Graph.Outbound.{Represents, outbound_iff, In-neighbors}
use weave_graph.Graph.Reachable.{Hops, Hops-Within}
use weave_graph.Route.{
  Answer, route, no_path, panic, out_of_fuel, to_ids, query_indices, query_path,
}
use weave_graph.Route.Climb.{Way, arrived, hop}
use weave_graph.Route.Search.{Found, search_lem_start}

-- A path of storage ids: each next one is an outbound neighbour of the one before it.
pub data Links (g : CsrGraph) (to : ℕ) : ℕ → List ℕ → Type 0 where
  last : Links g to to (to ∷ [])
  link :
      {a b : ℕ} {path : List ℕ} → In b (outbound g a) → Links g to b path → Links g to a (a ∷ path)

module _ (ids : List ℕ) (edges : List (ℕ × ℕ)) (g : CsrGraph) (r : Represents ids edges g) where
  -- A path between the two ids, or none where at least one is unknown or no edges lead there.
  abbrev pub Explained : ℕ → ℕ → Answer → Type 0
  Explained from to (route path) = In from ids × In to ids × Links g to from path
  Explained from to no_path = ¬ (In from ids × In to ids × ((k : ℕ) × Hops g from k to))
  Explained from to panic = ⊥
  Explained from to out_of_fuel = ⊥

  neighbors-low : (u v : ℕ) → In v (neighbors_slice g.csr u) → v < Csr.node_count g.csr
  neighbors-low u v m =
      let (s, t, _, _, b) = In-neighbors ids edges g r u v m in
      omega (arith, (binary_search-at ids t v b).0, r.answers.nodes)

  linked :
      (u v : ℕ) → In v (neighbors_slice g.csr u) → In (get_or ids v 0) (outbound g (get_or ids u 0))
  linked u v e =
      let (s, t, m, a, b) = In-neighbors ids edges g r u v e in
      let out =
        (outbound_iff ids edges g r s t).1
          (In-of-binary_search ids s u a, In-of-binary_search ids t v b, m) in
      rw ((binary_search-at ids s u a).1, (binary_search-at ids t v b).1) out

  Way-Links :
      (to u : ℕ) (path : List ℕ)
      → Way g.csr to u path
      → Links g (get_or ids to 0) (get_or ids u 0) (map (λ i. get_or ids i 0) path)
  Way-Links to u path arrived = last
  Way-Links to u (x ∷ path) (hop {v = v} m w) = link (linked u v m) (Way-Links to v path w)

  module _ (bitmap : Bitmap) (from to i j : ℕ) (found : binary_search ids from ≡ some i)
      (target : binary_search ids to ≡ some j) where
    Found-Explained :
        (a : Answer)
        → Found bitmap g.csr (Csr.node_count g.csr) i j neighbors-low a
        → Explained from to (to_ids g.index_to_id a)
    unfolding to_ids
    Found-Explained (route path) w = (
      In-of-binary_search ids from i found,
      In-of-binary_search ids to j target,
      subst (λ xs. Links g to from (map (λ k. get_or xs k 0) path)) (sym r.ids_kept)
          (subst (λ x. Links g to x (map (λ k. get_or ids k 0) path))
            (binary_search-at ids from i found).1
            (subst (λ x. Links g x (get_or ids i 0) (map (λ k. get_or ids k 0) path))
              (binary_search-at ids to j target).1 (Way-Links j i path w))),
    )
    Found-Explained no_path none_leads = λ (a, b, (k, h)).
        let (j', e, w) = Hops-Within ids edges g r from i found h in
        let there : j' ≡ j = cc in none_leads k (subst (Within g.csr i k) there w)
    Found-Explained panic w = w
    Found-Explained out_of_fuel w = w

    query_indices-Explained : Explained from to (query_indices bitmap g from i j)
    unfolding query_indices
    query_indices-Explained = elim (Bool-cases (i == j)) [
      | inl e ↦
          let same : from ≡ to =
            sym (binary_search-at ids from i found).1
            ∙ ap (λ k. get_or ids k 0) ((==_iff i j).0 e)
            ∙ (binary_search-at ids to j target).1 in
          rw e (
            In-of-binary_search ids from i found,
            In-of-binary_search ids to j target,
            subst (λ x. Links g x from (from ∷ [])) same last,
          )
      | inr d ↦ rw d (
          Found-Explained _ (
            search_lem_start bitmap g.csr (Csr.node_count g.csr) i j neighbors-low
              (omega (arith, (binary_search-at ids from i found).0, r.answers.nodes)) d))
    ]

-- On a graph that was built from ids and edges, the search always returns. A path that it returns
-- leads from one id to the other along outbound edges. It returns none only where an id is unknown
-- or no number of edges leads from one to the other.
pub query_path_lem :
    (ids : List ℕ) (edges : List (ℕ × ℕ)) (g : CsrGraph) (r : Represents ids edges g)
    → (bitmap : Bitmap) (from to : ℕ)
    → Explained ids edges g r from to (query_path bitmap g from to)
unfolding query_path
query_path_lem ids edges g r bitmap from to = elim (Option-cases (binary_search ids from)) [
  | inl n ↦
      let missing : binary_search g.index_to_id from ≡ none = rw r.ids_kept n in
      rw (missing, query_path) (λ (a, b, h). let (i, e) = binary_search-In ids from a in cc)
  | inr (i, e) ↦
      let here : binary_search g.index_to_id from ≡ some i = rw r.ids_kept e in
      let low : as_u32 i ≡ i = omega (arith, r.small, (binary_search-at ids from i e).0) in
      elim (Option-cases (binary_search ids to)) [
        | inl n ↦
            let missing : binary_search g.index_to_id to ≡ none = rw r.ids_kept n in
            rw (here, missing, query_path)
              (λ (a, b, h). let (j, f) = binary_search-In ids to b in cc)
        | inr (j, f) ↦
            let there : binary_search g.index_to_id to ≡ some j = rw r.ids_kept f in
            let low' : as_u32 j ≡ j = omega (arith, r.small, (binary_search-at ids to j f).0) in
            rw (here, there, low, low', query_path)
              (query_indices-Explained ids edges g r bitmap from to i j e f)
      ]
]
