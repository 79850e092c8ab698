-- ===== src/Graph/Callers.antt =====
-- Who reaches an id: the search over the reverse structure.
use weave_graph.Common.{ℕ, suc, List, true, some, ◌≡◌, ◌↔◌, arith, In, subst}
use weave_graph.Csr.{CompactCsr, neighbors_slice}
use weave_graph.Bitmap.{Bitmap}
use weave_graph.Bfs.{Within, here, step}
use weave_graph.Bfs.Correct.{bfs_within_iff}
use weave_graph.Reverse.{build_reverse}
use weave_graph.Reverse.Transpose.{build_reverse_lem}
use weave_graph.Graph.{CsrGraph, binary_search, callers_within, as_u32}
use weave_graph.Graph.Index.{binary_search-at}
use weave_graph.Graph.Outbound.{Represents}
use weave_graph.Graph.Reachable.{Hops, Within-Hops, Hops-Within}

-- A walk with one more edge in front.
Within-front :
    (csr : CompactCsr) (u v : ℕ)
    → In v (neighbors_slice csr u)
    → {k w : ℕ} → Within csr v k w
    → Within csr u (suc k) w
Within-front csr u v e here = step here e
Within-front csr u v e (step p f) = step (Within-front csr u v e p) f

Within-reverse :
    (csr back : CompactCsr)
    → ((u v : ℕ) → In u (neighbors_slice back v) → In v (neighbors_slice csr u))
    → (from : ℕ) {k w : ℕ} → Within back from k w
    → Within csr w k from
Within-reverse csr back flip from here = here
Within-reverse csr back flip from (step {u = u} {v = v} p e) =
    Within-front csr v u (flip v u e) (Within-reverse csr back flip from p)

-- The search for the callers of `from` marks the position of an id exactly when at most `max_hops`
-- outbound edges lead from that id to `from`.
pub callers_within_iff :
    (ids : List ℕ) (edges : List (ℕ × ℕ)) (g : CsrGraph)
    → Represents ids edges g
    → (bitmap : Bitmap) (from start id i max_hops : ℕ) → binary_search ids from ≡ some start
    → binary_search ids id ≡ some i
    → (bitmap.contains (callers_within bitmap g from max_hops) i ≡ true) ↔ Hops g id max_hops from
unfolding callers_within
callers_within_iff ids edges g r bitmap from start id i max_hops found at =
    let low = (binary_search-at ids from start found).0 in
    let same : as_u32 start ≡ start = omega (arith, r.small) in
    let here_now : binary_search g.index_to_id from ≡ some start = rw r.ids_kept found in
    let (_, _, flip, _) = build_reverse_lem g.csr r.well_formed in
    let marks = bfs_within_iff bitmap (build_reverse g.csr) start max_hops i in
    rw (here_now, same, callers_within)
      (
        λ m.
            let w =
              Within-reverse g.csr (build_reverse g.csr) (λ u v. (flip u v).0) start (marks.0 m) in
            subst (Hops g id max_hops) (binary_search-at ids from start found).1
              (Within-Hops ids edges g r id i at w),
        λ h.
            let (j, e, w) = Hops-Within ids edges g r id i at h in
            let there : j ≡ start = cc in
            marks.1 (
              Within-reverse (build_reverse g.csr) g.csr (λ u v. (flip v u).1) i
                (subst (Within g.csr i max_hops) there w)),
      )
