-- ===== src/Route/Tests.antt =====
-- Paths in a graph with a cycle, and the theorem there.
use weave_graph.Common.{ℕ, List, [], ◌∷◌, ◌≡◌, refl, sym, ◌∙◌, subst, arith}
use weave_graph.Bitmap.Listed.{listed}
use weave_graph.Graph.{CsrGraph, ok, build}
use weave_graph.Graph.Outbound.{Represents, build-Represents}
use weave_graph.Route.{query_path, route, no_path}
use weave_graph.Route.Query.{Explained, query_path_lem}

abbrev ids : List ℕ
ids = 10 ∷ 20 ∷ 30 ∷ 40 ∷ []

abbrev edges : List (ℕ × ℕ)
edges = (10, 20) ∷ (20, 30) ∷ (30, 10) ∷ (10, 10) ∷ []

abbrev ring : CsrGraph
ring = record {
  csr = record { row_offsets = 0 ∷ 2 ∷ 3 ∷ 4 ∷ 4 ∷ []; column_indices = 0 ∷ 1 ∷ 2 ∷ 0 ∷ [] };
  index_to_id = ids;
}

built : build ids edges ≡ ok ring
unfolding build weave_graph.Csr.close_rows weave_graph.Csr.add_edge
built = refl

ok_injective : (a b : CsrGraph) → ok a ≡ ok b → a ≡ b
ok_injective a b h = cc

ring-Represents : Represents ids edges ring
ring-Represents =
    let (g, e, r) = build-Represents ids edges (omega arith) in
    subst (Represents ids edges) (ok_injective g ring (sym e ∙ built)) r

paths :
    (query_path listed ring 20 10 ≡ route (20 ∷ 30 ∷ 10 ∷ []))
    × (query_path listed ring 20 40 ≡ no_path)
    × (query_path listed ring 20 20 ≡ route (20 ∷ []))
    × (query_path listed ring 20 99 ≡ no_path)
unfolding query_path weave_graph.Csr.node_count weave_graph.Csr.neighbors_slice
paths = (refl, refl, refl, refl)

query_path_lem_example :
    Explained ids edges ring ring-Represents 20 10 (query_path listed ring 20 10)
query_path_lem_example = query_path_lem ids edges ring ring-Represents listed 20 10
