-- ===== src/Graph/Tests.antt =====
-- A graph over storage ids with gaps, and the theorems there.
use weave_graph.Common.{
  ℕ, List, [], ◌∷◌, codes, some, none, ◌≡◌, ◌↔◌, ◌≤◌, ◌<◌, refl, arith, In, true, sym, ◌∙◌, subst,
  nat_eq, Nodup, Pairwise, map, leb, sort, dedup, length,
}
use weave_graph.Model.{Node, Edge}
use weave_graph.Csr.{u32_max}
use weave_graph.Bitmap.Listed.{listed}
use weave_graph.Graph.{
  CsrGraph, ok, err, panic, StorageError, Storage, from_nodes_and_edges, load, outbound,
  reachable_nodes, build, callers_within, binary_search,
}
use weave_graph.Graph.Load.{from_nodes_and_edges_lem, load_lem, ends, triples}
use weave_graph.Graph.Outbound.{Represents, build-Represents}
use weave_graph.Graph.Callers.{callers_within_iff}
use weave_graph.Graph.Reachable.{Hops, reachable_nodes_iff}

abbrev ids : List ℕ
ids = 30 ∷ 10 ∷ 20 ∷ 10 ∷ []

abbrev edges : List (ℕ × ℕ × Unit {0})
edges = (10, 30, tt) ∷ (10, 20, tt) ∷ (20, 99, tt) ∷ (10, 20, tt) ∷ []

abbrev graph : CsrGraph
graph = record {
  csr = record { row_offsets = 0 ∷ 2 ∷ 2 ∷ 2 ∷ []; column_indices = 1 ∷ 2 ∷ [] };
  index_to_id = 10 ∷ 20 ∷ 30 ∷ [];
}

builds : from_nodes_and_edges ids edges ≡ ok graph
unfolding from_nodes_and_edges weave_graph.Csr.close_rows weave_graph.Csr.add_edge
builds = refl

answers :
    (outbound graph 10 ≡ 20 ∷ 30 ∷ [])
    × (outbound graph 99 ≡ [])
    × (reachable_nodes listed graph 10 1 ≡ 30 ∷ 20 ∷ 10 ∷ [])
unfolding outbound reachable_nodes weave_graph.Bfs.bfs_within weave_graph.Bfs.levels
    weave_graph.Bfs.expand weave_graph.Bfs.visit
answers = (refl, refl, refl)

from_nodes_and_edges_lem_example :
    (length (dedup (sort leb ids)) ≤ u32_max
      → (g : CsrGraph) × (from_nodes_and_edges ids edges ≡ ok g)
        × ((s t : ℕ) → In t (outbound g s) ↔ (In s ids × In t ids × In (s, t) (ends edges)))
        × ((s : ℕ) → Pairwise ◌<◌ (outbound g s)))
    × (u32_max < length (dedup (sort leb ids)) → from_nodes_and_edges ids edges ≡ panic)
from_nodes_and_edges_lem_example = from_nodes_and_edges_lem ids edges

abbrev node : ℕ → Node
node id = record {
  id = id;
  repo_id = [];
  path = [];
  symbol = [];
  kind = [];
  line_start = 1;
  line_end = 2;
  signature = [];
}

abbrev edge : Edge (Unit {0})
edge = record {
  id = 1;
  source_id = 10;
  target_id = 20;
  kind = codes "IMPORTS";
  weight = tt;
  extractor = none;
  resolution_kind = none;
}

abbrev storage : Storage (Unit {0})
storage = record { for_each_node = ok (node 20 ∷ node 10 ∷ []); for_each_edge = ok (edge ∷ []) }

load_lem_example :
    ((nodes : List Node) (es : List (Edge (Unit {0})))
      → storage.for_each_node ≡ ok nodes
      → storage.for_each_edge ≡ ok es
      → Nodup (map (λ n. n.id) nodes)
      → load storage ≡ from_nodes_and_edges (map (λ n. n.id) nodes) (triples es))
    × ((e : StorageError) → storage.for_each_node ≡ err e → load storage ≡ err e)
    × ((nodes : List Node) (e : StorageError)
        → storage.for_each_node ≡ ok nodes
        → storage.for_each_edge ≡ err e
        → load storage ≡ err e)
load_lem_example = load_lem storage

ok_injective : (a b : CsrGraph) → ok a ≡ ok b → a ≡ b
ok_injective a b h = cc

built : build (10 ∷ 20 ∷ 30 ∷ []) (ends edges) ≡ ok graph
unfolding build weave_graph.Csr.close_rows weave_graph.Csr.add_edge
built = refl

graph-Represents : Represents (10 ∷ 20 ∷ 30 ∷ []) (ends edges) graph
graph-Represents =
    let (g, e, r) = build-Represents (10 ∷ 20 ∷ 30 ∷ []) (ends edges) (omega arith) in
    let same : g ≡ graph = ok_injective g graph (sym e ∙ built) in
    subst (Represents (10 ∷ 20 ∷ 30 ∷ []) (ends edges)) same r

reachable_nodes_iff_example :
    In 20 (reachable_nodes listed graph 10 1)
    ↔ (In {A = ℕ} 10 (10 ∷ 20 ∷ 30 ∷ []) × Hops graph 10 1 20)
reachable_nodes_iff_example =
    reachable_nodes_iff (10 ∷ 20 ∷ 30 ∷ []) (ends edges) graph graph-Represents listed 10 1 20

finds :
    (binary_search (10 ∷ 20 ∷ 30 ∷ []) 30 ≡ some 2)
    × (binary_search (10 ∷ 20 ∷ 30 ∷ []) 10 ≡ some 0)
unfolding binary_search
finds = (refl, refl)

callers_within_iff_example :
    (listed.contains (callers_within listed graph 30 1) 0 ≡ true) ↔ Hops graph 10 1 30
callers_within_iff_example =
    callers_within_iff (10 ∷ 20 ∷ 30 ∷ []) (ends edges) graph graph-Represents listed 30 2 10 0 1
      finds.0 finds.1
