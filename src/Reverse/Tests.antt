-- ===== src/Reverse/Tests.antt =====
-- A transposed graph, and the theorem there.
use weave_graph.Common.{ℕ, zero, suc, ◌+◌, ◌≤◌, get_or, [], ◌∷◌, ◌≡◌, ◌↔◌, ◌<◌, refl, arith, In}
use weave_graph.Csr.{CompactCsr, from_sorted_edges, neighbors_slice, node_count}
use weave_graph.Csr.Neighbors.{IsWellFormed}
use weave_graph.Reverse.{build_reverse}
use weave_graph.Reverse.Scatter.{sources}
use weave_graph.Reverse.Arcs.{arcs}
use weave_graph.Reverse.Transpose.{build_reverse_lem}

-- 0 → 1, 0 → 2, 2 → 1.
abbrev sample : CompactCsr
sample = record { row_offsets = 0 ∷ 2 ∷ 2 ∷ 3 ∷ []; column_indices = 1 ∷ 2 ∷ 1 ∷ [] }

reverses :
    build_reverse sample
    ≡ record { row_offsets = 0 ∷ 0 ∷ 2 ∷ 3 ∷ []; column_indices = 0 ∷ 2 ∷ 0 ∷ [] }
unfolding build_reverse weave_graph.Reverse.prefix_sums weave_graph.Reverse.scatter
    weave_graph.Reverse.in_degrees node_count weave_graph.Reverse.place neighbors_slice
    weave_graph.Csr.edge_count
reverses = refl

sample-IsWellFormed : IsWellFormed sample
sample-IsWellFormed = record {
  rows = omega arith;
  first = refl;
  last = refl;
  rising = λ u h. rises u h;
  columns = λ v m. omega (arith);
}
  where
    rises :
        (u : ℕ) → u + 1 < 4 → get_or sample.row_offsets u 0 ≤ get_or sample.row_offsets (u + 1) 0
    rises zero h = omega arith
    rises (suc zero) h = omega arith
    rises (suc (suc zero)) h = omega arith
    rises (suc (suc (suc u))) h = absurd (omega arith)

build_reverse_lem_example :
    IsWellFormed (build_reverse sample)
    × (node_count (build_reverse sample) ≡ node_count sample)
    × ((u v : ℕ)
        → In u (neighbors_slice (build_reverse sample) v) ↔ In v (neighbors_slice sample u))
    × ((v : ℕ)
        → v < node_count sample
        → neighbors_slice (build_reverse sample) v ≡ sources v (arcs sample (node_count sample) 0))
build_reverse_lem_example = build_reverse_lem sample sample-IsWellFormed
