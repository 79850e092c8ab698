-- ===== src/Csr/Tests.antt =====
-- A small graph filled and queried, and the theorem at its edges.
use weave_graph.Common.{ℕ, List, [], ◌∷◌, some, none, ◌≡◌, refl, ◌≤◌, ◌<◌, arith}
use weave_graph.Csr.{
  CompactCsr, from_sorted_edges, fill, add_edges, add_edge, close_rows, neighbors_slice, u32_max,
}
use weave_graph.Csr.Neighbors.{Answers, IsWellFormed, from_sorted_edges_lem}

-- 0 → 1, 0 → 2, 2 → 0, and an edge beyond the three nodes.
abbrev pub edges : List (ℕ × ℕ)
edges = (0, 1) ∷ (0, 2) ∷ (1, 9) ∷ (2, 0) ∷ []

abbrev pub sample : CompactCsr
sample = record { row_offsets = 0 ∷ 2 ∷ 2 ∷ 3 ∷ []; column_indices = 1 ∷ 2 ∷ 0 ∷ [] }

fills : from_sorted_edges edges 3 ≡ some sample
unfolding from_sorted_edges fill add_edges add_edge close_rows
fills = refl

slices :
    (neighbors_slice sample 0 ≡ 1 ∷ 2 ∷ [])
    × (neighbors_slice sample 1 ≡ [])
    × (neighbors_slice sample 3 ≡ [])
unfolding neighbors_slice
slices = (refl, refl, refl)

from_sorted_edges_lem_example :
    (3 ≤ u32_max
      → (g : CompactCsr) × (from_sorted_edges edges 3 ≡ some g)
        × Answers edges 3 g
        × IsWellFormed g)
    × (u32_max < 3 → from_sorted_edges edges 3 ≡ none)
from_sorted_edges_lem_example = from_sorted_edges_lem edges 3 (omega arith)
