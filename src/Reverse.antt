-- ===== src/Reverse.antt =====
-- `build_reverse` of crates/weave-graph-core/src/csr.rs: the transposed graph by a counting sort.
pub mod Scatter
pub mod Arcs
pub mod Transpose
mod Tests
use weave_graph.Common.{ℕ, zero, suc, ◌+◌, List, [], ◌∷◌, get_or, set, replicate, length}
use weave_graph.Csr.{CompactCsr, neighbors_slice, node_count, edge_count}

-- `for &v in &self.column_indices { in_degrees[v] += 1 }`.
unfoldable pub in_degrees : List ℕ → List ℕ → List ℕ
in_degrees degrees [] = degrees
in_degrees degrees (v ∷ columns) = in_degrees (set degrees v (get_or degrees v 0 + 1)) columns

-- The loop that writes each slot of `row_offsets` once, in order, and the write behind it.
unfoldable pub prefix_sums : ℕ → List ℕ → List ℕ
prefix_sums sum [] = sum ∷ []
prefix_sums sum (degree ∷ degrees) = sum ∷ prefix_sums (sum + degree) degrees

-- The inner loop: `current_offsets` and `column_indices` after the neighbours of `u`.
unfoldable pub place : ℕ → List ℕ × List ℕ → List ℕ → List ℕ × List ℕ
place u state [] = state
place u (current, columns) (v ∷ vs) =
    let pos = get_or current v 0 in place u (set current v (pos + 1), set columns pos u) vs

-- The outer loop, with the rounds left and the node `u`.
unfoldable pub scatter : CompactCsr → ℕ → ℕ → List ℕ × List ℕ → List ℕ × List ℕ
scatter g zero u state = state
scatter g (suc rounds) u state = scatter g rounds (u + 1) (place u state (neighbors_slice g u))

unfoldable pub build_reverse : CompactCsr → CompactCsr
build_reverse g =
    let n = node_count g in
    let row_offsets = prefix_sums 0 (in_degrees (replicate n 0) g.column_indices) in
    let (_, column_indices) = scatter g n 0 (row_offsets, replicate (edge_count g) 0) in
    record { row_offsets = row_offsets; column_indices = column_indices }
