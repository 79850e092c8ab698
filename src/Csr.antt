-- ===== src/Csr.antt =====
-- crates/weave-graph-core/src/csr.rs: the compact adjacency structure and how it is filled.
pub mod Rows
pub mod Fill
pub mod Neighbors
mod Tests
use weave_graph.Common.{
  ℕ, zero, suc, ◌+◌, ◌-◌, ◌^◌, ◌%◌, List, [], ◌∷◌, ◌++◌, map, length, get_or, set, take, drop,
  replicate, Bool, true, false, ◌||◌, Option, none, some, if◌then◌else◌, ltb, leb,
}

pub record CompactCsr : Type 0 where
  pub row_offsets : List ℕ
  pub column_indices : List ℕ

abbrev pub new : CompactCsr
new = record { row_offsets = 0 ∷ []; column_indices = [] }

-- The locals of `from_sorted_edges`.
pub record Filling : Type 0 where
  pub current_node : ℕ
  pub row_offsets : List ℕ
  pub column_indices : List ℕ

-- `rounds` rounds of `current_node += 1; row_offsets[current_node] = column_indices.len()`.
unfoldable pub close_rows : ℕ → Filling → Filling
close_rows zero s = s
close_rows (suc rounds) s = close_rows rounds (record {
  current_node = s.current_node + 1;
  row_offsets = set s.row_offsets (s.current_node + 1) (length s.column_indices);
  column_indices = s.column_indices;
})

-- The body of the loop over the edges. `while current_node < u` runs `u - current_node` rounds.
unfoldable pub add_edge : ℕ → Filling → ℕ × ℕ → Filling
add_edge node_count s (u, v) =
    if leb node_count u || leb node_count v
    then s
    else let closed = close_rows (u - s.current_node) s in
      record closed { column_indices = closed.column_indices ++ v ∷ [] }

unfoldable pub add_edges : ℕ → Filling → List (ℕ × ℕ) → Filling
add_edges node_count s [] = s
add_edges node_count s (edge ∷ edges) = add_edges node_count (add_edge node_count s edge) edges

abbrev pub u32_max : ℕ
u32_max = 2 ^ 32 - 1

abbrev pub start : ℕ → Filling
start node_count = record {
  current_node = 0;
  row_offsets = replicate (node_count + 1) 0;
  column_indices = [];
}

unfoldable pub fill : List (ℕ × ℕ) → ℕ → CompactCsr
unfolding add_edges
fill edges node_count =
    let s = add_edges node_count (start node_count) edges in
    let t = close_rows (node_count - s.current_node) s in
    record { row_offsets = t.row_offsets; column_indices = t.column_indices }

-- `none` is the failed `assert!`.
unfoldable pub from_sorted_edges : List (ℕ × ℕ) → ℕ → Option CompactCsr
unfolding fill
from_sorted_edges edges node_count =
    if leb node_count u32_max then some (fill edges node_count) else none

abbrev pub slice {ℓ} : {A : Type ℓ} → List A → ℕ → ℕ → List A
slice xs from to = take (to - from) (drop from xs)

unfoldable pub neighbors_slice : CompactCsr → ℕ → List ℕ
neighbors_slice g u =
    if leb (length g.row_offsets) (u + 1)
    then []
    else slice g.column_indices (get_or g.row_offsets u 0) (get_or g.row_offsets (u + 1) 0)

unfoldable pub node_count : CompactCsr → ℕ
node_count g = length g.row_offsets - 1

unfoldable pub edge_count : CompactCsr → ℕ
edge_count g = length g.column_indices
