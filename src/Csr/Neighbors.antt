-- ===== src/Csr/Neighbors.antt =====
-- What the filled structure answers: neighbour slices, counts, and offsets that are in bounds.
use weave_graph.Common.{
  ℕ, ◌+◌, ◌-◌, ◌≤◌, ◌<◌, List, [], ◌∷◌, length, filter, get_or, true, false, none, some, ◌≡◌, refl,
  arith, ◌∙◌, ap, leb, In, In-map, In-filter, subst, nat_eq,
}
use weave_graph.Csr.{
  CompactCsr, fill, from_sorted_edges, neighbors_slice, node_count, edge_count, u32_max,
}
use weave_graph.Csr.Rows.{
  Ordered, Ordered-filter, below, in_range, row, targets, below_low, below_mono, slice-below,
}
use weave_graph.Csr.Fill.{fill-Filled, length-targets}

-- The structure answers with the rows of `edges`, for `n` nodes.
pub record Answers (edges : List (ℕ × ℕ)) (n : ℕ) (g : CompactCsr) : Type 0 where
  pub inside : (u : ℕ) → u < n → neighbors_slice g u ≡ row u (filter (in_range n) edges)
  pub outside : (u : ℕ) → n ≤ u → neighbors_slice g u ≡ []
  pub nodes : node_count g ≡ n
  pub edges_kept : edge_count g ≡ length (filter (in_range n) edges)

-- The offsets run from 0 to the number of columns without falling, so that no slice is out of
-- bounds, and every column is a node.
pub record IsWellFormed (g : CompactCsr) : Type 0 where
  pub rows : 1 ≤ length g.row_offsets
  pub first : get_or g.row_offsets 0 0 ≡ 0
  pub last : get_or g.row_offsets (length g.row_offsets - 1) 0 ≡ length g.column_indices
  pub rising :
      (u : ℕ)
      → u + 1 < length g.row_offsets
      → get_or g.row_offsets u 0 ≤ get_or g.row_offsets (u + 1) 0
  pub columns : (v : ℕ) → In v g.column_indices → v + 1 < length g.row_offsets

fill-Answers : (n : ℕ) (edges : List (ℕ × ℕ)) → Ordered 0 edges → Answers edges n (fill edges n)
unfolding neighbors_slice node_count edge_count
fill-Answers n edges o =
    let (t, f, now, e) = fill-Filled n edges o in
    let kept = filter (in_range n) edges in
    rw e (record {
      inside = λ u h.
          let test : leb (length t.row_offsets) (u + 1) ≡ false = ground (arith, f.size) in
          rw
            (
              test,
              f.offsets u (omega (arith, now)),
              f.offsets (u + 1) (omega (arith, now)),
              f.columns,
            )
            (slice-below u 0 kept (Ordered-filter 0 n edges o));
      outside = λ u h.
          let test : leb (length t.row_offsets) (u + 1) ≡ true = ground (arith, f.size) in rw test;
      nodes = omega (arith, f.size);
      edges_kept = ap length f.columns ∙ length-targets kept;
    })

below_all :
    (n : ℕ) (edges : List (ℕ × ℕ))
    → below n (filter (in_range n) edges) ≡ length (filter (in_range n) edges)
below_all n [] = refl
below_all n (e ∷ edges) = ground (arith, below_all n edges)

fill-IsWellFormed : (n : ℕ) (edges : List (ℕ × ℕ)) → Ordered 0 edges → IsWellFormed (fill edges n)
unfolding targets
fill-IsWellFormed n edges o =
    let (t, f, now, e) = fill-Filled n edges o in
    let kept = filter (in_range n) edges in
    rw e (record {
      rows = omega (arith, f.size);
      first =
          f.offsets 0 (omega arith) ∙ below_low 0 0 kept (Ordered-filter 0 n edges o) (omega arith);
      last =
          let at_end : length t.row_offsets - 1 ≡ n = omega (arith, f.size) in
          rw at_end (
            omega (
              arith,
              f.offsets n (omega (arith, now)),
              below_all n edges,
              ap length f.columns,
              length-targets kept,
            ));
      rising = λ u h.
          let a = f.offsets u (omega (arith, now, f.size)) in
          let b = f.offsets (u + 1) (omega (arith, now, f.size)) in
          omega (arith, a, b, below_mono u (u + 1) kept (omega arith));
      columns = λ v m.
          let (p, m', q) = In-map (λ (e : ℕ × ℕ). e.1) kept v (subst (In v) f.columns m) in
          let (_, inside) = (In-filter (in_range n) p edges).0 m' in ground (arith, f.size);
    })

-- Edges in the order of their sources give a structure, for at most `u32::MAX` nodes. Its
-- neighbour slice at a node holds the targets of that node's edges, in order and without the edges
-- that have an end outside the nodes; beyond the nodes it is empty. The structure is well formed, so
-- no slice is out of bounds. Its node count is the given one, and its edge count is the number of
-- the edges that have both ends among the nodes. For more nodes the assertion fails.
pub from_sorted_edges_lem :
    (edges : List (ℕ × ℕ)) (n : ℕ)
    → Ordered 0 edges
    → (n ≤ u32_max
        → (g : CompactCsr) × (from_sorted_edges edges n ≡ some g)
          × Answers edges n g
          × IsWellFormed g)
      × (u32_max < n → from_sorted_edges edges n ≡ none)
unfolding from_sorted_edges
from_sorted_edges_lem edges n o = (
  λ h. (fill edges n, ground arith, fill-Answers n edges o, fill-IsWellFormed n edges o),
  λ h. ground arith,
)
