-- ===== src/Bfs/Tests.antt =====
-- Runs of the search on a cycle, and the theorem there.
use weave_graph.Common.{[], ◌∷◌, true, ◌≡◌, ◌↔◌, refl}
use weave_graph.Csr.{CompactCsr, neighbors_slice}
use weave_graph.Bitmap.Listed.{listed}
use weave_graph.Bfs.{bfs_within, Within}
use weave_graph.Bfs.Correct.{bfs_within_iff}

-- 0 → 1 → 2 → 0.
abbrev ring : CompactCsr
ring = record { row_offsets = 0 ∷ 1 ∷ 2 ∷ 3 ∷ []; column_indices = 1 ∷ 2 ∷ 0 ∷ [] }

searches : (bfs_within listed ring 0 1 ≡ 1 ∷ 0 ∷ []) × (bfs_within listed ring 0 9 ≡ 2 ∷ 1 ∷ 0 ∷ [])
unfolding bfs_within weave_graph.Bfs.levels weave_graph.Bfs.expand weave_graph.Bfs.visit
    neighbors_slice
searches = (refl, refl)

bfs_within_iff_example : (listed.contains (bfs_within listed ring 0 1) 2 ≡ true) ↔ Within ring 0 1 2
bfs_within_iff_example = bfs_within_iff listed ring 0 1 2
