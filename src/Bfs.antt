-- ===== src/Bfs.antt =====
-- `bfs_within` of crates/weave-graph-core/src/csr.rs: the hop-bounded search over a visited set.
pub mod Level
pub mod Correct
mod Tests
use weave_graph.Common.{ℕ, zero, suc, List, [], ◌∷◌, ◌++◌, Bool, if◌then◌else◌, is_empty, In}
use weave_graph.Csr.{CompactCsr, neighbors_slice}
use weave_graph.Bitmap.{Bitmap}

module _ (bitmap : Bitmap) where
  open bitmap use {Bits, empty, insert}

  -- The loop over one node's neighbours: the reached set, and the next frontier.
  unfoldable pub visit : Bits × List ℕ → List ℕ → Bits × List ℕ
  visit (reached, next) [] = (reached, next)
  visit (reached, next) (neighbor ∷ rest) =
      let (reached', fresh) = insert reached neighbor in
      visit (reached', if fresh then next ++ neighbor ∷ [] else next) rest

  -- The loop over the frontier.
  unfoldable pub expand : CompactCsr → Bits × List ℕ → List ℕ → Bits × List ℕ
  expand csr state [] = state
  expand csr state (node ∷ frontier) = expand csr (visit state (neighbors_slice csr node)) frontier

  -- `for _ in 0..max_hops`, with its `break`.
  unfoldable pub levels : ℕ → CompactCsr → Bits → List ℕ → Bits
  levels zero csr reached frontier = reached
  levels (suc hops) csr reached frontier =
      let (reached', next) = expand csr (reached, []) frontier in
      let rest = levels hops csr reached' next in if is_empty next then reached' else rest

  unfoldable pub bfs_within : CompactCsr → ℕ → ℕ → Bits
  bfs_within csr from_index max_hops =
      levels max_hops csr (insert empty from_index).0 (from_index ∷ [])

-- The walks of at most `k` edges out of `from`.
pub data Within (csr : CompactCsr) (from : ℕ) : ℕ → ℕ → Type 0 where
  here : {k : ℕ} → Within csr from k from
  step :
      {k u v : ℕ} → Within csr from k u → In v (neighbors_slice csr u) → Within csr from (suc k) v
