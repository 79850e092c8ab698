-- ===== src/Route.antt =====
-- `CsrGraph::query_path` of crates/weave-graph-core/src/csr.rs: a path by breadth-first search.
pub mod Climb
pub mod Scan
pub mod Search
pub mod Query
mod Tests
use weave_graph.Common.{
  ℕ, zero, suc, ◌+◌, List, [], ◌∷◌, ◌++◌, map, reverse, length, get_or, Bool, true, false, Option,
  none, some, if◌then◌else◌, ◌==◌, nat_eq, lookup, put,
}
use weave_graph.Csr.{CompactCsr, neighbors_slice}
use weave_graph.Csr
use weave_graph.Bitmap.{Bitmap}
use weave_graph.Graph.{CsrGraph, binary_search, as_u32}

-- `Some(path)`, `None`, a missing key of `predecessor`, which panics, or a run that lacks fuel.
pub data Answer : Type 0 where
  route : List ℕ → Answer
  no_path panic out_of_fuel : Answer

-- `while cur != from_index { path.push(cur); cur = predecessor[&cur]; }` and the push behind it.
unfoldable pub climb : ℕ → List (ℕ × ℕ) → ℕ → ℕ → List ℕ → Option (List ℕ)
climb zero predecessor from cur path = none
climb (suc fuel) predecessor from cur path =
    let rest : Option (List ℕ) = elim (lookup predecessor cur) [
      | none ↦ none
      | some parent ↦ climb fuel predecessor from parent (path ++ cur ∷ [])
    ] in
    if cur == from then some (path ++ from ∷ []) else rest

-- `path.reverse()`. No path means that a key was missing, or that the fuel of `climb` was too little.
unfoldable pub finish : Option (List ℕ) → Answer
finish none = panic
finish (some path) = route (reverse path)

-- `.map(|i| self.index_to_id[i as usize])`.
unfoldable pub to_ids : List ℕ → Answer → Answer
to_ids ids (route path) = route (map (λ i. get_or ids i 0) path)
to_ids ids a = a

module _ (bitmap : Bitmap) where
  open bitmap use {Bits, empty, contains, insert}

  pub record Trail : Type 0 where
    pub visited : Bits
    pub predecessor : List (ℕ × ℕ)
    pub queue : List ℕ

  pub data Step : Type 0 where
    returned : Answer → Step
    searching : Trail → Step

  -- The body of the loop over the neighbours.
  unfoldable pub look : ℕ → ℕ → ℕ → Trail → ℕ → Step
  unfolding climb finish
  look from to current t neighbor =
      if contains t.visited neighbor
      then searching t
      else let predecessor = put t.predecessor neighbor current in
        if neighbor == to
        then returned (finish (climb (length predecessor + 1) predecessor from current (to ∷ [])))
        else searching (record {
          visited = (insert t.visited neighbor).0;
          predecessor = predecessor;
          queue = t.queue ++ neighbor ∷ [];
        })

  -- The loop over the neighbours, which a `return` ends.
  unfoldable pub scan : ℕ → ℕ → ℕ → Step → List ℕ → Step
  unfolding look
  scan from to current (returned a) neighbors = returned a
  scan from to current (searching t) [] = searching t
  scan from to current (searching t) (neighbor ∷ rest) =
      scan from to current (look from to current t neighbor) rest

  -- `while let Some(current) = queue.pop_front()`.
  unfoldable pub search : ℕ → CompactCsr → ℕ → ℕ → Step → Answer
  unfolding scan
  search fuel csr from to (returned a) = a
  search zero csr from to (searching t) = elim t.queue [ [] ↦ no_path | _ ∷ _ ↦ out_of_fuel ]
  search (suc fuel) csr from to (searching t) = elim t.queue [
    | [] ↦ no_path
    | current ∷ queue ↦ search fuel csr from to (
        scan from to current (searching (record t { queue = queue })) (neighbors_slice csr current))
  ]

  unfoldable pub start : ℕ → Trail
  start from = record { visited = (insert empty from).0; predecessor = []; queue = from ∷ [] }

  unfoldable pub query_indices : CsrGraph → ℕ → ℕ → ℕ → Answer
  unfolding search start to_ids
  query_indices g id from to =
      if from == to
      then route (id ∷ [])
      else to_ids g.index_to_id
          (search (Csr.node_count g.csr) g.csr from to (searching (start from)))

  unfoldable pub query_path : CsrGraph → ℕ → ℕ → Answer
  unfolding binary_search query_indices
  query_path g from to = elim (binary_search g.index_to_id from) [
    | none ↦ no_path
    | some from_index ↦ elim (binary_search g.index_to_id to) [
      | none ↦ no_path
      | some to_index ↦ query_indices g from (as_u32 from_index) (as_u32 to_index)
    ]
  ]
