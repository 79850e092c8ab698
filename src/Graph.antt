-- ===== src/Graph.antt =====
-- `CsrGraph` of crates/weave-graph-core/src/csr.rs: storage ids compacted into dense indices, and
-- the queries that answer in storage ids.
pub mod Index
pub mod Order
pub mod Outbound
pub mod Neighbors
pub mod Load
pub mod Reachable
pub mod Callers
mod Tests
use weave_graph.Common.{
  ℕ, zero, suc, ◌+◌, ◌^◌, ◌%◌, List, [], ◌∷◌, map, filter_map, get_elem?, get_or, length, Bool,
  true, false, Option, none, some, if◌then◌else◌, leb, ltb, ◌==◌, ◌&&◌, nat_eq, list_eq, Eq, Text,
  sort, dedup, ◌≡◌, refl, arith, ◌↔◌,
}
use Prim.Native.Nat.{compare, Ordering}
use weave_graph.Model.{Node, Edge}
use weave_graph.Csr
use weave_graph.Csr.{CompactCsr, from_sorted_edges, neighbors_slice}
use weave_graph.Bitmap.{Bitmap}
use weave_graph.Bfs.{bfs_within}
use weave_graph.Reverse.{build_reverse}

-- crates/weave-graph-core/src/error.rs
pub data StorageError : Type 0 where
  backend : Text → StorageError
  schema_too_new : (found max : ℕ) → StorageError

-- A result, an error of the storage, or a failed assertion.
pub data Outcome (A : Type 0) : Type 0 where
  ok : A → Outcome A
  err : StorageError → Outcome A
  panic : Outcome A

pub record CsrGraph : Type 0 where
  pub csr : CompactCsr
  pub index_to_id : List ℕ

abbrev pub empty : CsrGraph
empty = record { csr = Csr.new; index_to_id = [] }

-- The order and the equality of pairs.
abbrev pub pair_le : ℕ × ℕ → ℕ × ℕ → Bool
pair_le a b = elim (compare a.0 b.0) [
  | Ordering.lt ↦ true
  | Ordering.eq ↦ leb a.1 b.1
  | Ordering.gt ↦ false
]

abbrev pub pair_beq : ℕ × ℕ → ℕ × ℕ → Bool
pair_beq a b = (a.0 == b.0) && (a.1 == b.1)

pair_beq_iff : (a b : ℕ × ℕ) → (pair_beq a b ≡ true) ↔ (a ≡ b)
pair_beq_iff a b = ground arith

pub pair_same→eq : (a b : ℕ × ℕ) → pair_beq a b ≡ true → a ≡ b
pair_same→eq a b = (pair_beq_iff a b).0

pub pair_eq→same : (a b : ℕ × ℕ) → a ≡ b → pair_beq a b ≡ true
pair_eq→same a b = (pair_beq_iff a b).1

instance abbrev pub pair_eq : Eq (ℕ × ℕ)
pair_eq = record { same = pair_beq; same→eq = pair_same→eq; eq→same = pair_eq→same }

unfoldable pub sort_and_dedup_edges : List (ℕ × ℕ) → List (ℕ × ℕ)
unfolding sort dedup
sort_and_dedup_edges edges = dedup (sort pair_le edges)

-- `slice::binary_search` on a sorted slice of distinct ids: the position of the id.
unfoldable pub binary_search : List ℕ → ℕ → Option ℕ
binary_search [] id = none
binary_search (x ∷ xs) id =
    if x == id then some 0 else elim (binary_search xs id) [ none ↦ none | some i ↦ some (suc i) ]

abbrev pub as_u32 : ℕ → ℕ
as_u32 n = n % 2 ^ 32

-- The closure over the edges: the compact ends, or nothing where an end is not a known id.
unfoldable pub compact_edge : List ℕ → ℕ × ℕ → Option (ℕ × ℕ)
unfolding binary_search
compact_edge index_to_id (source, target) = elim (binary_search index_to_id source) [
  | none ↦ none
  | some u ↦ elim (binary_search index_to_id target) [
    | none ↦ none
    | some v ↦ some (as_u32 u, as_u32 v)
  ]
]

assemble : List ℕ → Option CompactCsr → Outcome CsrGraph
assemble index_to_id none = panic
assemble index_to_id (some csr) = ok (record { csr = csr; index_to_id = index_to_id })

-- The part that `load` and `from_nodes_and_edges` share, from the sorted ids on.
unfoldable pub build : List ℕ → List (ℕ × ℕ) → Outcome CsrGraph
unfolding assemble compact_edge sort_and_dedup_edges from_sorted_edges
build index_to_id edges = assemble index_to_id (
    from_sorted_edges (sort_and_dedup_edges (filter_map (compact_edge index_to_id) edges))
      (length index_to_id))

unfoldable pub from_nodes_and_edges {ℓ} :
    {Weight : Type ℓ} → List ℕ → List (ℕ × ℕ × Weight) → Outcome CsrGraph
unfolding build sort dedup
from_nodes_and_edges nodes edges = build (dedup (sort leb nodes)) (map (λ e. (e.0, e.1)) edges)

-- What a storage passes to the callbacks of `for_each_node` and `for_each_edge`.
pub record Storage (Weight : Type 0) : Type 0 where
  pub for_each_node : Outcome (List Node)
  pub for_each_edge : Outcome (List (Edge Weight))

load_edges : {Weight : Type 0} → List ℕ → Outcome (List (Edge Weight)) → Outcome CsrGraph
load_edges ids (err e) = err e
load_edges ids panic = panic
load_edges ids (ok edges) = build (sort leb ids) (map (λ e. (e.source_id, e.target_id)) edges)

load_nodes :
    {Weight : Type 0} → Outcome (List Node) → Outcome (List (Edge Weight)) → Outcome CsrGraph
unfolding load_edges
load_nodes (err e) edges = err e
load_nodes panic edges = panic
load_nodes (ok nodes) edges = load_edges (map (λ n. n.id) nodes) edges

unfoldable pub load : {Weight : Type 0} → Storage Weight → Outcome CsrGraph
unfolding load_nodes build sort
load storage = load_nodes storage.for_each_node storage.for_each_edge

-- Storage ids of the neighbours. `index_to_id[n]` would panic beyond the nodes.
unfoldable pub outbound : CsrGraph → ℕ → List ℕ
unfolding binary_search neighbors_slice
outbound g id = elim (binary_search g.index_to_id id) [
  | none ↦ []
  | some index ↦ map (λ n. get_or g.index_to_id n 0) (neighbors_slice g.csr (as_u32 index))
]

unfoldable pub node_count : CsrGraph → ℕ
node_count g = Csr.node_count g.csr

unfoldable pub edge_count : CsrGraph → ℕ
edge_count g = Csr.edge_count g.csr

unfoldable pub id_of_index : CsrGraph → ℕ → Option ℕ
id_of_index g index = get_elem? g.index_to_id index

module _ (bitmap : Bitmap) where
  unfoldable pub reachable_within : CsrGraph → ℕ → ℕ → bitmap.Bits
  unfolding binary_search
  reachable_within g from max_hops = elim (binary_search g.index_to_id from) [
    | none ↦ bitmap.empty
    | some index ↦ bfs_within bitmap g.csr (as_u32 index) max_hops
  ]

  -- The reverse structure is built for the one search.
  unfoldable pub callers_within : CsrGraph → ℕ → ℕ → bitmap.Bits
  unfolding binary_search
  callers_within g from max_hops = elim (binary_search g.index_to_id from) [
    | none ↦ bitmap.empty
    | some index ↦ bfs_within bitmap (build_reverse g.csr) (as_u32 index) max_hops
  ]

  unfoldable pub reachable_nodes : CsrGraph → ℕ → ℕ → List ℕ
  unfolding reachable_within id_of_index
  reachable_nodes g from max_hops =
      filter_map (id_of_index g) (bitmap.iter (reachable_within g from max_hops))
