-- ===== src/Graph/Load.antt =====
-- Building the graph: from slices, and from a storage.
use mathlib.Core.Path.{ap₂}
use weave_graph.Common.{
  ℕ, ◌≤◌, ◌<◌, List, [], ◌∷◌, map, length, ◌≡◌, ◌↔◌, inl, inr, refl, arith, In, Nodup, leb, sort,
  insert_sorted, dedup, dedup_after, In-sort, In-dedup, In-insert_sorted, ◌==◌, nat_eq, nat_beq_iff,
  Bool-cases, sym, ap, Pairwise,
}
use weave_graph.Csr.{u32_max}
use weave_graph.Model.{Node, Edge}
use weave_graph.Graph.{
  CsrGraph, ok, err, panic, build, from_nodes_and_edges, Storage, load, outbound,
}
use weave_graph.Graph.Neighbors.{outbound-rising}
use weave_graph.Graph.Order.{dedup-sort-rising}
use weave_graph.Graph.Outbound.{build-Represents, build-panic, outbound_iff}

insert_sorted-Nodup :
    (x : ℕ) (xs : List ℕ) → (¬ In x xs) → Nodup xs → Nodup (insert_sorted leb x xs)
unfolding insert_sorted
insert_sorted-Nodup x [] n d = (n, tt)
insert_sorted-Nodup x (y ∷ ys) n d = elim (Bool-cases (leb x y)) [
  | inl e ↦ rw e (n, d)
  | inr e ↦ rw e (
    λ m. elim ((In-insert_sorted leb y x ys).0 m) [
      | inl same ↦ n (inl (sym same))
      | inr m' ↦ d.0 m'
    ],
    insert_sorted-Nodup x ys (λ m. n (inr m)) d.1,
  )
]

sort-Nodup : (xs : List ℕ) → Nodup xs → Nodup (sort leb xs)
unfolding sort
sort-Nodup [] d = tt
sort-Nodup (x ∷ xs) d =
    insert_sorted-Nodup x (sort leb xs) (λ m. d.0 ((In-sort leb x xs).0 m)) (sort-Nodup xs d.1)

dedup_after-eq : (a : ℕ) (xs : List ℕ) → (¬ In a xs) → Nodup xs → dedup_after a xs ≡ xs
unfolding dedup_after
dedup_after-eq a [] n d = refl
dedup_after-eq a (x ∷ xs) n d = elim (Bool-cases (a == x)) [
  | inl e ↦ absurd (n (inl ((nat_beq_iff a x).0 e)))
  | inr e ↦ rw e (ap (λ r. x ∷ r) (dedup_after-eq x xs d.0 d.1))
]

pub dedup-eq : (xs : List ℕ) → Nodup xs → dedup xs ≡ xs
unfolding dedup
dedup-eq [] d = refl
dedup-eq (x ∷ xs) d = ap (λ r. x ∷ r) (dedup_after-eq x xs d.0 d.1)

abbrev pub ends : {Weight : Type 0} → List (ℕ × ℕ × Weight) → List (ℕ × ℕ)
ends = map (λ e. (e.0, e.1))

abbrev pub triples : {Weight : Type 0} → List (Edge Weight) → List (ℕ × ℕ × Weight)
triples = map (λ e. (e.source_id, e.target_id, e.weight))

ends-triples :
    {Weight : Type 0} (edges : List (Edge Weight))
    → ends (triples edges) ≡ map (λ e. (e.source_id, e.target_id)) edges
ends-triples [] = refl
ends-triples (e ∷ edges) = ap (λ r. (e.source_id, e.target_id) ∷ r) (ends-triples edges)

-- From slices, for at most `u32::MAX` distinct ids, the graph is built, and a storage id `t` is an
-- outbound neighbour of `s` exactly when both are among the nodes and some edge leads from `s` to
-- `t`: an edge with an unknown end is dropped. The outbound neighbours come in rising order, each
-- once, however many parallel edges lead to it. With more distinct ids the assertion fails.
pub from_nodes_and_edges_lem :
    {Weight : Type 0} (nodes : List ℕ) (edges : List (ℕ × ℕ × Weight))
    → (length (dedup (sort leb nodes)) ≤ u32_max
        → (g : CsrGraph) × (from_nodes_and_edges nodes edges ≡ ok g)
          × ((s t : ℕ) → In t (outbound g s) ↔ (In s nodes × In t nodes × In (s, t) (ends edges)))
          × ((s : ℕ) → Pairwise ◌<◌ (outbound g s)))
      × (u32_max < length (dedup (sort leb nodes)) → from_nodes_and_edges nodes edges ≡ panic)
unfolding from_nodes_and_edges
from_nodes_and_edges_lem nodes edges = (
  λ small.
      let ids = dedup (sort leb nodes) in
      let (g, e, r) = build-Represents ids (ends edges) small in
      (
        g,
        e,
        λ s t. ground (
          arith,
          outbound_iff ids (ends edges) g r s t,
          In-dedup s (sort leb nodes),
          In-sort leb s nodes,
          In-dedup t (sort leb nodes),
          In-sort leb t nodes,
        ),
        outbound-rising ids (ends edges) g r (dedup-sort-rising nodes),
      ),
  λ large. build-panic (dedup (sort leb nodes)) (ends edges) large,
)

-- Loading from a storage that lists distinct ids gives the same graph as building from the slices
-- of its ids and edges, and an error of either pass over the storage is returned.
pub load_lem :
    {Weight : Type 0} (storage : Storage Weight)
    → ((nodes : List Node) (edges : List (Edge Weight))
        → storage.for_each_node ≡ ok nodes
        → storage.for_each_edge ≡ ok edges
        → Nodup (map (λ n. n.id) nodes)
        → load storage ≡ from_nodes_and_edges (map (λ n. n.id) nodes) (triples edges))
      × ((e : _) → storage.for_each_node ≡ err e → load storage ≡ err e)
      × ((nodes : List Node) (e : _)
          → storage.for_each_node ≡ ok nodes
          → storage.for_each_edge ≡ err e
          → load storage ≡ err e)
unfolding load from_nodes_and_edges
load_lem storage = (
  λ nodes edges hn he d.
      let ids = map (λ (n : Node). n.id) nodes in
      rw (hn, he)
        (ap₂ build (sym (dedup-eq (sort leb ids) (sort-Nodup ids d))) (sym (ends-triples edges))),
  λ e h. rw h,
  λ nodes e hn he. rw (hn, he),
)
