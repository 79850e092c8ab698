-- ===== src/TraceCalls/Outgoing.antt =====
-- Which callees a trace shows.
use weave_graph.Common.{
  ℕ, Text, List, map, filter, filter_map, In, In-filter, In-map, map-In, In-filter_map,
  filter_map-In, not, Option, some, ◌==◌, ==_iff, nat_eq, ◌≡◌, ◌↔◌, sym, subst, arith,
}
use weave_graph.Model.{Node}
use weave_graph.Bitmap.{Bitmap}
use weave_graph.Graph.{CsrGraph, reachable_nodes}
use weave_graph.Graph.Outbound.{Represents}
use weave_graph.Graph.Reachable.{Hops, reachable_nodes_iff}
use weave_graph.TraceCalls.{shown, outgoing_chain}

module _ (ids : List ℕ) (edges : List (ℕ × ℕ)) (g : CsrGraph) (r : Represents ids edges g)
    (bitmap : Bitmap) (lookup : ℕ → Option Node) (from depth : ℕ) where
  -- A node other than the start, found by the lookup, that at most `depth` edges lead to.
  abbrev pub Callee : Node → Type 0
  Callee n = (id : ℕ) × In from ids × Hops g from depth id × (¬ (id ≡ from)) × (lookup id ≡ some n)

  others_iff :
      (id : ℕ)
      → In id (filter (λ id. not (id == from)) (reachable_nodes bitmap g from depth))
        ↔ (In from ids × Hops g from depth id × (¬ (id ≡ from)))
  others_iff id = ground (
    arith,
    In-filter (λ id. not (id == from)) id (reachable_nodes bitmap g from depth),
    reachable_nodes_iff ids edges g r bitmap from depth id,
    ==_iff id from,
  )

  -- The outgoing chain shows exactly the nodes other than the start that at most `depth` outbound
  -- edges lead to and that the lookup finds.
  pub outgoing_chain_iff :
      (line : Text)
      → In line (outgoing_chain bitmap g lookup from depth)
        ↔ ((n : Node) × Callee n × (line ≡ shown n))
  unfolding outgoing_chain reachable_nodes
  outgoing_chain_iff line =
      let others = filter (λ id. not (id == from)) (reachable_nodes bitmap g from depth) in
      (
        λ m.
            let (n, k, e) = In-map shown (filter_map lookup others) line m in
            let (id, l, found) = In-filter_map lookup others n k in
            let (a, b, c) = (others_iff id).0 l in (n, (id, a, b, c, found), e),
        λ (n, (id, a, b, c, found), e).
            subst (λ x. In x (map shown (filter_map lookup others))) (sym e)
              (map-In shown (filter_map lookup others) n
                (filter_map-In lookup others id n ((others_iff id).1 (a, b, c)) found)),
      )
