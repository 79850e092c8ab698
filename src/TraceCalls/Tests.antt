-- ===== src/TraceCalls/Tests.antt =====
-- Chains rendered within a budget, and the theorems there.
use weave_graph.Common.{
  decimal, ℕ, Text, codes, List, [], ◌∷◌, In, Option, some, ◌≡◌, ◌↔◌, refl, sym, ◌∙◌, subst, nat_eq,
  list_eq, arith,
}
use weave_graph.Model.{Node}
use weave_graph.Bitmap.Listed.{listed}
use weave_graph.Graph.{CsrGraph, ok, build}
use weave_graph.Graph.Outbound.{Represents, build-Represents}
use weave_graph.TraceCalls.{estimate_tokens, render, render_result, shown, outgoing_chain}
use weave_graph.TraceCalls.Outgoing.{Callee, outgoing_chain_iff}

counts :
    (estimate_tokens (codes " a bc  d ") ≡ 3)
    × (estimate_tokens (97 ∷ 194 ∷ 160 ∷ 98 ∷ []) ≡ 2)
    × (estimate_tokens [] ≡ 0)
unfolding estimate_tokens
counts = (refl, refl, refl)

abbrev callees : List Text
callees = codes "g (a:1)" ∷ codes "h (a:2)" ∷ codes "i (b:3)" ∷ codes "j (b:4)" ∷ []

cut : render_result (codes "f") (some 15) callees [] ≡ render (codes "f") callees [] 1
unfolding render_result render decimal
cut = refl

abbrev ids : List ℕ
ids = 10 ∷ 20 ∷ []

abbrev edges : List (ℕ × ℕ)
edges = (10, 20) ∷ []

abbrev graph : CsrGraph
graph = record {
  csr = record { row_offsets = 0 ∷ 1 ∷ 1 ∷ []; column_indices = 1 ∷ [] };
  index_to_id = ids;
}

built : build ids edges ≡ ok graph
unfolding build weave_graph.Csr.close_rows weave_graph.Csr.add_edge
built = refl

ok_injective : (a b : CsrGraph) → ok a ≡ ok b → a ≡ b
ok_injective a b h = cc

graph-Represents : Represents ids edges graph
graph-Represents =
    let (g, e, r) = build-Represents ids edges (omega arith) in
    subst (Represents ids edges) (ok_injective g graph (sym e ∙ built)) r

abbrev node : ℕ → Node
node id = record {
  id = id;
  repo_id = [];
  path = codes "a.rs";
  symbol = codes "g";
  kind = [];
  line_start = 12;
  line_end = 20;
  signature = [];
}

abbrev lookup : ℕ → Option Node
lookup id = some (node id)

outgoing_chain_iff_example : In (codes "g (a.rs:12)") (outgoing_chain listed graph lookup 10 3) ↔ (
    (n : Node) × Callee ids edges graph graph-Represents listed lookup 10 3 n
    × (codes "g (a.rs:12)" ≡ shown n))
outgoing_chain_iff_example =
    outgoing_chain_iff ids edges graph graph-Represents listed lookup 10 3 (codes "g (a.rs:12)")
