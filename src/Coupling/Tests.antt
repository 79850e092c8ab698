-- ===== src/Coupling/Tests.antt =====
-- Two similar files without an edge, and the theorem there.
use weave_graph.Common.{
  ℕ, Text, codes, List, [], ◌∷◌, ltb, ◌≡◌, ◌↔◌, refl, In, Pairwise, nat_eq, list_eq,
}
use weave_graph.Model.{Node, Edge}
use weave_graph.Coupling.{SemanticCouplingRule, SemanticCouplingFinding, semantic_coupling_findings}
use weave_graph.Coupling.Order.{InOrder}
use weave_graph.Coupling.Findings.{Reported, semantic_coupling_findings_lem}

abbrev node : ℕ → Text → Node
node id path = record {
  id = id;
  repo_id = [];
  path = path;
  symbol = [];
  kind = [];
  line_start = 1;
  line_end = 2;
  signature = [];
}

abbrev nodes : List Node
nodes = node 1 (codes "src/b.rs") ∷ node 2 (codes "src/a.rs") ∷ node 3 (codes "src/gen/c.rs") ∷ []

abbrev edges : List (Edge (Unit {0}))
edges = []

abbrev pairs : List (ℕ × ℕ × ℕ)
pairs = (1, 2, 90) ∷ (1, 3, 95) ∷ (2, 1, 10) ∷ []

abbrev rule : SemanticCouplingRule ℕ
rule = record { within = codes "src"; threshold = 50; exempt_globs = codes "src/gen/**" ∷ [] }

reports :
    semantic_coupling_findings ltb nodes edges pairs rule
    ≡ record { file_a = codes "src/a.rs"; file_b = codes "src/b.rs"; similarity = 90 } ∷ []
unfolding semantic_coupling_findings
reports = refl

semantic_coupling_findings_lem_example :
    Pairwise InOrder (semantic_coupling_findings ltb nodes edges pairs rule)
    × ((f : SemanticCouplingFinding ℕ)
        → In f (semantic_coupling_findings ltb nodes edges pairs rule)
          ↔ ((pair : ℕ × ℕ × ℕ) × In pair pairs × Reported ltb rule nodes edges pair f))
semantic_coupling_findings_lem_example = semantic_coupling_findings_lem ltb rule nodes edges pairs
