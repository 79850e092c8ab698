-- ===== src/Policy/Tests.antt =====
-- Two layers with one forbidden edge, and the theorems there.
use mathlib.Core.List.{Perm}
use weave_graph.Common.{
  ℕ, Text, codes, List, [], ◌∷◌, none, ◌≡◌, ◌↔◌, refl, In, nat_eq, list_eq, Pairwise, inl,
}
use weave_graph.Model.{Node, Edge}
use weave_graph.Policy.{
  Boundary, BoundaryRule, disallow, require, boundary, Violation, lint_scoped, lint, orphan_files,
}
use weave_graph.Policy.Order.{InOrder}
use weave_graph.Policy.Crossing.{Waived}
use weave_graph.Policy.Rules.{Breaks, Reports, report_of, lint_scoped_lem}
use weave_graph.Policy.Orphans.{Enters, orphan_files_iff}

abbrev node : ℕ → Text → Node
node id path = record {
  id = id;
  repo_id = codes "r";
  path = path;
  symbol = codes "s";
  kind = codes "function";
  line_start = 1;
  line_end = 2;
  signature = [];
}

abbrev edge : ℕ → ℕ → Edge (Unit {0})
edge s t = record {
  id = 1;
  source_id = s;
  target_id = t;
  kind = codes "CALLS_EXACT";
  weight = tt;
  extractor = none;
  resolution_kind = none;
}

abbrev nodes : List Node
nodes =
    node 1 (codes "src/ui/a.rs") ∷ node 2 (codes "src/db/b.rs") ∷ node 3 (codes "src/dbx/c.rs") ∷ []

abbrev edges : List (Edge (Unit {0}))
edges = edge 1 3 ∷ edge 1 2 ∷ edge 2 9 ∷ []

abbrev layers : Boundary
layers = record {
  from = codes "src/ui";
  to = codes "src/db";
  allowed_roles = codes "dba" ∷ [];
  owner_role = none;
}

abbrev rules : List BoundaryRule
rules = require layers ∷ disallow layers ∷ []

abbrev broken : Violation
broken = record {
  kind = codes "disallow";
  from = codes "src/ui";
  to = codes "src/db";
  examples = codes "s (src/ui/a.rs) -> s (src/db/b.rs)" ∷ [];
  owner_role = none;
}

reports :
    (lint nodes edges rules ≡ broken ∷ [])
    × (lint_scoped nodes edges rules (codes "dba" ∷ []) ≡ [])
    × (orphan_files nodes edges ≡ codes "src/ui/a.rs" ∷ [])
unfolding lint lint_scoped orphan_files
reports = (refl, refl, refl)

lint_scoped_lem_example :
    Pairwise InOrder (lint_scoped nodes edges rules [])
    × ((reports : List Violation) × Reports nodes edges [] rules reports
        × Perm (lint_scoped nodes edges rules []) reports)
    × ((v : Violation)
        → In v (lint_scoped nodes edges rules []) ↔ (
            (rule : BoundaryRule) × In rule rules
            × (¬ Waived (boundary rule) [])
            × Breaks nodes edges rule
            × (v ≡ report_of nodes edges rule)))
lint_scoped_lem_example = lint_scoped_lem nodes edges rules []

reported : In broken (lint_scoped nodes edges rules (codes "web" ∷ []))
unfolding lint_scoped
reported = inl refl

orphan_files_iff_example : In (codes "src/ui/a.rs") (orphan_files nodes edges) ↔ (
    ((n : Node) × In n nodes × (codes "src/ui/a.rs" ≡ n.path))
    × (¬ Enters nodes edges (codes "src/ui/a.rs")))
orphan_files_iff_example = orphan_files_iff nodes edges (codes "src/ui/a.rs")
