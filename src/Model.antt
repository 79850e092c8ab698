-- ===== src/Model.antt =====
-- crates/weave-graph-core/src/model.rs: nodes, edges and the confidence of an edge.
use weave_graph.Common.{ℕ, Text, codes, Option, none, some, if◌then◌else◌, ◌==◌, list_eq, nat_eq}

pub record Node : Type 0 where
  pub id : ℕ
  pub repo_id : Text
  pub path : Text
  pub symbol : Text
  pub kind : Text
  pub line_start : ℕ
  pub line_end : ℕ
  pub signature : Text

-- The weight is a float that the modelled code only carries, so its type is a parameter.
pub record Edge (Weight : Type 0) : Type 0 where
  pub id : ℕ
  pub source_id : ℕ
  pub target_id : ℕ
  pub kind : Text
  pub weight : Weight
  pub extractor : Option Text
  pub resolution_kind : Option Text

pub data Confidence : Type 0 where
  exact heuristic : Confidence

abbrev pub ambiguous_heuristic : Text
ambiguous_heuristic = codes "AMBIGUOUS_HEURISTIC"

unfoldable pub edge_confidence : Text → Option Text → Confidence
edge_confidence kind none = if kind == codes "CALLS_DYNAMIC" then heuristic else exact
edge_confidence kind (some r) = if r == ambiguous_heuristic then heuristic else exact
