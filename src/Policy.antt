-- ===== src/Policy.antt =====
-- crates/weave-graph-core/src/policy.rs: boundary rules and their linting, and orphan files.
pub mod Paths
pub mod Crossing
pub mod Rules
pub mod Order
pub mod Orphans
mod Tests
use weave_graph.Common.{
  ℕ, Text, codes, List, [], ◌∷◌, ◌++◌, map, any, filter, filter_map, find, take, contains, is_empty,
  Bool, true, false, not, ◌&&◌, ◌||◌, Option, none, some, ◌==◌, nat_eq, list_eq, if◌then◌else◌,
  starts_with, text_le, lookup, collect, sort, dedup, ◌>>=◌,
}
use weave_graph.Model.{Node, Edge}

pub record Boundary : Type 0 where
  pub from : Text
  pub to : Text
  pub allowed_roles : List Text
  pub owner_role : Option Text

pub data BoundaryRule : Type 0 where
  disallow require : Boundary → BoundaryRule

unfoldable pub boundary : BoundaryRule → Boundary
boundary (disallow b) = b
boundary (require b) = b

pub record Violation : Type 0 where
  pub kind : Text
  pub from : Text
  pub to : Text
  pub examples : List Text
  pub owner_role : Option Text

unfoldable pub in_module : Text → Text → Bool
in_module path prefix = path == prefix || is_empty prefix || starts_with path (prefix ++ codes "/")

-- `nodes.iter().map(|n| (n.id, n.path.as_str())).collect()`.
unfoldable pub path_of : List Node → List (ℕ × Text)
path_of nodes = collect (map (λ n. (n.id, n.path)) nodes)

-- `!allowed_roles.is_empty() && allowed_roles.iter().any(|role| current_roles.contains(role))`.
unfoldable pub exempt : Boundary → List Text → Bool
exempt b current_roles =
    not (is_empty b.allowed_roles) && any (λ role. contains current_roles role) b.allowed_roles

-- The test of the `matches!` over the two looked-up paths.
unfoldable pub both_in : Boundary → Option Text → Option Text → Bool
unfolding in_module
both_in b (some src) (some dst) = in_module src b.from && in_module dst b.to
both_in b _ _ = false

-- The paths of the two ends under the boundary's two prefixes.
unfoldable pub crosses : {Weight : Type 0} → List (ℕ × Text) → Boundary → Edge Weight → Bool
unfolding both_in
crosses paths b e = both_in b (lookup paths e.source_id) (lookup paths e.target_id)

unfoldable pub crossing :
    {Weight : Type 0} → List Node → List (Edge Weight) → Boundary → List (ℕ × ℕ)
unfolding crosses path_of
crossing nodes edges b =
    map (λ e. (e.source_id, e.target_id)) (filter (crosses (path_of nodes) b) edges)

unfoldable pub node_by_id : List Node → ℕ → Option Node
node_by_id nodes id = find (λ n. n.id == id) nodes

-- `format!("{} ({}) -> {} ({})", a.symbol, a.path, b.symbol, b.path)`.
unfoldable pub example_line : Node → Node → Text
example_line a b =
    a.symbol
    ++ codes " ("
    ++ a.path
    ++ codes ") -> "
    ++ b.symbol
    ++ codes " ("
    ++ b.path
    ++ codes ")"

unfoldable pub example_of : List Node → ℕ × ℕ → Option Text
unfolding node_by_id example_line
example_of nodes (src, dst) = do
  a ← node_by_id nodes src
  b ← node_by_id nodes dst
  some (example_line a b)

-- `match rule`: the name of the rule that failed, or `continue`.
unfoldable pub kind_of : BoundaryRule → Bool → Option Text
kind_of (disallow b) no_crossing = if no_crossing then none else some (codes "disallow")
kind_of (require b) no_crossing = if no_crossing then some (codes "require") else none

unfoldable pub report : List Node → List (ℕ × ℕ) → Boundary → Text → Violation
unfolding example_of
report nodes edges b kind = record {
  kind = kind;
  from = b.from;
  to = b.to;
  examples = filter_map (example_of nodes) (take 5 edges);
  owner_role = b.owner_role;
}

-- The body of the loop over the rules: the violation it pushes, if any.
unfoldable pub check_rule :
    {Weight : Type 0} → List Node → List (Edge Weight) → List Text → BoundaryRule → Option Violation
unfolding exempt kind_of report crossing boundary
check_rule nodes edges current_roles rule =
    if exempt (boundary rule) current_roles
    then none
    else elim (kind_of rule (is_empty (crossing nodes edges (boundary rule)))) [
      | none ↦ none
      | some kind ↦ some (report nodes (crossing nodes edges (boundary rule)) (boundary rule) kind)
    ]

-- The order of a pair whose second parts compare as `rest`.
abbrev pub lex : Text → Text → Bool → Bool
lex a b rest = if a == b then rest else text_le a b

-- `(a.kind, &a.from, &a.to) <= (b.kind, &b.from, &b.to)`.
unfoldable pub violation_le : Violation → Violation → Bool
violation_le a b = lex a.kind b.kind (lex a.from b.from (text_le a.to b.to))

unfoldable pub lint_scoped :
    {Weight : Type 0}
    → List Node
    → List (Edge Weight)
    → List BoundaryRule
    → List Text
    → List Violation
unfolding check_rule violation_le sort
lint_scoped nodes edges rules current_roles =
    sort violation_le (filter_map (check_rule nodes edges current_roles) rules)

unfoldable pub lint :
    {Weight : Type 0} → List Node → List (Edge Weight) → List BoundaryRule → List Violation
unfolding lint_scoped
lint nodes edges rules = lint_scoped nodes edges rules []

-- The file that an edge from another file leads to, if both ends are known.
unfoldable pub entered : Option Text → Option Text → Option Text
entered (some a) (some b) = if a == b then none else some b
entered _ _ = none

unfoldable pub targeted : {Weight : Type 0} → List Node → List (Edge Weight) → List Text
unfolding entered path_of
targeted nodes edges =
    filter_map
      (λ e. entered (lookup (path_of nodes) e.source_id) (lookup (path_of nodes) e.target_id)) edges

-- A `BTreeSet` of the paths, in order, without the targeted ones.
unfoldable pub orphan_files : {Weight : Type 0} → List Node → List (Edge Weight) → List Text
unfolding targeted sort dedup
orphan_files nodes edges =
    filter (λ f. not (contains (targeted nodes edges) f))
      (dedup (sort text_le (map (λ n. n.path) nodes)))
