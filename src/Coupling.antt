-- ===== src/Coupling.antt =====
-- `semantic_coupling_findings` of crates/weave-graph-core/src/policy.rs: similar files that declare
-- no relation.
pub mod Globs
pub mod Keys
pub mod Order
pub mod Findings
mod Tests
use weave_graph.Common.{
  ℕ, ◌-◌, Text, codes, List, [], ◌∷◌, ◌++◌, map, any, filter_map, take, length, contains, Bool,
  true, false, not, ◌&&◌, ◌||◌, Option, none, some, ◌>>=◌, ◌==◌, Eq, nat_eq, list_eq, if◌then◌else◌,
  starts_with, ends_with, text_le, lookup, sort,
}
use weave_graph.Model.{Node, Edge}
use weave_graph.Policy.{in_module, path_of, lex}

-- The similarity is an `f32`: a type with the test `<`.
pub record SemanticCouplingRule (Similarity : Type 0) : Type 0 where
  pub within : Text
  pub threshold : Similarity
  pub exempt_globs : List Text

pub record SemanticCouplingFinding (Similarity : Type 0) : Type 0 where
  pub file_a : Text
  pub file_b : Text
  pub similarity : Similarity

unfoldable pub strip_suffix : Text → Text → Option Text
strip_suffix text suffix =
    if ends_with text suffix then some (take (length text - length suffix) text) else none

unfoldable pub glob_matches : Text → Text → Bool
unfolding strip_suffix
glob_matches pattern path = elim (strip_suffix pattern (codes "/**")) [
  | some prefix ↦ path == prefix || starts_with path (prefix ++ codes "/")
  | none ↦ pattern == path
]

-- The two files in order: the key of a pair.
unfoldable pub key_of : Text → Text → Text × Text
key_of a b = if text_le a b then (a, b) else (b, a)

text_pair_beq : Text × Text → Text × Text → Bool
text_pair_beq a b = (a.0 == b.0) && (a.1 == b.1)

unfoldable pub declared : {Weight : Type 0} → List Node → List (Edge Weight) → List (Text × Text)
unfolding key_of path_of
declared nodes edges =
    filter_map
      (λ e. do
        a ← lookup (path_of nodes) e.source_id
        b ← lookup (path_of nodes) e.target_id
        some (key_of a b))
      edges

-- `declared.contains(&key)`.
unfoldable pub is_declared : List (Text × Text) → Text × Text → Bool
unfolding text_pair_beq
is_declared keys key = any (text_pair_beq key) keys

module _ {Similarity : Type 0} (below : Similarity → Similarity → Bool) where
  -- The tests of the loop body on two known files.
  unfoldable pub judge :
      SemanticCouplingRule Similarity
      → List (Text × Text)
      → Text
      → Text
      → Similarity
      → Option (SemanticCouplingFinding Similarity)
  unfolding glob_matches is_declared key_of in_module
  judge rule keys file_a file_b similarity =
      if file_a == file_b
      then none
      else if not (in_module file_a rule.within) || not (in_module file_b rule.within)
      then none
      else if any (λ g. glob_matches g file_a || glob_matches g file_b) rule.exempt_globs
      then none
      else if is_declared keys (key_of file_a file_b)
      then none
      else some (record {
        file_a = (key_of file_a file_b).0;
        file_b = (key_of file_a file_b).1;
        similarity = similarity;
      })

  -- The loop body: the finding it pushes, if any.
  unfoldable pub couple :
      SemanticCouplingRule Similarity
      → List (Text × Text)
      → List (ℕ × Text)
      → ℕ × ℕ × Similarity
      → Option (SemanticCouplingFinding Similarity)
  unfolding judge
  couple rule keys paths (a, b, similarity) = if below similarity rule.threshold then none else do
    file_a ← lookup paths a
    file_b ← lookup paths b
    judge rule keys file_a file_b similarity

  unfoldable pub finding_le :
      SemanticCouplingFinding Similarity → SemanticCouplingFinding Similarity → Bool
  finding_le x y = lex x.file_a y.file_a (text_le x.file_b y.file_b)

  unfoldable pub semantic_coupling_findings :
      {Weight : Type 0}
      → List Node
      → List (Edge Weight)
      → List (ℕ × ℕ × Similarity)
      → SemanticCouplingRule Similarity
      → List (SemanticCouplingFinding Similarity)
  unfolding couple declared finding_le sort
  semantic_coupling_findings nodes edges pairs rule =
      sort finding_le (filter_map (couple rule (declared nodes edges) (path_of nodes)) pairs)
