-- ===== src/ProjectIndex.antt =====
-- `ProjectIndex` of crates/weave-graph-parse/src/resolve.rs: a project's symbols by their short
-- names, and the resolution of one reference.
pub mod Names
pub mod Candidates
pub mod References
mod Tests
use weave_graph.Common.{
  ℕ, Text, codes, List, [], ◌∷◌, ◌++◌, map, filter, length, is_empty, Bool, true, false, Option,
  none, some, ◌==◌, nat_eq, list_eq, if◌then◌else◌, lookup, put,
}
use weave_graph.Interner.{Interner}

pub data ResolutionKind : Type 0 where
  same_file_exact unique_global_exact ambiguous_heuristic : ResolutionKind

-- `moniker.split('#').next()`.
unfoldable pub file_of : Text → Text
file_of [] = []
file_of (c ∷ moniker) = let rest = file_of moniker in if c == b'#' then [] else c ∷ rest

-- A target, its edge kind, and how it was resolved.
abbrev pub Target : Type 0
Target = Text × Text × ResolutionKind

-- `.map(Vec::as_slice).unwrap_or(&[])`.
unfoldable pub bucket : List (ℕ × List ℕ) → ℕ → List ℕ
bucket by_short_name id = elim (lookup by_short_name id) [ none ↦ [] | some ids ↦ ids ]

module _ (interner : Interner) where
  open interner use {State, empty, intern, get_id, resolve}

  pub record ProjectIndex : Type 0 where
    pub interner_state : State
    pub by_short_name : List (ℕ × List ℕ)

  unfoldable pub new : ProjectIndex
  new = record { interner_state = empty; by_short_name = [] }

  -- The index with the symbol, and the id of its moniker.
  unfoldable pub add_symbol : ProjectIndex → Text → Text → ProjectIndex × ℕ
  unfolding bucket
  add_symbol index moniker short_name =
      let (named, name_id) = intern index.interner_state short_name in
      let (filled, moniker_id) = intern named moniker in
      (
        record {
          interner_state = filled;
          by_short_name =
              put index.by_short_name name_id
                (bucket index.by_short_name name_id ++ moniker_id ∷ []);
        },
        moniker_id,
      )

  unfoldable pub candidates : ProjectIndex → Text → List ℕ
  unfolding bucket
  candidates index short_name = elim (get_id index.interner_state short_name) [
    | none ↦ []
    | some id ↦ bucket index.by_short_name id
  ]

  unfoldable pub target : ProjectIndex → Text → ResolutionKind → ℕ → Target
  target index kind how id = (resolve index.interner_state id, kind, how)

  -- `same_file.len() == 1` and `candidates.len() == 1`, and what they return.
  unfoldable pub exact : ProjectIndex → List ℕ → List ℕ → Option Target
  unfolding target
  exact index (id ∷ []) ids = some (target index (codes "CALLS_EXACT") same_file_exact id)
  exact index same_file (id ∷ []) = some (target index (codes "CALLS_EXACT") unique_global_exact id)
  exact index same_file ids = none

  -- One edge for every candidate.
  unfoldable pub fan_out : ProjectIndex → List ℕ → List Target
  unfolding target
  fan_out index ids = map (target index (codes "CALLS_DYNAMIC") ambiguous_heuristic) ids

  unfoldable pub resolve_one : ProjectIndex → Text → Text → Bool → List Target
  unfolding candidates file_of exact fan_out
  resolve_one index from_moniker short_name force_dynamic =
      let ids = candidates index short_name in
      let same_file =
        filter (λ id. file_of (resolve index.interner_state id) == file_of from_moniker) ids in
      if is_empty ids
      then []
      else if force_dynamic
      then fan_out index ids
      else elim (exact index same_file ids) [ none ↦ fan_out index ids | some found ↦ found ∷ [] ]
