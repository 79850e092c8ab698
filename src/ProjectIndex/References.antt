-- ===== src/ProjectIndex/References.antt =====
-- What a reference by short name resolves to, in terms of the symbols that were added.
use weave_graph.Common.{
  ℕ, Text, codes, List, [], ◌∷◌, map, filter, is_empty, Bool, true, false, none, some, ◌==◌, nat_eq,
  list_eq, if◌then◌else◌, ◌≡◌, refl,
}
use weave_graph.Interner.{Interner}
use weave_graph.ProjectIndex.{
  ProjectIndex, same_file_exact, unique_global_exact, ambiguous_heuristic, Target, file_of,
  candidates, target, exact, fan_out, resolve_one,
}
use weave_graph.ProjectIndex.Names.{Named, Named-map, Named-filter}
use weave_graph.ProjectIndex.Candidates.{Indexes, monikers}

-- The targets of a reference, by the monikers of the name: the only one in the caller's file, the
-- only one at all, or every one of them, as ambiguous.
unfoldable pub every : List Text → List Target
every names = map (λ m. (m, codes "CALLS_DYNAMIC", ambiguous_heuristic)) names

unfoldable pub only : List Text → List Text → List Target
only (m ∷ []) names = (m, codes "CALLS_EXACT", same_file_exact) ∷ []
only same_file (m ∷ []) = (m, codes "CALLS_EXACT", unique_global_exact) ∷ []
only same_file names = every names

unfoldable pub targets : List (Text × Text) → Text → Text → Bool → List Target
targets symbols from_moniker short_name force_dynamic =
    let names = monikers short_name symbols in
    if force_dynamic
    then every names
    else only (filter (λ m. file_of m == file_of from_moniker) names) names

module _ (interner : Interner) (index : ProjectIndex interner) where
  open interner use {resolve, resolve-get_id}

  fan_out-every :
      (ids : List ℕ) (names : List Text)
      → Named interner index.interner_state ids names
      → fan_out interner index ids ≡ every names
  unfolding fan_out target every
  fan_out-every ids names n =
      Named-map interner index.interner_state (λ m. (m, codes "CALLS_DYNAMIC", ambiguous_heuristic))
        ids names n

  chosen : List ℕ → List ℕ → List Target
  chosen same_file ids = elim (exact interner index same_file ids) [
    | none ↦ fan_out interner index ids
    | some found ↦ found ∷ []
  ]

  chosen-only :
      (same_ids ids : List ℕ) (same_names names : List Text)
      → Named interner index.interner_state same_ids same_names
      → Named interner index.interner_state ids names
      → chosen same_ids ids ≡ only same_names names
  unfolding chosen exact only target
  chosen-only (i ∷ []) ids (m ∷ []) names (e, _) n =
      rw (resolve-get_id index.interner_state m i e) refl
  chosen-only (i ∷ []) ids [] names s n = absurd s
  chosen-only (i ∷ []) ids (m ∷ k ∷ same) names (_, s) n = absurd s
  chosen-only [] ids (m ∷ same) names s n = absurd s
  chosen-only (i ∷ j ∷ same) ids [] names s n = absurd s
  chosen-only (i ∷ j ∷ same) ids (m ∷ []) names (_, s) n = absurd s
  chosen-only [] [] [] [] s n = fan_out-every [] [] n
  chosen-only [] [] [] (m ∷ names) s n = absurd n
  chosen-only [] (i ∷ ids) [] [] s n = absurd n
  chosen-only [] (i ∷ []) [] (m ∷ []) s (e, _) = rw (resolve-get_id index.interner_state m i e) refl
  chosen-only [] (i ∷ []) [] (m ∷ k ∷ names) s (_, n) = absurd n
  chosen-only [] (i ∷ j ∷ ids) [] (m ∷ []) s (_, n) = absurd n
  chosen-only [] (i ∷ j ∷ ids) [] (m ∷ k ∷ names) s n =
      fan_out-every (i ∷ j ∷ ids) (m ∷ k ∷ names) n
  chosen-only (a ∷ b ∷ same) [] (c ∷ d ∷ others) [] s n = fan_out-every [] [] n
  chosen-only (a ∷ b ∷ same) [] (c ∷ d ∷ others) (m ∷ names) s n = absurd n
  chosen-only (a ∷ b ∷ same) (i ∷ ids) (c ∷ d ∷ others) [] s n = absurd n
  chosen-only (a ∷ b ∷ same) (i ∷ []) (c ∷ d ∷ others) (m ∷ []) s (e, _) =
      rw (resolve-get_id index.interner_state m i e) refl
  chosen-only (a ∷ b ∷ same) (i ∷ []) (c ∷ d ∷ others) (m ∷ k ∷ names) s (_, n) = absurd n
  chosen-only (a ∷ b ∷ same) (i ∷ j ∷ ids) (c ∷ d ∷ others) (m ∷ []) s (_, n) = absurd n
  chosen-only (a ∷ b ∷ same) (i ∷ j ∷ ids) (c ∷ d ∷ others) (m ∷ k ∷ names) s n =
      fan_out-every (i ∷ j ∷ ids) (m ∷ k ∷ names) n

  targeted :
      (from_moniker : Text) (force : Bool) (ids : List ℕ) (names : List Text)
      → Named interner index.interner_state ids names
      → (if is_empty ids
          then []
          else if force
          then fan_out interner index ids
          else chosen
              (filter (λ id. file_of (resolve index.interner_state id) == file_of from_moniker) ids)
              ids)
        ≡ (if force
            then every names
            else only (filter (λ m. file_of m == file_of from_moniker) names) names)
  unfolding every only
  targeted from_moniker true [] [] n = refl
  targeted from_moniker false [] [] n = refl
  targeted from_moniker force [] (m ∷ names) n = absurd n
  targeted from_moniker force (i ∷ ids) [] n = absurd n
  targeted from_moniker true (i ∷ ids) (m ∷ names) n = fan_out-every (i ∷ ids) (m ∷ names) n
  targeted from_moniker false (i ∷ ids) (m ∷ names) n =
      chosen-only _ (i ∷ ids) _ (m ∷ names)
        (Named-filter interner index.interner_state (λ x. file_of x == file_of from_moniker)
          (i ∷ ids) (m ∷ names) n)
        n

pub resolve_one_lem :
    (interner : Interner) (index : ProjectIndex interner) (symbols : List (Text × Text))
    → Indexes interner index symbols
    → (from_moniker short_name : Text) (force_dynamic : Bool)
    → resolve_one interner index from_moniker short_name force_dynamic
      ≡ targets symbols from_moniker short_name force_dynamic
unfolding resolve_one targets chosen
resolve_one_lem interner index symbols h from_moniker short_name force_dynamic =
    targeted interner index from_moniker force_dynamic (candidates interner index short_name)
      (monikers short_name symbols) (h.named short_name)
