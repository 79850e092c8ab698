-- ===== src/CrossRepo.antt =====
-- crates/weave-graph-parse/src/resolve.rs: `add_file`, which puts the symbols of a file into the project
-- index, and `resolve_cross_repo`, which looks in the index of another repository for what the own index
-- does not have.
pub mod Files
pub mod Fallback
mod Tests
use weave_graph.Common.{
  ℕ, Text, codes, List, [], ◌∷◌, ◌++◌, map, is_empty, true, false, Option, none, some, ◌==◌, nat_eq,
  list_eq, if◌then◌else◌,
}
use weave_graph.Interner.{Interner}
use weave_graph.ProjectIndex.{
  ProjectIndex, ResolutionKind, ambiguous_heuristic, Target, candidates, add_symbol, resolve_one,
}
use weave_graph.FileEdges.{
  RawCall, RawStructuralEdge, WiringCard, ParsedFile, ResolvedEdge, extractor_of, flat_map, as_str,
}

-- The text after `::`, where it starts with that.
abbrev pub after_first : Text → Option Text
after_first [] = none
after_first (c ∷ []) = none
after_first (c ∷ d ∷ text) = if c == b':' then if d == b':' then some text else none else none

-- The text after the last `::`, where there is one.
abbrev pub after_last : Text → Option Text
after_last [] = none
after_last (c ∷ text) = elim (after_last text) [
  | some rest ↦ some rest
  | none ↦ after_first (c ∷ text)
]

-- `symbol.rsplit("::").next().unwrap_or(symbol)`.
unfoldable pub short_name_of : Text → Text
short_name_of symbol = elim (after_last symbol) [ none ↦ symbol | some name ↦ name ]

module _ (interner : Interner) where
  open interner use {resolve}

  unfoldable pub add_cards : ProjectIndex interner → List WiringCard → ProjectIndex interner
  unfolding add_symbol short_name_of
  add_cards index [] = index
  add_cards index (card ∷ cards) =
      add_cards (add_symbol interner index card.moniker (short_name_of card.symbol)).0 cards

  unfoldable pub add_file : ProjectIndex interner → ParsedFile → ProjectIndex interner
  unfolding add_cards
  add_file index file = add_cards index file.symbols

  unfoldable pub call_fallback :
      ProjectIndex interner → ProjectIndex interner → RawCall → List ResolvedEdge
  unfolding candidates resolve_one extractor_of
  call_fallback index fallback call =
      if is_empty (candidates interner index call.callee_name)
      then map
          (λ t. record {
            source_moniker = call.caller_moniker;
            target_moniker = t.0;
            kind = t.1;
            resolution_kind = ambiguous_heuristic;
            extractor = extractor_of call.caller_moniker;
          })
          (resolve_one interner fallback call.caller_moniker call.callee_name call.is_member_call)
      else []

  unfoldable pub structural_fallback :
      ProjectIndex interner → ProjectIndex interner → RawStructuralEdge → List ResolvedEdge
  unfolding candidates as_str extractor_of
  structural_fallback index fallback structural =
      if is_empty (candidates interner index structural.target_name)
      then map
          (λ id. record {
            source_moniker = structural.source_moniker;
            target_moniker = resolve fallback.interner_state id;
            kind = as_str structural.kind;
            resolution_kind = ambiguous_heuristic;
            extractor = extractor_of structural.source_moniker;
          })
          (candidates interner fallback structural.target_name)
      else []

  unfoldable pub resolve_cross_repo :
      ProjectIndex interner → ParsedFile → ProjectIndex interner → List ResolvedEdge
  unfolding call_fallback structural_fallback
  resolve_cross_repo index file fallback =
      flat_map (call_fallback index fallback) file.calls
      ++ flat_map (structural_fallback index fallback) file.structural_edges
