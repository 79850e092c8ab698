-- ===== src/FileEdges.antt =====
-- `resolve_ids` and `resolve` of crates/weave-graph-parse/src/resolve.rs: the edges
-- of a file, from its references.
pub mod Unresolved
pub mod Edges
mod Tests
use weave_graph.Common.{
  ℕ, Text, codes, List, [], ◌∷◌, ◌++◌, map, filter_map, is_empty, Bool, true, false, Option, none,
  some, ◌>>=◌, ◌==◌, nat_eq, list_eq, if◌then◌else◌, text_le, sort, dedup,
}
use weave_graph.Interner.{Interner}
use weave_graph.Language.{from_path, debug_name}
use weave_graph.ProjectIndex.{
  ProjectIndex, ResolutionKind, unique_global_exact, ambiguous_heuristic, Target, file_of,
  candidates, resolve_one,
}

pub record RawCall : Type 0 where
  pub caller_moniker : Text
  pub callee_name : Text
  pub is_member_call : Bool

pub data StructuralEdgeKind : Type 0 where
  imports inherits implements handles : StructuralEdgeKind

unfoldable pub as_str : StructuralEdgeKind → Text
as_str imports = codes "IMPORTS"
as_str inherits = codes "INHERITS"
as_str implements = codes "IMPLEMENTS"
as_str handles = codes "ROUTES_TO"

pub record RawStructuralEdge : Type 0 where
  pub source_moniker : Text
  pub target_name : Text
  pub kind : StructuralEdgeKind

-- The kind of a symbol is its text.
pub record WiringCard : Type 0 where
  pub moniker : Text
  pub symbol : Text
  pub kind : Text
  pub line_start : ℕ
  pub line_end : ℕ
  pub signature : Text

pub record ParsedFile : Type 0 where
  pub symbols : List WiringCard
  pub calls : List RawCall
  pub structural_edges : List RawStructuralEdge

pub record ResolvedEdgeIds : Type 0 where
  pub source_id : ℕ
  pub target_id : ℕ
  pub kind : Text
  pub resolution_kind : ResolutionKind
  pub extractor : Option Text

pub record ResolvedEdge : Type 0 where
  pub source_moniker : Text
  pub target_moniker : Text
  pub kind : Text
  pub resolution_kind : ResolutionKind
  pub extractor : Option Text

unfoldable pub extractor_of : Text → Option Text
unfolding from_path debug_name file_of
extractor_of moniker = from_path (file_of moniker) >>= λ language. some (debug_name language)

-- Nested loops that push on one list.
abbrev pub flat_map : {A B : Type 0} → (A → List B) → List A → List B
flat_map f [] = []
flat_map f (x ∷ xs) = f x ++ flat_map f xs

-- `if candidates.len() == 1`.
unfoldable pub structural_kind : List ℕ → ResolutionKind
structural_kind (id ∷ []) = unique_global_exact
structural_kind ids = ambiguous_heuristic

module _ (interner : Interner) where
  open interner use {get_id, resolve}

  -- The body of the loop over the targets of a call.
  unfoldable pub call_edge : ProjectIndex interner → RawCall → Target → Option ResolvedEdgeIds
  unfolding extractor_of
  call_edge index call (moniker, kind, how) = do
    source ← get_id index.interner_state call.caller_moniker
    target ← get_id index.interner_state moniker
    some (record {
      source_id = source;
      target_id = target;
      kind = kind;
      resolution_kind = how;
      extractor = extractor_of call.caller_moniker;
    })

  unfoldable pub call_edges : ProjectIndex interner → RawCall → List ResolvedEdgeIds
  unfolding call_edge resolve_one
  call_edges index call =
      filter_map (call_edge index call)
        (resolve_one interner index call.caller_moniker call.callee_name call.is_member_call)

  -- The body of the loop over the candidates of a structural reference.
  unfoldable pub structural_edge :
      ProjectIndex interner → RawStructuralEdge → ResolutionKind → ℕ → Option ResolvedEdgeIds
  unfolding extractor_of as_str
  structural_edge index s how id = do
    source ← get_id index.interner_state s.source_moniker
    some (record {
      source_id = source;
      target_id = id;
      kind = as_str s.kind;
      resolution_kind = how;
      extractor = extractor_of s.source_moniker;
    })

  unfoldable pub structural_edges_of :
      ProjectIndex interner → RawStructuralEdge → List ResolvedEdgeIds
  unfolding structural_edge structural_kind candidates
  structural_edges_of index s =
      let ids = candidates interner index s.target_name in
      filter_map (structural_edge index s (structural_kind ids)) ids

  unfoldable pub unresolved_call : ProjectIndex interner → RawCall → Option Text
  unfolding resolve_one
  unresolved_call index call =
      if is_empty
        (resolve_one interner index call.caller_moniker call.callee_name call.is_member_call)
      then some call.callee_name
      else none

  unfoldable pub unresolved_structural : ProjectIndex interner → RawStructuralEdge → Option Text
  unfolding candidates
  unresolved_structural index s =
      if is_empty (candidates interner index s.target_name) then some s.target_name else none

  unfoldable pub resolve_ids : ProjectIndex interner → ParsedFile → List ResolvedEdgeIds × List Text
  unfolding call_edges structural_edges_of unresolved_call unresolved_structural sort dedup
  resolve_ids index file = (
    flat_map (call_edges index) file.calls
        ++ flat_map (structural_edges_of index) file.structural_edges,
    dedup (
        sort text_le (
          filter_map (unresolved_call index) file.calls
          ++ filter_map (unresolved_structural index) file.structural_edges)),
  )

  unfoldable pub resolve_file : ProjectIndex interner → ParsedFile → List ResolvedEdge × List Text
  unfolding resolve_ids
  resolve_file index file =
      let (ids, unresolved) = resolve_ids index file in
      (
        map
            (λ e. record {
              source_moniker = resolve index.interner_state e.source_id;
              target_moniker = resolve index.interner_state e.target_id;
              kind = e.kind;
              resolution_kind = e.resolution_kind;
              extractor = e.extractor;
            })
            ids,
        unresolved,
      )
