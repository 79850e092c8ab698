-- ===== src/FileEdges/Tests.antt =====
-- A file with a call and a reference to nothing, and the theorems there.
use weave_graph.Common.{
  Text, codes, List, [], ◌∷◌, In, false, some, ◌≡◌, ◌↔◌, ◌⊎◌, refl, nat_eq, list_eq,
}
use weave_graph.Interner.Listed.{listed}
use weave_graph.ProjectIndex.{ProjectIndex, new, add_symbol, same_file_exact}
use weave_graph.ProjectIndex.Candidates.{Indexes, new-Indexes, add_symbol-Indexes, monikers}
use weave_graph.FileEdges.{
  RawCall, RawStructuralEdge, ParsedFile, ResolvedEdgeIds, imports, resolve_ids,
}
use weave_graph.FileEdges.Unresolved.{unresolved_iff}
use weave_graph.FileEdges.Edges.{FromCall, FromStructural, resolve_ids_iff}

abbrev index : ProjectIndex listed
index = (add_symbol listed (new listed) (codes "a.rs#f") (codes "f")).0

abbrev symbols : List (Text × Text)
symbols = (codes "a.rs#f", codes "f") ∷ []

index-Indexes : Indexes listed index symbols
index-Indexes =
    add_symbol-Indexes listed (new listed) [] (codes "a.rs#f") (codes "f") (new-Indexes listed)

abbrev call : RawCall
call = record { caller_moniker = codes "a.rs#f"; callee_name = codes "f"; is_member_call = false }

abbrev reference : RawStructuralEdge
reference = record { source_moniker = codes "a.rs#f"; target_name = codes "g"; kind = imports }

abbrev file : ParsedFile
file = record { symbols = []; calls = call ∷ []; structural_edges = reference ∷ [] }

abbrev edge : ResolvedEdgeIds
edge = record {
  source_id = 1;
  target_id = 1;
  kind = codes "CALLS_EXACT";
  resolution_kind = same_file_exact;
  extractor = some (codes "rust");
}

edges : resolve_ids listed index file ≡ (edge ∷ [], codes "g" ∷ [])
unfolding resolve_ids add_symbol new weave_graph.Interner.Listed.adds
    weave_graph.Interner.Listed.position
edges = refl

unresolved_iff_example : In (codes "g") (resolve_ids listed index file).1 ↔ (
    (monikers (codes "g") symbols ≡ [])
    × (((c : RawCall) × In c (call ∷ []) × (c.callee_name ≡ codes "g"))
        ⊎ ((s : RawStructuralEdge) × In s (reference ∷ []) × (s.target_name ≡ codes "g"))))
unresolved_iff_example = unresolved_iff listed index symbols index-Indexes file (codes "g")

resolve_ids_iff_example : In edge (resolve_ids listed index file).0 ↔ (
    ((c : RawCall) × In c (call ∷ []) × FromCall listed index symbols index-Indexes c edge)
    ⊎ ((s : RawStructuralEdge) × In s (reference ∷ [])
        × FromStructural listed index symbols index-Indexes s edge))
resolve_ids_iff_example = resolve_ids_iff listed index symbols index-Indexes file edge
