-- ===== src/CrossRepo/Tests.antt =====
-- Two repositories with a file each, and the theorems there.
use weave_graph.Common.{
  Text, codes, List, [], ◌∷◌, In, false, some, ◌≡◌, ◌↔◌, ◌⊎◌, refl, nat_eq, list_eq,
}
use weave_graph.Interner.Listed.{listed}
use weave_graph.ProjectIndex.{ProjectIndex, Target, new, ambiguous_heuristic}
use weave_graph.ProjectIndex.Candidates.{Indexes, monikers}
use weave_graph.ProjectIndex.References.{targets}
use weave_graph.FileEdges.{RawCall, RawStructuralEdge, WiringCard, ParsedFile, imports, flat_map}
use weave_graph.CrossRepo.{short_name_of, add_file, resolve_cross_repo}
use weave_graph.CrossRepo.Files.{IsShortName, named_symbols, add_files, add_files-Indexes}
use weave_graph.CrossRepo.Fallback.{across_call, across_structural, resolve_cross_repo_iff}

names :
    (short_name_of (codes "Bar::baz") ≡ codes "baz")
    × (short_name_of (codes "a:::b") ≡ codes "b")
    × (short_name_of (codes "Bar.baz") ≡ codes "Bar.baz")
    × (short_name_of (codes "Bar::") ≡ [])
unfolding short_name_of
names = (refl, refl, refl, refl)

abbrev card : Text → Text → WiringCard
card moniker symbol = record {
  moniker = moniker;
  symbol = symbol;
  kind = codes "function";
  line_start = 1;
  line_end = 2;
  signature = [];
}

abbrev call : Text → RawCall
call callee = record {
  caller_moniker = codes "a.rs#f";
  callee_name = callee;
  is_member_call = false;
}

abbrev file : ParsedFile
file = record {
  symbols = card (codes "a.rs#f") (codes "f") ∷ [];
  calls = call (codes "f") ∷ call (codes "g") ∷ [];
  structural_edges =
      record { source_moniker = codes "a.rs#f"; target_name = codes "g"; kind = imports } ∷ [];
}

abbrev other_file : ParsedFile
other_file = record {
  symbols = card (codes "b.rs#S::g") (codes "S::g") ∷ card (codes "b.rs#f") (codes "f") ∷ [];
  calls = [];
  structural_edges = [];
}

abbrev own : ProjectIndex listed
own = add_files listed (new listed) (file ∷ [])

abbrev fallback : ProjectIndex listed
fallback = add_files listed (new listed) (other_file ∷ [])

crosses :
    resolve_cross_repo listed own file fallback
    ≡ record {
      source_moniker = codes "a.rs#f";
      target_moniker = codes "b.rs#S::g";
      kind = codes "CALLS_EXACT";
      resolution_kind = ambiguous_heuristic;
      extractor = some (codes "rust");
    }
      ∷ record {
        source_moniker = codes "a.rs#f";
        target_moniker = codes "b.rs#S::g";
        kind = codes "IMPORTS";
        resolution_kind = ambiguous_heuristic;
        extractor = some (codes "rust");
      }
      ∷ []
unfolding resolve_cross_repo add_file new weave_graph.Interner.Listed.adds
    weave_graph.Interner.Listed.position
crosses = refl

add_files-Indexes_example :
    Indexes listed
      (add_files listed (new listed) (other_file ∷ file ∷ []))
      (flat_map named_symbols (other_file ∷ file ∷ []))
    × ((symbol : Text) → IsShortName symbol (short_name_of symbol))
add_files-Indexes_example = add_files-Indexes listed (other_file ∷ file ∷ [])

abbrev symbols : List (Text × Text)
symbols = flat_map named_symbols (file ∷ [])

abbrev others : List (Text × Text)
others = flat_map named_symbols (other_file ∷ [])

resolve_cross_repo_iff_example :
    In
      (across_call (call (codes "g")) (codes "b.rs#S::g", codes "CALLS_EXACT", ambiguous_heuristic))
      (resolve_cross_repo listed own file fallback)
    ↔ (((c : RawCall) × In c file.calls
          × (monikers c.callee_name symbols ≡ [])
          × ((t : Target) × In t (targets others c.caller_moniker c.callee_name c.is_member_call)
              × (across_call
                    (call (codes "g"))
                    (codes "b.rs#S::g", codes "CALLS_EXACT", ambiguous_heuristic)
                  ≡ across_call c t)))
        ⊎ ((s : RawStructuralEdge) × In s file.structural_edges
            × (monikers s.target_name symbols ≡ [])
            × ((m : Text) × In m (monikers s.target_name others)
                × (across_call
                      (call (codes "g"))
                      (codes "b.rs#S::g", codes "CALLS_EXACT", ambiguous_heuristic)
                    ≡ across_structural s m))))
resolve_cross_repo_iff_example =
    resolve_cross_repo_iff listed own fallback symbols others
      (add_files-Indexes listed (file ∷ [])).0 (add_files-Indexes listed (other_file ∷ [])).0 file
      (across_call (call (codes "g")) (codes "b.rs#S::g", codes "CALLS_EXACT", ambiguous_heuristic))
