-- ===== src/ProjectIndex/Tests.antt =====
-- A project with a name in two files, and the theorems there.
use weave_graph.Common.{Text, codes, List, [], ◌∷◌, false, ◌≡◌, refl, nat_eq, list_eq}
use weave_graph.Interner.Listed.{listed}
use weave_graph.ProjectIndex.{
  ProjectIndex, new, add_symbol, resolve_one, same_file_exact, unique_global_exact,
  ambiguous_heuristic,
}

abbrev added : ProjectIndex listed → Text → Text → ProjectIndex listed
added index moniker short = (add_symbol listed index moniker short).0

abbrev one : ProjectIndex listed
one = added (new listed) (codes "a.rs#S::f") (codes "f")

abbrev two : ProjectIndex listed
two = added one (codes "b.rs#f") (codes "f")

abbrev symbols : List (Text × Text)
symbols = (codes "a.rs#S::f", codes "f") ∷ (codes "b.rs#f", codes "f") ∷ []

resolves :
    (resolve_one listed two (codes "b.rs#g") (codes "f") false
      ≡ (codes "b.rs#f", codes "CALLS_EXACT", same_file_exact) ∷ [])
    × (resolve_one listed one (codes "b.rs#g") (codes "f") false
        ≡ (codes "a.rs#S::f", codes "CALLS_EXACT", unique_global_exact) ∷ [])
    × (resolve_one listed two (codes "c.rs#g") (codes "f") false
        ≡ (codes "a.rs#S::f", codes "CALLS_DYNAMIC", ambiguous_heuristic)
          ∷ (codes "b.rs#f", codes "CALLS_DYNAMIC", ambiguous_heuristic)
          ∷ [])
    × (resolve_one listed two (codes "c.rs#g") (codes "h") false ≡ [])
unfolding resolve_one add_symbol new weave_graph.Interner.Listed.adds
    weave_graph.Interner.Listed.position
resolves = (refl, refl, refl, refl)
