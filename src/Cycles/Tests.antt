-- ===== src/Cycles/Tests.antt =====
-- A ring of two files that is entered by a third, and the theorems there.
use weave_graph.Common.{
  ℕ, Text, codes, List, [], ◌∷◌, ◌++◌, false, none, some, ◌≡◌, ◌≢◌, inl, refl, sort, dedup, text_le,
  nat_eq, list_eq,
}
use weave_graph.Model.{Node, Edge}
use weave_graph.Cycles.{rotate_canonical, find_cycles}
use weave_graph.Cycles.Found.{IsReport, find_cycles_lem}
use weave_graph.Cycles.Rotation.{rotate_canonical-open}

abbrev node : ℕ → Text → Node
node id path = record {
  id = id;
  repo_id = codes "r";
  path = path;
  symbol = codes "s";
  kind = codes "function";
  line_start = 1;
  line_end = 2;
  signature = [];
}

abbrev edge : ℕ → ℕ → Edge (Unit {0})
edge s t = record {
  id = 1;
  source_id = s;
  target_id = t;
  kind = codes "CALLS_EXACT";
  weight = tt;
  extractor = none;
  resolution_kind = none;
}

abbrev nodes : List Node
nodes = node 1 (codes "a") ∷ node 2 (codes "b") ∷ node 3 (codes "c") ∷ []

cycles :
    (find_cycles nodes (edge 1 3 ∷ edge 3 2 ∷ edge 2 3 ∷ [])
      ≡ some ((codes "b" ∷ codes "c" ∷ codes "c" ∷ []) ∷ []))
    × (find_cycles nodes (edge 3 2 ∷ edge 2 3 ∷ [])
        ≡ some ((codes "b" ∷ codes "c" ∷ codes "b" ∷ []) ∷ []))
    × (find_cycles nodes (edge 1 2 ∷ edge 1 3 ∷ edge 2 3 ∷ []) ≡ some [])
unfolding find_cycles sort dedup
cycles = (refl, refl, refl)

find_cycles_lem_example :
    (reports : List (List Text)) × (find_cycles nodes (edge 1 3 ∷ edge 3 2 ∷ edge 2 3 ∷ [])
      ≡ some reports)
    × IsReport nodes (edge 1 3 ∷ edge 3 2 ∷ edge 2 3 ∷ []) reports
find_cycles_lem_example = find_cycles_lem nodes (edge 1 3 ∷ edge 3 2 ∷ edge 2 3 ∷ [])

lower : text_le (codes "c") (codes "b") ≡ false
lower = refl

rotate_canonical-open_example :
    rotate_canonical (codes "c" ∷ codes "b" ∷ codes "c" ∷ [])
    ≢ codes "b" ∷ (codes "c" ∷ []) ++ codes "b" ∷ []
rotate_canonical-open_example =
    rotate_canonical-open (codes "c") (codes "b" ∷ []) (codes "b") (inl refl) lower (codes "b")
      (codes "c" ∷ [])
