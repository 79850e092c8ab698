-- ===== src/Resolve/Tests.antt =====
-- Names resolved and suggested, and the theorems there.
use weave_graph.Common.{ℕ, Text, codes, List, [], ◌∷◌, ◌≤◌, ◌≡◌, refl, nat_eq, list_eq}
use weave_graph.Model.{Node}
use weave_graph.Resolve.{levenshtein, resolve_symbol, resolved, suggestions, format_not_found}
use weave_graph.Resolve.Distance.{Script}
use weave_graph.Resolve.Scripts.{levenshtein_lem}

abbrev node : ℕ → Text → Node
node id symbol = record {
  id = id;
  repo_id = codes "r";
  path = codes "a.rs";
  symbol = symbol;
  kind = codes "function";
  line_start = 1;
  line_end = 2;
  signature = [];
}

abbrev nodes : List Node
nodes = node 1 (codes "Store::load") ∷ node 2 (codes "Graph::load") ∷ node 3 (codes "save") ∷ []

resolves :
    (resolve_symbol nodes (codes "SAVE") ≡ resolved 3)
    × (resolve_symbol nodes (codes "load")
        ≡ suggestions (codes "Store::load" ∷ codes "Graph::load" ∷ []))
    × (resolve_symbol (node 3 (codes "save") ∷ []) (codes "sane") ≡ suggestions (codes "save" ∷ []))
    × (levenshtein (codes "kitten") (codes "sitting") ≡ 3)
unfolding resolve_symbol levenshtein
resolves = (refl, refl, refl, refl)

message :
    format_not_found (codes "sane") (codes "save" ∷ codes "sand" ∷ [])
    ≡ codes "symbol not found: sane (did you mean: save, sand?)"
unfolding format_not_found
message = refl

levenshtein_lem_example :
    Script (levenshtein (codes "kitten") (codes "sitting")) (codes "kitten") (codes "sitting")
    × ((n : ℕ)
        → Script n (codes "kitten") (codes "sitting")
        → levenshtein (codes "kitten") (codes "sitting") ≤ n)
levenshtein_lem_example = levenshtein_lem (codes "kitten") (codes "sitting")
