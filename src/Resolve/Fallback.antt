-- ===== src/Resolve/Fallback.antt =====
-- What `resolve_symbol` returns: the order of its fallbacks, and which names it suggests.
use weave_graph.Common.{
  ◌≤◌, Text, List, [], ◌∷◌, map, length, In, true, ◌≡◌, ◌⊎◌, nat_eq, list_eq, to_ascii_lowercase,
}
use weave_graph.Model.{Node}
use weave_graph.Resolve.{
  Resolution, resolved, suggestions, has_short_name, short_name_matches, distance_to,
}

module _ (nodes : List Node) (symbol : Text) where
  abbrev pub Exact : Node → Type 0
  Exact n = n.symbol ≡ symbol

  abbrev pub Folded : Node → Type 0
  Folded n = to_ascii_lowercase n.symbol ≡ to_ascii_lowercase symbol

  abbrev pub Short : Node → Type 0
  Short n = has_short_name symbol n ≡ true

  abbrev pub NoNode : (Node → Type 0) → Type 0
  NoNode P = (n : Node) → In n nodes → ¬ P n

  -- At most five names of nodes, and no node whose name is left out is nearer than one suggested.
  abbrev pub Nearest : List Text → Type 0
  Nearest names =
      (length names ≤ 5)
      × ((name : Text)
          → In name names
          → (n : Node) × In n nodes
            × (name ≡ n.symbol)
            × ((m : Node)
                → In m nodes
                → In m.symbol names ⊎ (distance_to symbol n ≤ distance_to symbol m)))

  abbrev pub Explained : Resolution → Type 0
  Explained (resolved id) =
      (n : Node) × In n nodes
      × (id ≡ n.id)
      × (Exact n
          ⊎ (NoNode Exact × Folded n)
          ⊎ (NoNode Exact × NoNode Folded × (short_name_matches nodes symbol ≡ n ∷ [])))
  Explained (suggestions names) =
      NoNode Exact
      × NoNode Folded
      × (((2 ≤ length (short_name_matches nodes symbol))
            × (names ≡ map (λ n. n.symbol) (short_name_matches nodes symbol)))
          ⊎ (NoNode Short × Nearest names))
