-- ===== src/Resolve.antt =====
-- crates/weave-graph-core/src/resolve.rs: resolution of symbol names, with suggestions.
pub mod Distance
pub mod Table
pub mod Scripts
pub mod Fallback
mod Tests
use weave_graph.Common.{
  ℕ, zero, suc, set, replicate, is_empty, ◌+◌, min, Text, codes, List, [], ◌∷◌, ◌++◌, map, filter,
  find, take, length, get_or, Bool, true, false, ◌||◌, Option, none, some, ◌==◌, nat_eq, list_eq,
  leb, if◌then◌else◌, ends_with, to_ascii_lowercase, text_le, sort,
}
use weave_graph.Model.{Node}

-- `Ok(id)`, or `Err` with candidate names.
pub data Resolution : Type 0 where
  resolved : ℕ → Resolution
  suggestions : List Text → Resolution

abbrev pub max_suggestions : ℕ
max_suggestions = 5

abbrev pub id_of : Option Node → Option ℕ
id_of none = none
id_of (some n) = some n.id

unfoldable pub exact_match : List Node → Text → Option ℕ
exact_match nodes symbol = id_of (find (λ n. n.symbol == symbol) nodes)

unfoldable pub case_insensitive_match : List Node → Text → Option ℕ
case_insensitive_match nodes symbol =
    id_of (find (λ n. to_ascii_lowercase n.symbol == to_ascii_lowercase symbol) nodes)

unfoldable pub has_short_name : Text → Node → Bool
has_short_name short_name n =
    n.symbol == short_name || ends_with n.symbol (codes "::" ++ short_name)

unfoldable pub short_name_matches : List Node → Text → List Node
unfolding has_short_name
short_name_matches nodes short_name = filter (has_short_name short_name) nodes

-- The loop over `b` from column `j` on, which fills `curr` from the row above.
unfoldable pub fill_row : ℕ → ℕ → Text → List ℕ → List ℕ → List ℕ
fill_row ac j [] prev curr = curr
fill_row ac j (bc ∷ b) prev curr =
    let cell =
      if ac == bc
      then get_or prev j 0
      else 1 + min (min (get_or prev j 0) (get_or prev (j + 1) 0)) (get_or curr j 0) in
    fill_row ac (j + 1) b prev (set curr (j + 1) cell)

-- The loop over `a` from row `i` on. The swap makes `curr` the next row above.
unfoldable pub fill_table : ℕ → Text → Text → List ℕ → List ℕ → List ℕ
unfolding fill_row
fill_table i [] b prev curr = prev
fill_table i (ac ∷ a) b prev curr =
    fill_table (i + 1) a b (fill_row ac 0 b prev (set curr 0 (i + 1))) prev

-- `(from..from + count).collect()`.
unfoldable pub counting : ℕ → ℕ → List ℕ
counting from zero = []
counting from (suc count) = from ∷ counting (from + 1) count

unfoldable pub levenshtein : Text → Text → ℕ
unfolding fill_table counting
levenshtein a b =
    get_or (fill_table 0 a b (counting 0 (length b + 1)) (replicate (length b + 1) 0)) (length b) 0

abbrev pub distance_to : Text → Node → ℕ
distance_to symbol n = levenshtein (to_ascii_lowercase n.symbol) (to_ascii_lowercase symbol)

-- `a_dist.cmp(b_dist).then_with(|| a.symbol.cmp(&b.symbol))`, as a test of at most.
unfoldable pub ranked_le : Node × ℕ → Node × ℕ → Bool
ranked_le a b = if a.1 == b.1 then text_le a.0.symbol b.0.symbol else leb a.1 b.1

unfoldable pub ranked : List Node → Text → List (Node × ℕ)
unfolding levenshtein ranked_le sort
ranked nodes symbol = sort ranked_le (map (λ n. (n, distance_to symbol n)) nodes)

-- The part behind the two exact matches: the `match` on the short-name matches.
unfoldable pub fall_back : List Node → Text → List Node → Resolution
unfolding ranked
fall_back nodes symbol [] =
    suggestions (map (λ r. r.0.symbol) (take max_suggestions (ranked nodes symbol)))
fall_back nodes symbol (single ∷ []) = resolved single.id
fall_back nodes symbol (a ∷ b ∷ multiple) = suggestions (map (λ n. n.symbol) (a ∷ b ∷ multiple))

unfoldable pub resolve_symbol : List Node → Text → Resolution
unfolding exact_match case_insensitive_match fall_back short_name_matches
resolve_symbol nodes symbol = elim (exact_match nodes symbol) [
  | some id ↦ resolved id
  | none ↦ elim (case_insensitive_match nodes symbol) [
    | some id ↦ resolved id
    | none ↦ fall_back nodes symbol (short_name_matches nodes symbol)
  ]
]

-- `suggestions.join(", ")`.
unfoldable pub join : List Text → Text
join [] = []
join (s ∷ []) = s
join (s ∷ rest) = s ++ codes ", " ++ join rest

unfoldable pub format_not_found : Text → List Text → Text
unfolding join
format_not_found symbol names =
    codes "symbol not found: "
    ++ symbol
    ++ (if is_empty names then [] else codes " (did you mean: " ++ join names ++ codes "?)")
