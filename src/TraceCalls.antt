-- ===== src/TraceCalls.antt =====
-- crates/weave-graph-mcp/src/trace_calls.rs and tools.rs: the chain of callees, and the rendering of
-- both chains within a budget of words.
pub mod Budget
pub mod Outgoing
mod Tests
use weave_graph.Common.{
  decimal, ℕ, zero, suc, ◌+◌, ◌-◌, ◌^◌, max, Text, codes, List, [], ◌∷◌, ◌++◌, map, filter,
  filter_map, take, length, Bool, true, false, not, ◌&&◌, ◌||◌, Option, none, some, ◌==◌, nat_eq,
  list_eq, leb, ltb, if◌then◌else◌,
}
use weave_graph.Model.{Node}
use weave_graph.Bitmap.{Bitmap}
use weave_graph.Graph.{CsrGraph, reachable_within, id_of_index}

-- The bytes of the white-space character at the front: 0 where there is none.
unfoldable pub white_len : Text → ℕ
white_len (a ∷ []) = if a == 32 || (leb 9 a && leb a 13) then 1 else 0
white_len (a ∷ b ∷ []) =
    if a == 32 || (leb 9 a && leb a 13)
    then 1
    else if a == 194 && (b == 133 || b == 160)
    then 2
    else 0
white_len (a ∷ b ∷ c ∷ rest) =
    if a == 32 || (leb 9 a && leb a 13)
    then 1
    else if a == 194 && (b == 133 || b == 160)
    then 2
    else if (a == 225 && b == 154 && c == 128)
        || (a == 226 && b == 128 && ((leb 128 c && leb c 138) || c == 168 || c == 169 || c == 175))
        || (a == 226 && b == 129 && c == 159)
        || (a == 227 && b == 128 && c == 128)
    then 3
    else 0
white_len [] = 0

-- Words that begin in the text, whether one is open, and the bytes to skip of a white space.
unfoldable pub words : Bool → ℕ → Text → ℕ
unfolding white_len
words inside skip [] = 0
words inside (suc skip) (c ∷ text) = words inside skip text
words inside zero (c ∷ text) =
    let gap = white_len (c ∷ text) in
    (if gap == 0 && not inside then 1 else 0) + words (gap == 0) (gap - 1) text

-- `text.split_whitespace().count()`.
unfoldable pub estimate_tokens : Text → ℕ
unfolding words
estimate_tokens text = words false 0 text

unfoldable pub under_budget : Text → Option ℕ → Bool
unfolding estimate_tokens
under_budget text none = true
under_budget text (some limit) = leb (estimate_tokens text) limit

-- `"    → {s}"` and `"    … and {hidden} more"`, with the UTF-8 bytes of the arrow and the dots.
abbrev pub arrow : Text → Text
arrow s = codes "    " ++ 226 ∷ 134 ∷ 146 ∷ codes " " ++ s

abbrev pub more : ℕ → Text
more hidden = codes "    " ++ 226 ∷ 128 ∷ 166 ∷ codes " and " ++ decimal hidden ++ codes " more"

-- The lines of one chain.
unfoldable pub chain_lines : ℕ → Text × List Text → List Text
chain_lines per_chain (label, chain) =
    (codes "  " ++ label ++ codes " (" ++ decimal (length chain) ++ codes "):")
      ∷ map arrow (take per_chain chain)
    ++ (let hidden = length chain - per_chain in if ltb 0 hidden then more hidden ∷ [] else [])

-- `out.join("\n")`.
unfoldable pub join_lines : List Text → Text
join_lines [] = []
join_lines (line ∷ []) = line
join_lines (line ∷ rest) = line ++ 10 ∷ join_lines rest

unfoldable pub render : Text → List Text → List Text → ℕ → Text
unfolding chain_lines join_lines
render symbol outgoing incoming per_chain = join_lines (
    (codes "trace_calls: " ++ symbol) ∷ chain_lines per_chain (codes "outgoing", outgoing)
    ++ chain_lines per_chain (codes "incoming", incoming))

-- `while per_chain > 0 { per_chain -= 1; … }` and the rendering behind it.
unfoldable pub shrink : (ℕ → Text) → ℕ → ℕ → Text
unfolding estimate_tokens
shrink text limit zero = text 0
shrink text limit (suc per_chain) =
    let rest = shrink text limit per_chain in
    if leb (estimate_tokens (text per_chain)) limit then text per_chain else rest

abbrev pub usize_max : ℕ
usize_max = 2 ^ 64 - 1

-- `max_tokens.unwrap_or(0)`.
abbrev pub limit_of : Option ℕ → ℕ
limit_of none = 0
limit_of (some limit) = limit

unfoldable pub render_result : Text → Option ℕ → List Text → List Text → Text
unfolding render shrink under_budget
render_result symbol max_tokens outgoing incoming =
    let full = render symbol outgoing incoming usize_max in
    if under_budget full max_tokens
    then full
    else shrink (render symbol outgoing incoming) (limit_of max_tokens)
        (max (length outgoing) (length incoming))

-- `format!("{} ({}:{})", n.symbol, n.path, n.line_start)`.
unfoldable pub shown : Node → Text
shown n = n.symbol ++ codes " (" ++ n.path ++ codes ":" ++ decimal n.line_start ++ codes ")"

unfoldable pub outgoing_chain : Bitmap → CsrGraph → (ℕ → Option Node) → ℕ → ℕ → List Text
unfolding reachable_within id_of_index shown
outgoing_chain bitmap csr lookup from depth = map shown (
    filter_map lookup (
      filter (λ id. not (id == from))
        (filter_map (id_of_index csr) (bitmap.iter (reachable_within bitmap csr from depth)))))
