-- ===== src/Cycles.antt =====
-- crates/weave-graph-core/src/policy.rs: `find_cycles`, the search for dependency cycles between
-- files. The depth of the recursion is fuel.
pub mod Walks
pub mod Total
pub mod Rings
pub mod Order
pub mod Arcs
pub mod Found
pub mod Rotation
mod Tests
use weave_graph.Common.{
  ℕ, zero, suc, ◌+◌, Text, List, [], ◌∷◌, ◌++◌, map, filter_map, take, drop, length, Bool, true,
  false, not, Option, none, some, ◌>>=◌, ◌==◌, nat_eq, list_eq, if◌then◌else◌, lookup, put, text_le,
  sort, dedup,
}
use weave_graph.Model.{Node, Edge}
use weave_graph.Policy.{path_of}

abbrev pub Arc : Type 0
Arc = Text × Text

-- The files of the two ends of an edge, where both are known and differ.
unfoldable pub arc_of : {W : Type 0} → List (ℕ × Text) → Edge W → Option Arc
arc_of file_of edge = lookup file_of edge.source_id >>= λ a.
    lookup file_of edge.target_id >>= λ b. if a == b then none else some (a, b)

unfoldable pub arcs_of : {W : Type 0} → List Node → List (Edge W) → List Arc
unfolding arc_of path_of
arcs_of nodes edges = filter_map (arc_of (path_of nodes)) edges

-- The `BTreeMap` of `BTreeSet`s: its keys, and the set of a key.
unfoldable pub sources : List Arc → List Text
sources arcs = dedup (sort text_le (map (λ arc. arc.0) arcs))

unfoldable pub targets : List Arc → Text → List Text
targets arcs file =
    dedup (sort text_le (filter_map (λ arc. if arc.0 == file then some arc.1 else none) arcs))

pub record Search : Type 0 where
  pub color : List (Text × ℕ)
  pub stack : List Text
  pub found : List (List Text)

abbrev pub color_of : Search → Text → ℕ
color_of s file = elim (lookup s.color file) [ none ↦ 0 | some c ↦ c ]

-- `stack.iter().position(..).unwrap_or(0)`, and the stack from there on.
abbrev pub from_file : Text → List Text → List Text
from_file file [] = []
from_file file (f ∷ stack) = if f == file then f ∷ stack else from_file file stack

abbrev pub ring : Text → List Text → List Text
ring file stack = elim (from_file file stack) [ [] ↦ stack | f ∷ rest ↦ f ∷ rest ] ++ file ∷ []

abbrev pub close : Text → Search → Search
close file s = record s { found = s.found ++ ring file s.stack ∷ [] }

abbrev pub enter : Text → Search → Search
enter file s = record s { color = put s.color file 1; stack = s.stack ++ file ∷ [] }

-- `stack.pop()`.
abbrev pub pop : List Text → List Text
pop [] = []
pop (f ∷ []) = []
pop (f ∷ g ∷ stack) = f ∷ pop (g ∷ stack)

abbrev pub leave : Text → Search → Search
leave file s = record s { color = put s.color file 2; stack = pop s.stack }

unfoldable pub visit_all : (Text → Search → Option Search) → List Text → Search → Option Search
visit_all visit [] s = some s
visit_all visit (file ∷ files) s = visit file s >>= visit_all visit files

unfoldable pub dfs_cycle : (Text → List Text) → ℕ → Text → Search → Option Search
unfolding visit_all
dfs_cycle next zero file s = none
dfs_cycle next (suc fuel) file s =
    let deeper = visit_all (dfs_cycle next fuel) (next file) (enter file s) in
    let done = deeper >>= λ after. some (leave file after) in
    if color_of s file == 1
    then some (close file s)
    else if color_of s file == 2
    then some s
    else done

-- The lexicographic order of the found cycles in their `BTreeSet`.
abbrev pub cycle_le : List Text → List Text → Bool
cycle_le [] ys = true
cycle_le (x ∷ xs) [] = false
cycle_le (x ∷ xs) (y ∷ ys) = if x == y then cycle_le xs ys else text_le x y

-- The place of the first smallest file, with the best one so far and its place.
abbrev pub min_from : Text → ℕ → ℕ → List Text → ℕ
min_from best place i [] = place
min_from best place i (f ∷ files) =
    if text_le best f then min_from best place (i + 1) files else min_from f i (i + 1) files

abbrev pub min_pos : List Text → ℕ
min_pos [] = 0
min_pos (f ∷ files) = min_from f 0 1 files

unfoldable pub rotate_canonical : List Text → List Text
rotate_canonical cycle = drop (min_pos cycle) cycle ++ take (min_pos cycle) cycle

-- Every file of the graph.
abbrev pub files_of : List Arc → List Text
files_of arcs = map (λ arc. arc.0) arcs ++ map (λ arc. arc.1) arcs

unfoldable pub search_all : List Arc → Option Search
unfolding dfs_cycle sources targets
search_all arcs =
    visit_all (dfs_cycle (targets arcs) (suc (length (files_of arcs)))) (sources arcs)
      (record { color = []; stack = []; found = [] })

unfoldable pub find_cycles : {W : Type 0} → List Node → List (Edge W) → Option (List (List Text))
unfolding search_all arcs_of rotate_canonical
find_cycles nodes edges = search_all (arcs_of nodes edges) >>= λ s.
    some (map rotate_canonical (dedup (sort cycle_le s.found)))
