-- ===== src/Policy/Orphans.antt =====
-- Which files are orphans.
use weave_graph.Common.{
  Text, List, map, In, In-filter, In-map, map-In, In-filter_map, filter_map-In, contains,
  contains_iff, not, true, Bool, Option, none, some, ◌≡◌, refl, sym, ◌↔◌, subst, arith, lookup,
  nat_eq, list_eq, ==_iff, sort, In-sort, dedup, In-dedup, text_le,
}
use weave_graph.Model.{Node, Edge}
use weave_graph.Policy.Paths.{HasPath, path_of_iff}
use weave_graph.Policy.{path_of, entered, targeted, orphan_files}

entered_iff :
    (s t : Option Text) (file : Text)
    → (entered s t ≡ some file) ↔ ((p : Text) × (s ≡ some p) × (t ≡ some file) × (¬ (p ≡ file)))
unfolding entered
entered_iff none t file = (λ h. cc, λ (p, h, k, l). cc)
entered_iff (some p) none file = (λ h. cc, λ (q, h, k, l). cc)
entered_iff (some p) (some q) file = (
  λ h. (p, refl, ground (arith, ==_iff p q), ground (arith, ==_iff p q)),
  λ (p', h, k, l). ground (arith, ==_iff p q),
)

module _ {Weight : Type 0} (nodes : List Node) (edges : List (Edge Weight)) where
  -- An edge from another file leads into the file.
  abbrev pub Enters : Text → Type 0
  Enters file =
      (e : Edge Weight) × (p : Text) × In e edges
      × HasPath nodes e.source_id p
      × HasPath nodes e.target_id file
      × (¬ (p ≡ file))

  targeted_iff : (file : Text) → In file (targeted nodes edges) ↔ Enters file
  unfolding targeted
  targeted_iff file =
      let into : Edge Weight → Option Text =
        λ e. entered (lookup (path_of nodes) e.source_id) (lookup (path_of nodes) e.target_id) in
      (
        λ m.
            let (e, k, h) = In-filter_map into edges file m in
            let (p, s, t, d) = (entered_iff _ _ file).0 h in
            (
              e,
              p,
              k,
              (path_of_iff nodes e.source_id p).0 s,
              (path_of_iff nodes e.target_id file).0 t,
              d,
            ),
        λ (e, p, k, s, t, d). filter_map-In into edges e file k (
            (entered_iff _ _ file).1 (
              p,
              (path_of_iff nodes e.source_id p).1 s,
              (path_of_iff nodes e.target_id file).1 t,
              d,
            )),
      )

-- The orphan files are those that have a node and that no edge from another file leads into. An
-- edge counts when both of its ends are nodes.
pub orphan_files_iff :
    {Weight : Type 0} (nodes : List Node) (edges : List (Edge Weight)) (file : Text)
    → In file (orphan_files nodes edges)
      ↔ (((n : Node) × In n nodes × (file ≡ n.path)) × (¬ Enters nodes edges file))
unfolding orphan_files
orphan_files_iff nodes edges file =
    let paths = map (λ n. n.path) nodes in
    let free : Text → Bool = λ f. not (contains (targeted nodes edges) f) in
    (
      λ m.
          let (k, h) = (In-filter free file (dedup (sort text_le paths))).0 m in
          (
            In-map (λ n. n.path) nodes file
                ((In-sort text_le file paths).0 ((In-dedup file (sort text_le paths)).0 k)),
            λ e. ground (
              arith,
              contains_iff (targeted nodes edges) file,
              (targeted_iff nodes edges file).1 e,
            ),
          ),
      λ ((n, k, e), h).
          let listed : In file paths =
            subst (λ f. In f paths) (sym e) (map-In (λ n. n.path) nodes n k) in
          let kept : free file ≡ true =
            ground (
              arith,
              contains_iff (targeted nodes edges) file,
              (targeted_iff nodes edges file).0,
            ) in
          (In-filter free file (dedup (sort text_le paths))).1
            ((In-dedup file (sort text_le paths)).1 ((In-sort text_le file paths).1 listed), kept),
    )
