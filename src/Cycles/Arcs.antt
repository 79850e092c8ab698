-- ===== src/Cycles/Arcs.antt =====
-- The file graph of the search, against the edges that it is built from.
use weave_graph.Common.{
  ℕ, Text, List, map, filter_map, In, In-append, map-In, In-filter_map, filter_map-In, false,
  Bool-cases, none, some, Option-cases, ◌≡◌, ◌≢◌, ◌↔◌, inl, inr, refl, sym, ap, ◌∙◌, subst, arith,
  ◌==◌, ==_iff, ==_refl, nat_eq, list_eq, if◌then◌else◌, lookup, sort, In-sort, In-dedup, text_le,
}
use weave_graph.Model.{Node, Edge}
use weave_graph.Policy.{path_of}
use weave_graph.Policy.Paths.{HasPath, path_of_iff}
use weave_graph.Cycles.{Arc, arc_of, arcs_of, sources, targets, files_of}

-- An edge leads from one file to another one.
abbrev pub Depends : {W : Type 0} → List Node → List (Edge W) → Text → Text → Type 0
Depends {W} nodes edges a b =
    (a ≢ b)
    × (edge : Edge W) × In edge edges
    × HasPath nodes edge.source_id a
    × HasPath nodes edge.target_id b

module _ {W : Type 0} (file_of : List (ℕ × Text)) where
  arc_of-some :
      (edge : Edge W) (a b : Text)
      → arc_of file_of edge ≡ some (a, b)
      → (a ≢ b)
        × (lookup file_of edge.source_id ≡ some a)
        × (lookup file_of edge.target_id ≡ some b)
  unfolding arc_of
  arc_of-some edge a b e = elim (Option-cases (lookup file_of edge.source_id)) [
    | inl n ↦ let q : none ≡ some (a, b) = rw n at e in absurd (cc q)
    | inr (c, n) ↦ elim (Option-cases (lookup file_of edge.target_id)) [
      | inl k ↦ let q : none ≡ some (a, b) = rw (n, k) at e in absurd (cc q)
      | inr (d, k) ↦ elim (Bool-cases (c == d)) [
        | inl t ↦ let q : none ≡ some (a, b) = rw (n, k, t) at e in absurd (cc q)
        | inr f ↦
            let q : some (c, d) ≡ some (a, b) = rw (n, k, f) at e in
            let left : c ≡ a = cc q in
            let right : d ≡ b = cc q in
            (
              λ same.
                  let equal : c ≡ d = left ∙ same ∙ sym right in
                  absurd (cc (f, (==_iff c d).1 equal)),
              n ∙ ap some left,
              k ∙ ap some right,
            )
      ]
    ]
  ]

  some-arc_of :
      (edge : Edge W) (a b : Text)
      → a ≢ b
      → lookup file_of edge.source_id ≡ some a
      → lookup file_of edge.target_id ≡ some b
      → arc_of file_of edge ≡ some (a, b)
  unfolding arc_of
  some-arc_of edge a b differ n k =
      let other : (a == b) ≡ false = ground (arith, ==_iff a b) in rw (n, k, other) refl

picked :
    (arc : Arc) (a b : Text) → (if arc.0 == a then some arc.1 else none) ≡ some b → (a, b) ≡ arc
picked (c, d) a b e = elim (Bool-cases (c == a)) [
  | inl t ↦
      let q : some d ≡ some b = rw t at e in
      let right : d ≡ b = cc q in cc ((==_iff c a).0 t, right)
  | inr f ↦ let q : none ≡ some b = rw f at e in absurd (cc q)
]

module _ (arcs : List Arc) where
  pub In-targets : (a b : Text) → In b (targets arcs a) ↔ In (a, b) arcs
  unfolding targets
  In-targets a b =
      let pick = λ (arc : Arc). if arc.0 == a then some arc.1 else none in
      let listed = filter_map pick arcs in
      (
        λ m.
            let (arc, n, e) =
              In-filter_map pick arcs b
                ((In-sort text_le b listed).0 ((In-dedup b (sort text_le listed)).0 m)) in
            subst (λ x. In x arcs) (sym (picked arc a b e)) n,
        λ m. (In-dedup b (sort text_le listed)).1 (
            (In-sort text_le b listed).1
              (filter_map-In pick arcs (a, b) b m (rw (==_refl a) refl))),
      )

  pub In-sources : (a : Text) → In a (sources arcs) ↔ In a (map (λ arc. arc.0) arcs)
  unfolding sources
  In-sources a =
      let listed = map (λ (arc : Arc). arc.0) arcs in
      (
        λ m. (In-sort text_le a listed).0 ((In-dedup a (sort text_le listed)).0 m),
        λ m. (In-dedup a (sort text_le listed)).1 ((In-sort text_le a listed).1 m),
      )

  pub sources-inside : (a : Text) → In a (sources arcs) → In a (files_of arcs)
  sources-inside a m =
      (In-append a (map (λ arc. arc.0) arcs) (map (λ arc. arc.1) arcs)).1 (inl ((In-sources a).0 m))

  pub targets-inside : (a b : Text) → In b (targets arcs a) → In b (files_of arcs)
  targets-inside a b m =
      (In-append b (map (λ arc. arc.0) arcs) (map (λ arc. arc.1) arcs)).1
        (inr (map-In (λ arc. arc.1) arcs (a, b) ((In-targets a b).0 m)))

  pub targets-source : (a b : Text) → In b (targets arcs a) → In a (sources arcs)
  targets-source a b m = (In-sources a).1 (map-In (λ arc. arc.0) arcs (a, b) ((In-targets a b).0 m))

module _ {W : Type 0} (nodes : List Node) (edges : List (Edge W)) where
  pub targets-Depends :
      (a b : Text) → In b (targets (arcs_of nodes edges) a) ↔ Depends nodes edges a b
  unfolding arcs_of
  targets-Depends a b = (
    λ m.
        let (edge, n, e) =
          In-filter_map (arc_of (path_of nodes)) edges (a, b)
            ((In-targets (arcs_of nodes edges) a b).0 m) in
        let (differ, s, t) = arc_of-some (path_of nodes) edge a b e in
        (
          differ,
          edge,
          n,
          (path_of_iff nodes edge.source_id a).0 s,
          (path_of_iff nodes edge.target_id b).0 t,
        ),
    λ (differ, edge, n, s, t). (In-targets (arcs_of nodes edges) a b).1 (
        filter_map-In (arc_of (path_of nodes)) edges edge (a, b) n
          (some-arc_of (path_of nodes) edge a b differ ((path_of_iff nodes edge.source_id a).1 s)
            ((path_of_iff nodes edge.target_id b).1 t))),
  )
