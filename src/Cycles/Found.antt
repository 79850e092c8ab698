-- ===== src/Cycles/Found.antt =====
-- `find_cycles` as a whole: it ends, each report is a rotated cycle of the files' dependencies, and
-- there is none exactly when no file depends on itself through others.
use weave_graph.Common.{
  suc, Text, List, [], ◌∷◌, ◌++◌, map, In, In-map, map-In, some, ◌>>=◌, ◌≡◌, ◌↔◌, inl, refl, ap,
  ◌∙◌, subst, nat_eq, list_eq, sort, In-sort, dedup, In-dedup, length,
}
use weave_graph.Model.{Node, Edge}
use weave_graph.Cycles.{
  Search, arcs_of, sources, targets, cycle_le, rotate_canonical, files_of, search_all, find_cycles,
}
use weave_graph.Cycles.Walks.{IsWalk, IsRing}
use weave_graph.Cycles.Total.{search-Ends}
use weave_graph.Cycles.Rings.{search-IsSound}
use weave_graph.Cycles.Order.{search-no_ring}
use weave_graph.Cycles.Arcs.{
  Depends, targets-Depends, sources-inside, targets-inside, targets-source,
}

-- Each file depends on the one after it.
abbrev pub IsTrail : (Text → Text → Type 0) → List Text → Type 0
IsTrail R [] = Unit
IsTrail R (x ∷ []) = Unit
IsTrail R (x ∷ y ∷ rest) = R x y × IsTrail R (y ∷ rest)

module _ (next : Text → List Text) (R : Text → Text → Type 0)
    (arc : (a b : Text) → In b (next a) ↔ R a b) where
  IsWalk-IsTrail : (files : List Text) → IsWalk next files ↔ IsTrail R files
  IsWalk-IsTrail [] = (λ h. h, λ h. h)
  IsWalk-IsTrail (x ∷ []) = (λ h. h, λ h. h)
  IsWalk-IsTrail (x ∷ y ∷ rest) =
      let (there, back) = IsWalk-IsTrail (y ∷ rest) in
      (λ (m, w). ((arc x y).0 m, there w), λ (m, w). ((arc x y).1 m, back w))

-- A walk that goes on from its first file starts in it.
starts_in :
    (next : Text → List Text) (sources : List Text)
    → ((a b : Text) → In b (next a) → In a sources)
    → (a : Text) (between : List Text) (b : Text) → IsWalk next (a ∷ between ++ b ∷ [])
    → In a sources
starts_in next sources h a [] b w = h a b w.0
starts_in next sources h a (c ∷ between) b w = h a c w.0

-- Without an element in the one list there is none in the other.
empty_of :
    {A B : Type 0} (f : A → B) (xs : List A) (ys : List A)
    → ((x : A) → In x ys → In x xs)
    → map f xs ≡ []
    → ys ≡ []
empty_of f xs [] h e = refl
empty_of f xs (y ∷ ys) h e = absurd (subst (In (f y)) e (map-In f xs y (h y (inl refl))))

no_element : {A : Type 0} (xs : List A) → ((x : A) → ¬ In x xs) → xs ≡ []
no_element [] h = refl
no_element (x ∷ xs) h = absurd (h x (inl refl))

module _ {W : Type 0} (nodes : List Node) (edges : List (Edge W)) where
  -- A way from a file back to it, along the dependencies.
  abbrev pub Circle : Text → List Text → Type 0
  Circle file between = IsTrail (Depends nodes edges) (file ∷ between ++ file ∷ [])

  next_Circle :
      (file : Text) (between : List Text)
      → IsWalk (targets (arcs_of nodes edges)) (file ∷ between ++ file ∷ []) ↔ Circle file between
  next_Circle file between =
      IsWalk-IsTrail (targets (arcs_of nodes edges)) (Depends nodes edges)
        (targets-Depends nodes edges) (file ∷ between ++ file ∷ [])

  search_all-ends : (s : Search) × (search_all (arcs_of nodes edges) ≡ some s)
  unfolding search_all
  search_all-ends =
      let arcs = arcs_of nodes edges in
      search-Ends (targets arcs) (files_of arcs) (targets-inside arcs) (sources arcs)
        (record { color = []; stack = []; found = [] }) (sources-inside arcs)

  search_all-rings :
      (s : Search)
      → search_all (arcs_of nodes edges) ≡ some s
      → (cycle : List Text) → In cycle s.found
      → IsRing (targets (arcs_of nodes edges)) cycle
  unfolding search_all
  search_all-rings s e =
      let arcs = arcs_of nodes edges in
      (search-IsSound (targets arcs) (suc (length (files_of arcs))) (sources arcs) s e).rings

  search_all-Circle :
      (s : Search)
      → search_all (arcs_of nodes edges) ≡ some s
      → s.found ≡ []
      → (file : Text) (between : List Text) → ¬ (Circle file between)
  unfolding search_all
  search_all-Circle s e empty file between circle =
      let arcs = arcs_of nodes edges in
      let w = (next_Circle file between).1 circle in
      search-no_ring (targets arcs) (suc (length (files_of arcs))) (sources arcs) s e empty file
        between (starts_in (targets arcs) (sources arcs) (targets-source arcs) file between file w)
        w

  -- What a list of reports promises.
  abbrev pub IsReport : List (List Text) → Type 0
  IsReport reports =
      ((cycle : List Text)
        → In cycle reports
        → (file : Text) × (between : List Text) × (cycle
            ≡ rotate_canonical (file ∷ between ++ file ∷ []))
          × Circle file between)
      × ((reports ≡ []) ↔ ((file : Text) (between : List Text) → ¬ (Circle file between)))

  found-IsReport :
      (s : Search)
      → search_all (arcs_of nodes edges) ≡ some s
      → IsReport (map rotate_canonical (dedup (sort cycle_le s.found)))
  found-IsReport s e =
      let kept = dedup (sort cycle_le s.found) in
      let circle : (cycle : List Text)
          → In cycle (map rotate_canonical kept)
          → (file : Text) × (between : List Text) × (cycle
              ≡ rotate_canonical (file ∷ between ++ file ∷ []))
            × Circle file between =
        λ cycle m.
          let (ring, n, q) = In-map rotate_canonical kept cycle m in
          let (file, between, r, w) =
            search_all-rings s e ring
              ((In-sort cycle_le ring s.found).0 ((In-dedup ring (sort cycle_le s.found)).0 n)) in
          (
            file,
            between,
            q ∙ ap rotate_canonical r,
            (next_Circle file between).0 (subst (IsWalk (targets (arcs_of nodes edges))) r w),
          ) in
      (
        circle,
        (
          λ empty. search_all-Circle s e (
              empty_of rotate_canonical kept s.found
                (λ x m. (In-dedup x (sort cycle_le s.found)).1 ((In-sort cycle_le x s.found).1 m))
                empty),
          λ none_at.
              no_element (map rotate_canonical kept)
                (λ cycle m. let (file, between, q, w) = circle cycle m in none_at file between w),
        ),
      )

  -- The search for cycles ends with a list of reports. Each is the rotation of a list that goes from
  -- a file along the dependencies of the edges back to that file, and the list is empty exactly when
  -- no file depends on itself through others.
  pub find_cycles_lem :
      (reports : List (List Text)) × (find_cycles nodes edges ≡ some reports) × IsReport reports
  unfolding find_cycles
  find_cycles_lem =
      let (s, e) = search_all-ends in
      (
        map rotate_canonical (dedup (sort cycle_le s.found)),
        ap (λ o. o >>= λ s. some (map rotate_canonical (dedup (sort cycle_le s.found)))) e,
        found-IsReport s e,
      )
