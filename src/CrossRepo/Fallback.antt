-- ===== src/CrossRepo/Fallback.antt =====
-- Which edges lead to another repository.
use weave_graph.Common.{
  Text, List, [], map, is_empty, is_empty_iff, In, In-append, In-map, map-In, true, Bool-cases, ◌≡◌,
  ◌↔◌, ◌⊎◌, inl, inr, sym, ◌∙◌, subst, nat_eq, list_eq, if◌then◌else◌,
}
use weave_graph.Interner.{Interner}
use weave_graph.ProjectIndex.{ProjectIndex, ambiguous_heuristic, Target, candidates, resolve_one}
use weave_graph.ProjectIndex.Names.{Named-map}
use weave_graph.ProjectIndex.Candidates.{Indexes, monikers}
use weave_graph.ProjectIndex.References.{targets, resolve_one_lem}
use weave_graph.FileEdges.{
  RawCall, RawStructuralEdge, ParsedFile, ResolvedEdge, extractor_of, flat_map, as_str,
}
use weave_graph.FileEdges.Edges.{In-flat_map}
use weave_graph.FileEdges.Unresolved.{is_empty-Named}
use weave_graph.CrossRepo.{call_fallback, structural_fallback, resolve_cross_repo}

-- The edge of a call to a target in the other repository.
abbrev pub across_call : RawCall → Target → ResolvedEdge
across_call c t = record {
  source_moniker = c.caller_moniker;
  target_moniker = t.0;
  kind = t.1;
  resolution_kind = ambiguous_heuristic;
  extractor = extractor_of c.caller_moniker;
}

abbrev pub across_structural : RawStructuralEdge → Text → ResolvedEdge
across_structural s moniker = record {
  source_moniker = s.source_moniker;
  target_moniker = moniker;
  kind = as_str s.kind;
  resolution_kind = ambiguous_heuristic;
  extractor = extractor_of s.source_moniker;
}

module _ (interner : Interner) (index fallback : ProjectIndex interner)
    (symbols others : List (Text × Text)) (h : Indexes interner index symbols)
    (k : Indexes interner fallback others) where
  -- The own index has no symbol of the name just when it has no candidate.
  own : (name : Text) → is_empty (candidates interner index name) ≡ is_empty (monikers name symbols)
  own name =
      is_empty-Named interner index symbols h (candidates interner index name)
        (monikers name symbols) (h.named name)

  guarded :
      {A : Type 0} (name : Text) (list : List A) (a : A)
      → In a (if is_empty (candidates interner index name) then list else [])
        ↔ ((monikers name symbols ≡ []) × In a list)
  guarded name list a = elim (Bool-cases (is_empty (candidates interner index name))) [
    | inl e ↦
        let bare = (is_empty_iff (monikers name symbols)).0 (sym (own name) ∙ e) in
        rw e (λ m. (bare, m), λ m. m.1)
    | inr e ↦ rw e (
      λ m. absurd m,
      λ m.
          let full : is_empty (monikers name symbols) ≡ true =
            (is_empty_iff (monikers name symbols)).1 m.0 in
          absurd (cc (e, own name, full)),
    )
  ]

  call_fallback_iff :
      (c : RawCall) (e : ResolvedEdge)
      → In e (call_fallback interner index fallback c) ↔ (
          (monikers c.callee_name symbols ≡ [])
          × ((t : Target) × In t (targets others c.caller_moniker c.callee_name c.is_member_call)
              × (e ≡ across_call c t)))
  unfolding call_fallback
  call_fallback_iff c e =
      let found = resolve_one interner fallback c.caller_moniker c.callee_name c.is_member_call in
      let same =
        resolve_one_lem interner fallback others k c.caller_moniker c.callee_name
          c.is_member_call in
      let open_edge = guarded c.callee_name (map (across_call c) found) e in
      (
        λ m.
            let (bare, n) = open_edge.0 m in
            let (t, l, q) = In-map (across_call c) found e n in (bare, (t, subst (In t) same l, q)),
        λ (bare, (t, l, q)). open_edge.1 (
          bare,
          subst (λ x. In x (map (across_call c) found)) (sym q)
              (map-In (across_call c) found t (subst (In t) (sym same) l)),
        ),
      )

  structural_fallback_iff :
      (s : RawStructuralEdge) (e : ResolvedEdge)
      → In e (structural_fallback interner index fallback s) ↔ (
          (monikers s.target_name symbols ≡ [])
          × ((m : Text) × In m (monikers s.target_name others) × (e ≡ across_structural s m)))
  unfolding structural_fallback
  structural_fallback_iff s e =
      let names = monikers s.target_name others in
      let same =
        Named-map interner fallback.interner_state (across_structural s)
          (candidates interner fallback s.target_name) names (k.named s.target_name) in
      let open_edge = guarded s.target_name (map (across_structural s) names) e in
      subst
        (λ list. In e (if is_empty (candidates interner index s.target_name) then list else []) ↔ (
          (monikers s.target_name symbols ≡ [])
          × ((m : Text) × In m names × (e ≡ across_structural s m))))
        (sym same)
        (
          λ m. let (bare, n) = open_edge.0 m in (bare, In-map (across_structural s) names e n),
          λ (bare, (x, l, q)). open_edge.1 (
            bare,
            subst (λ y. In y (map (across_structural s) names)) (sym q)
                (map-In (across_structural s) names x l),
          ),
        )

  -- The edges to another repository are exactly these, all of them marked ambiguous: for each call
  -- whose name no symbol of the own index has, one to each target in the other index, and for each
  -- such structural reference, one to each symbol of its name there.
  pub resolve_cross_repo_iff :
      (file : ParsedFile) (e : ResolvedEdge)
      → In e (resolve_cross_repo interner index file fallback) ↔ (
          ((c : RawCall) × In c file.calls
            × (monikers c.callee_name symbols ≡ [])
            × ((t : Target) × In t (targets others c.caller_moniker c.callee_name c.is_member_call)
                × (e ≡ across_call c t)))
          ⊎ ((s : RawStructuralEdge) × In s file.structural_edges
              × (monikers s.target_name symbols ≡ [])
              × ((m : Text) × In m (monikers s.target_name others) × (e ≡ across_structural s m))))
  unfolding resolve_cross_repo
  resolve_cross_repo_iff file e =
      let both =
        In-append e (flat_map (call_fallback interner index fallback) file.calls)
          (flat_map (structural_fallback interner index fallback) file.structural_edges) in
      let calls = In-flat_map (call_fallback interner index fallback) file.calls e in
      let structurals =
        In-flat_map (structural_fallback interner index fallback) file.structural_edges e in
      (
        λ m. elim (both.0 m) [
          | inl n ↦
              let (c, l, q) = calls.0 n in
              let (bare, to) = (call_fallback_iff c e).0 q in inl (c, l, bare, to)
          | inr n ↦
              let (s, l, q) = structurals.0 n in
              let (bare, to) = (structural_fallback_iff s e).0 q in inr (s, l, bare, to)
        ],
        λ m. both.1 (elim m [
          | inl (c, l, bare, to) ↦ inl (calls.1 (c, l, (call_fallback_iff c e).1 (bare, to)))
          | inr (s, l, bare, to) ↦
              inr (structurals.1 (s, l, (structural_fallback_iff s e).1 (bare, to)))
        ]),
      )
