-- ===== src/FileEdges/Edges.antt =====
-- Which edges a file's calls become.
use weave_graph.Common.{
  codes, ap, ◌∙◌, ℕ, Text, List, [], ◌∷◌, In, In-append, In-filter_map, filter_map-In, some, ◌≡◌,
  refl, sym, ◌↔◌, ◌⊎◌, inl, inr, subst, arith,
}
use weave_graph.Interner.{Interner}
use weave_graph.ProjectIndex.{
  ResolutionKind, unique_global_exact, ambiguous_heuristic, ProjectIndex, Target, candidates,
  resolve_one,
}
use weave_graph.ProjectIndex.Candidates.{Indexes, monikers}
use weave_graph.ProjectIndex.Names.{Named}
use weave_graph.ProjectIndex.References.{targets, resolve_one_lem}
use weave_graph.FileEdges.{
  StructuralEdgeKind, imports, inherits, implements, handles, RawCall, RawStructuralEdge,
  ParsedFile, ResolvedEdgeIds, extractor_of, flat_map, call_edge, call_edges, structural_edge,
  structural_edges_of, structural_kind, as_str, resolve_ids,
}

pub In-flat_map :
    {A B : Type 0} (f : A → List B) (xs : List A) (b : B)
    → In b (flat_map f xs) ↔ ((a : A) × In a xs × In b (f a))
In-flat_map f [] b = (λ m. absurd m, λ (a, m, _). absurd m)
In-flat_map f (x ∷ xs) b = (
  λ m. elim ((In-append b (f x) (flat_map f xs)).0 m) [
    | inl k ↦ (x, inl refl, k)
    | inr k ↦ let (a, l, n) = (In-flat_map f xs b).0 k in (a, inr l, n)
  ],
  λ (a, l, n). (In-append b (f x) (flat_map f xs)).1 (elim l [
    | inl same ↦ inl (subst (λ y. In b (f y)) same n)
    | inr k ↦ inr ((In-flat_map f xs b).1 (a, k, n))
  ]),
)

module _ (interner : Interner) (index : ProjectIndex interner) (symbols : List (Text × Text))
    (h : Indexes interner index symbols) where
  open interner use {get_id}

  -- The edge of a call to one of its targets.
  abbrev pub FromCall : RawCall → ResolvedEdgeIds → Type 0
  FromCall c e =
      (t : Target) × In t (targets symbols c.caller_moniker c.callee_name c.is_member_call)
      × (get_id index.interner_state c.caller_moniker ≡ some e.source_id)
      × (get_id index.interner_state t.0 ≡ some e.target_id)
      × (e.kind ≡ t.1)
      × (e.resolution_kind ≡ t.2)
      × (e.extractor ≡ extractor_of c.caller_moniker)

  -- The kind of an edge as it is stored.
  abbrev pub stored_kind : StructuralEdgeKind → Text
  stored_kind imports = codes "IMPORTS"
  stored_kind inherits = codes "INHERITS"
  stored_kind implements = codes "IMPLEMENTS"
  stored_kind handles = codes "ROUTES_TO"

  -- Unique where the name has one symbol, else ambiguous.
  abbrev pub HowResolved : List Text → ResolutionKind → Type 0
  HowResolved names how =
      ((m : Text) × (names ≡ m ∷ []) × (how ≡ unique_global_exact))
      ⊎ (¬ ((m : Text) × (names ≡ m ∷ []))) × (how ≡ ambiguous_heuristic)

  -- The edge of a structural reference to one of the symbols of its name.
  abbrev pub FromStructural : RawStructuralEdge → ResolvedEdgeIds → Type 0
  FromStructural s e =
      ((m : Text) × In m (monikers s.target_name symbols)
        × (get_id index.interner_state m ≡ some e.target_id))
      × (get_id index.interner_state s.source_moniker ≡ some e.source_id)
      × (e.kind ≡ stored_kind s.kind)
      × HowResolved (monikers s.target_name symbols) e.resolution_kind
      × (e.extractor ≡ extractor_of s.source_moniker)

  as_str-stored_kind : (kind : StructuralEdgeKind) → as_str kind ≡ stored_kind kind
  unfolding as_str
  as_str-stored_kind imports = refl
  as_str-stored_kind inherits = refl
  as_str-stored_kind implements = refl
  as_str-stored_kind handles = refl

  Named-In :
      (ids : List ℕ) (names : List Text) (id : ℕ)
      → Named interner index.interner_state ids names
      → In id ids ↔ ((m : Text) × In m names × (get_id index.interner_state m ≡ some id))
  Named-In [] [] id n = (λ m. absurd m, λ (x, m, e). absurd m)
  Named-In [] (x ∷ names) id n = absurd n
  Named-In (i ∷ ids) [] id n = absurd n
  Named-In (i ∷ ids) (x ∷ names) id (e, n) =
      let (there, back) = Named-In ids names id n in
      (
        λ m. elim m [
          | inl same ↦ (x, inl refl, e ∙ ap some (sym same))
          | inr k ↦ let (y, l, q) = there k in (y, inr l, q)
        ],
        λ (y, m, q). elim m [
          | inl same ↦
              let both : some id ≡ some i = sym q ∙ ap (get_id index.interner_state) same ∙ e in
              inl (cc both)
          | inr l ↦ inr (back (y, l, q))
        ],
      )

  structural_kind-HowResolved :
      (ids : List ℕ) (names : List Text) (how : ResolutionKind)
      → Named interner index.interner_state ids names
      → (how ≡ structural_kind ids) ↔ HowResolved names how
  unfolding structural_kind
  structural_kind-HowResolved [] [] how n =
      (λ e. inr (λ (m, q). cc q, e), λ h. elim h [ inl (m, q, e) ↦ absurd (cc q) | inr (q, e) ↦ e ])
  structural_kind-HowResolved [] (x ∷ names) how n = absurd n
  structural_kind-HowResolved (i ∷ ids) [] how n = absurd n
  structural_kind-HowResolved (i ∷ []) (x ∷ []) how n =
      (λ e. inl (x, refl, e), λ h. elim h [ inl (m, q, e) ↦ e | inr (q, e) ↦ absurd (q (x, refl)) ])
  structural_kind-HowResolved (i ∷ []) (x ∷ y ∷ names) how (_, n) = absurd n
  structural_kind-HowResolved (i ∷ j ∷ ids) (x ∷ []) how (_, n) = absurd n
  structural_kind-HowResolved (i ∷ j ∷ ids) (x ∷ y ∷ names) how n =
      (λ e. inr (λ (m, q). cc q, e), λ h. elim h [ inl (m, q, e) ↦ absurd (cc q) | inr (q, e) ↦ e ])

  call_edge_iff :
      (c : RawCall) (t : Target) (e : ResolvedEdgeIds)
      → (call_edge interner index c t ≡ some e) ↔ (
          (get_id index.interner_state c.caller_moniker ≡ some e.source_id)
          × (get_id index.interner_state t.0 ≡ some e.target_id)
          × (e.kind ≡ t.1)
          × (e.resolution_kind ≡ t.2)
          × (e.extractor ≡ extractor_of c.caller_moniker))
  unfolding call_edge
  call_edge_iff c t e = ground arith

  structural_edge_iff :
      (s : RawStructuralEdge) (id : ℕ) (e : ResolvedEdgeIds)
      → (structural_edge interner index s
            (structural_kind (candidates interner index s.target_name))
            id
          ≡ some e)
        ↔ ((id ≡ e.target_id)
            × (get_id index.interner_state s.source_moniker ≡ some e.source_id)
            × (e.kind ≡ as_str s.kind)
            × (e.resolution_kind ≡ structural_kind (candidates interner index s.target_name))
            × (e.extractor ≡ extractor_of s.source_moniker))
  unfolding structural_edge
  structural_edge_iff s id e = ground arith

  call_edges_iff :
      (c : RawCall) (e : ResolvedEdgeIds) → In e (call_edges interner index c) ↔ FromCall c e
  unfolding call_edges
  call_edges_iff c e =
      let found = resolve_one interner index c.caller_moniker c.callee_name c.is_member_call in
      let same =
        resolve_one_lem interner index symbols h c.caller_moniker c.callee_name c.is_member_call in
      (
        λ m.
            let (t, k, q) = In-filter_map (call_edge interner index c) found e m in
            let (a, b, x, y, z) = (call_edge_iff c t e).0 q in
            (t, subst (In t) same k, a, b, x, y, z),
        λ (t, k, a, b, x, y, z).
            filter_map-In (call_edge interner index c) found t e (subst (In t) (sym same) k)
              ((call_edge_iff c t e).1 (a, b, x, y, z)),
      )

  structural_edges_iff :
      (s : RawStructuralEdge) (e : ResolvedEdgeIds)
      → In e (structural_edges_of interner index s) ↔ FromStructural s e
  unfolding structural_edges_of
  structural_edges_iff s e =
      let ids = candidates interner index s.target_name in
      let make = structural_edge interner index s (structural_kind ids) in
      let names = monikers s.target_name symbols in
      let named = Named-In ids names e.target_id (h.named s.target_name) in
      let how = structural_kind-HowResolved ids names e.resolution_kind (h.named s.target_name) in
      (
        λ m.
            let (id, k, q) = In-filter_map make ids e m in
            let (same, a, x, y, z) = (structural_edge_iff s id e).0 q in
            (named.0 (subst (λ i. In i ids) same k), a, x ∙ as_str-stored_kind s.kind, how.0 y, z),
        λ (t, a, x, y, z). filter_map-In make ids e.target_id e (named.1 t) (
            (structural_edge_iff s e.target_id e).1
              (refl, a, x ∙ sym (as_str-stored_kind s.kind), how.1 y, z)),
      )

  -- The edges of a file are exactly these: one for each call and each target that its name resolves
  -- to, and one for each structural reference and each symbol of its name, both where the table has
  -- the source; a structural edge is unique just when its name has one symbol.
  pub resolve_ids_iff :
      (file : ParsedFile) (e : ResolvedEdgeIds)
      → In e (resolve_ids interner index file).0 ↔ (
          ((c : RawCall) × In c file.calls × FromCall c e)
          ⊎ ((s : RawStructuralEdge) × In s file.structural_edges × FromStructural s e))
  unfolding resolve_ids
  resolve_ids_iff file e =
      let both =
        In-append e (flat_map (call_edges interner index) file.calls)
          (flat_map (structural_edges_of interner index) file.structural_edges) in
      let calls = In-flat_map (call_edges interner index) file.calls e in
      let structurals = In-flat_map (structural_edges_of interner index) file.structural_edges e in
      (
        λ m. elim (both.0 m) [
          | inl k ↦ let (c, l, n) = calls.0 k in inl (c, l, (call_edges_iff c e).0 n)
          | inr k ↦ let (s, l, n) = structurals.0 k in inr (s, l, (structural_edges_iff s e).0 n)
        ],
        λ m. both.1 (elim m [
          | inl (c, l, n) ↦ inl (calls.1 (c, l, (call_edges_iff c e).1 n))
          | inr (s, l, n) ↦ inr (structurals.1 (s, l, (structural_edges_iff s e).1 n))
        ]),
      )
