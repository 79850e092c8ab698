-- ===== src/FileEdges/Unresolved.antt =====
-- Which references of a file stay unresolved.
use weave_graph.Common.{
  ℕ, Text, List, [], ◌∷◌, ◌++◌, filter, filter_map, is_empty, is_empty_iff, In, In-append,
  In-filter_map, filter_map-In, Bool, true, false, some, ◌==◌, nat_eq, list_eq, text_le, sort,
  In-sort, In-dedup, ◌≡◌, refl, sym, ap, ◌∙◌, ◌↔◌, ◌⊎◌, inl, inr, subst, arith,
}
use weave_graph.Interner.{Interner}
use weave_graph.ProjectIndex.{ProjectIndex, file_of, resolve_one}
use weave_graph.ProjectIndex.Names.{Named}
use weave_graph.ProjectIndex.Candidates.{Indexes, monikers}
use weave_graph.ProjectIndex.References.{every, only, targets, resolve_one_lem}
use weave_graph.FileEdges.{
  RawCall, RawStructuralEdge, ParsedFile, unresolved_call, unresolved_structural, resolve_ids,
}

is_empty-only :
    (same_file names : List Text)
    → (names ≡ [] → same_file ≡ [])
    → is_empty (only same_file names) ≡ is_empty names
unfolding only every
is_empty-only [] [] h = refl
is_empty-only (x ∷ same) [] h = absurd (subst (λ l. ¬ (l ≡ [])) refl (λ k. cc k) (h refl))
is_empty-only [] (m ∷ []) h = refl
is_empty-only [] (m ∷ k ∷ names) h = refl
is_empty-only (x ∷ []) (m ∷ names) h = refl
is_empty-only (x ∷ y ∷ same) (m ∷ []) h = refl
is_empty-only (x ∷ y ∷ same) (m ∷ k ∷ names) h = refl

is_empty-every : (names : List Text) → is_empty (every names) ≡ is_empty names
unfolding every
is_empty-every [] = refl
is_empty-every (m ∷ names) = refl

is_empty-targets :
    (symbols : List (Text × Text)) (caller name : Text) (force : Bool)
    → is_empty (targets symbols caller name force) ≡ is_empty (monikers name symbols)
unfolding targets
is_empty-targets symbols caller name true = is_empty-every (monikers name symbols)
is_empty-targets symbols caller name false =
    is_empty-only (filter (λ m. file_of m == file_of caller) (monikers name symbols))
      (monikers name symbols) (λ e. ap (filter (λ m. file_of m == file_of caller)) e)

module _ (interner : Interner) (index : ProjectIndex interner) (symbols : List (Text × Text))
    (h : Indexes interner index symbols) where
  pub is_empty-Named :
      (ids : List ℕ) (names : List Text)
      → Named interner index.interner_state ids names
      → is_empty ids ≡ is_empty names
  is_empty-Named [] [] n = refl
  is_empty-Named [] (m ∷ names) n = absurd n
  is_empty-Named (i ∷ ids) [] n = absurd n
  is_empty-Named (i ∷ ids) (m ∷ names) n = refl

  unresolved_call_iff :
      (c : RawCall) (name : Text)
      → (unresolved_call interner index c ≡ some name)
        ↔ ((monikers c.callee_name symbols ≡ []) × (c.callee_name ≡ name))
  unfolding unresolved_call
  unresolved_call_iff c name =
      let same : is_empty
            (resolve_one interner index c.caller_moniker c.callee_name c.is_member_call)
          ≡ is_empty (monikers c.callee_name symbols) =
        ap is_empty
          (resolve_one_lem interner index symbols h c.caller_moniker c.callee_name c.is_member_call)
        ∙ is_empty-targets symbols c.caller_moniker c.callee_name c.is_member_call in
      rw (same) (ground (arith, is_empty_iff (monikers c.callee_name symbols)))

  unresolved_structural_iff :
      (s : RawStructuralEdge) (name : Text)
      → (unresolved_structural interner index s ≡ some name)
        ↔ ((monikers s.target_name symbols ≡ []) × (s.target_name ≡ name))
  unfolding unresolved_structural
  unresolved_structural_iff s name =
      rw (is_empty-Named _ _ (h.named s.target_name))
        (ground (arith, is_empty_iff (monikers s.target_name symbols)))

-- The unresolved names of a file are exactly the names that some call or structural reference of
-- it uses and that no symbol of the index has.
pub unresolved_iff :
    (interner : Interner) (index : ProjectIndex interner) (symbols : List (Text × Text))
    → Indexes interner index symbols
    → (file : ParsedFile) (name : Text)
    → In name (resolve_ids interner index file).1 ↔ (
        (monikers name symbols ≡ [])
        × (((c : RawCall) × In c file.calls × (c.callee_name ≡ name))
            ⊎ ((s : RawStructuralEdge) × In s file.structural_edges × (s.target_name ≡ name))))
unfolding resolve_ids
unresolved_iff interner index symbols h file name =
    let calls = filter_map (unresolved_call interner index) file.calls in
    let structurals = filter_map (unresolved_structural interner index) file.structural_edges in
    let listed = In-sort text_le name (calls ++ structurals) in
    let kept = In-dedup name (sort text_le (calls ++ structurals)) in
    let none_of : (other : Text)
        → monikers other symbols ≡ []
        → other ≡ name
        → monikers name symbols ≡ [] =
      λ other e same. subst (λ n. monikers n symbols ≡ []) same e in
    let none_at : (other : Text)
        → monikers name symbols ≡ []
        → other ≡ name
        → monikers other symbols ≡ [] =
      λ other e same. subst (λ n. monikers n symbols ≡ []) (sym same) e in
    (
      λ m. elim ((In-append name calls structurals).0 (listed.0 (kept.0 m))) [
        | inl k ↦
            let (c, l, e) = In-filter_map (unresolved_call interner index) file.calls name k in
            let (free, same) = (unresolved_call_iff interner index symbols h c name).0 e in
            (none_of c.callee_name free same, inl (c, l, same))
        | inr k ↦
            let (s, l, e) =
              In-filter_map (unresolved_structural interner index) file.structural_edges name k in
            let (free, same) = (unresolved_structural_iff interner index symbols h s name).0 e in
            (none_of s.target_name free same, inr (s, l, same))
      ],
      λ (free, used). kept.1 (
          listed.1 (
            (In-append name calls structurals).1 (elim used [
              | inl (c, l, same) ↦ inl (
                  filter_map-In (unresolved_call interner index) file.calls c name l (
                    (unresolved_call_iff interner index symbols h c name).1
                      (none_at c.callee_name free same, same)))
              | inr (s, l, same) ↦ inr (
                  filter_map-In (unresolved_structural interner index) file.structural_edges s name
                    l
                    ((unresolved_structural_iff interner index symbols h s name).1
                      (none_at s.target_name free same, same)))
            ]))),
    )
