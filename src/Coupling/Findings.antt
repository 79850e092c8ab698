-- ===== src/Coupling/Findings.antt =====
-- Which pairs of files are reported as coupled.
use weave_graph.Common.{
  ℕ, Text, List, any, filter_map, In, In-filter_map, filter_map-In, In-of_any, any_of_In, Bool,
  true, false, not, ◌||◌, Bool-cases, Option, none, some, ◌>>=◌, ◌==◌, ==_iff, nat_eq, list_eq,
  if◌then◌else◌, text_le, lookup, In-sort, Pairwise, IsSorted-Pairwise, sort, sort-IsSorted, sym,
  ◌≡◌, refl, ◌↔◌, ◌⊎◌, inl, inr, subst, arith,
}
use weave_graph.Model.{Node, Edge}
use weave_graph.Rbac.Scope.{Under}
use weave_graph.Policy.{in_module, path_of}
use weave_graph.Policy.Crossing.{in_module_iff}
use weave_graph.Coupling.Globs.{GlobMatches, glob_matches_iff}
use weave_graph.Coupling.{
  SemanticCouplingRule, SemanticCouplingFinding, glob_matches, key_of, declared, is_declared, judge,
  couple, finding_le, semantic_coupling_findings,
}
use weave_graph.Policy.Paths.{HasPath, path_of_iff}
use weave_graph.Coupling.Keys.{Related, Related-iff, key_of_ordered, key_of_same, key_of_ends}
use weave_graph.Coupling.Order.{InOrder, finding_le-InOrder, finding_le_total, finding_le_trans}

guards_iff :
    {A : Type 0} (e i k x d : Bool) (g f : A)
    → ((if e
          then none
          else if not i || not k
          then none
          else if x
          then none
          else if d
          then none
          else some g)
        ≡ some f)
      ↔ ((e ≡ false) × (i ≡ true) × (k ≡ true) × (x ≡ false) × (d ≡ false) × (f ≡ g))
guards_iff e i k x d g f = ground arith

module _ {Similarity : Type 0} (below : Similarity → Similarity → Bool)
    (rule : SemanticCouplingRule Similarity) where
  -- A glob of the rule matches one of the two files.
  abbrev pub Exempted : Text → Text → Type 0
  Exempted a b = (g : Text) × In g rule.exempt_globs × (GlobMatches g a ⊎ GlobMatches g b)

  Exempted-iff :
      (a b : Text)
      → (any (λ g. glob_matches g a || glob_matches g b) rule.exempt_globs ≡ true) ↔ Exempted a b
  Exempted-iff a b = (
    λ h.
        let (g, m, e) = In-of_any (λ g. glob_matches g a || glob_matches g b) rule.exempt_globs h in
        (g, m, ground (arith, glob_matches_iff g a, glob_matches_iff g b)),
    λ (g, m, e).
        any_of_In (λ g. glob_matches g a || glob_matches g b) rule.exempt_globs g m
          (ground (arith, glob_matches_iff g a, glob_matches_iff g b)),
  )

  unmatched :
      (a b : Text)
      → (¬ Exempted a b)
      → any (λ g. glob_matches g a || glob_matches g b) rule.exempt_globs ≡ false
  unmatched a b h =
      elim (Bool-cases (any (λ g. glob_matches g a || glob_matches g b) rule.exempt_globs)) [
        | inl e ↦ absurd (h ((Exempted-iff a b).0 e))
        | inr e ↦ e
      ]

  abbrev pub finding_of : Text → Text → Similarity → SemanticCouplingFinding Similarity
  finding_of a b similarity = record {
    file_a = (key_of a b).0;
    file_b = (key_of a b).1;
    similarity = similarity;
  }

  -- The finding has the similarity and the two files, the smaller one first.
  abbrev pub IsFinding : Text → Text → Similarity → SemanticCouplingFinding Similarity → Type 0
  IsFinding a b similarity f =
      (f.similarity ≡ similarity)
      × (text_le f.file_a f.file_b ≡ true)
      × (((f.file_a ≡ a) × (f.file_b ≡ b)) ⊎ ((f.file_a ≡ b) × (f.file_b ≡ a)))

  finding_of-IsFinding :
      (a b : Text) (s : Similarity) (f : SemanticCouplingFinding Similarity)
      → (f ≡ finding_of a b s) ↔ IsFinding a b s f
  finding_of-IsFinding a b s f = (
    λ e. subst (IsFinding a b s) (sym e) (refl, key_of_ordered a b, key_of_ends a b),
    λ (same, h, m).
        let key = key_of_same a b f.file_a f.file_b h m in
        λ i. record { file_a = (key i).0; file_b = (key i).1; similarity = same i },
  )

  -- The conditions on two known files.
  abbrev pub Coupled : List (Text × Text) → Text → Text → Type 0
  Coupled keys a b =
      (¬ (a ≡ b))
      × Under a rule.within
      × Under b rule.within
      × (¬ Exempted a b)
      × (is_declared keys (key_of a b) ≡ false)

  judge_iff :
      (keys : List (Text × Text)) (a b : Text) (s : Similarity)
      (f : SemanticCouplingFinding Similarity)
      → (judge below rule keys a b s ≡ some f) ↔ (Coupled keys a b × (f ≡ finding_of a b s))
  unfolding judge
  judge_iff keys a b s f =
      let (to, from) =
        guards_iff (a == b) (in_module a rule.within) (in_module b rule.within)
          (any (λ g. glob_matches g a || glob_matches g b) rule.exempt_globs)
          (is_declared keys (key_of a b)) (finding_of a b s) f in
      (
        λ h.
            let (e, i, k, x, d, same) = to h in
            (
              (
                λ q. cc (e, (==_iff a b).1 q),
                (in_module_iff a rule.within).0 i,
                (in_module_iff b rule.within).0 k,
                λ q. cc (x, (Exempted-iff a b).1 q),
                d,
              ),
              same,
            ),
        λ ((e, i, k, x, d), same). from (
          ground (arith, ==_iff a b),
          (in_module_iff a rule.within).1 i,
          (in_module_iff b rule.within).1 k,
          unmatched a b x,
          d,
          same,
        ),
      )

  module _ {Weight : Type 0} (nodes : List Node) (edges : List (Edge Weight)) where
    -- The pair of ids is of two files with high similarity that the rule covers, none of them
    -- exempt, and that no edge relates.
    abbrev pub Reported : ℕ × ℕ × Similarity → SemanticCouplingFinding Similarity → Type 0
    Reported (x, y, s) f =
        (below s rule.threshold ≡ false)
        × ((a : Text) × (b : Text) × HasPath nodes x a
            × HasPath nodes y b
            × (¬ (a ≡ b))
            × Under a rule.within
            × Under b rule.within
            × (¬ Exempted a b)
            × (¬ Related nodes edges a b)
            × IsFinding a b s f)

    looked_up_iff :
        (s t : Option Text) (sim : Similarity) (f : SemanticCouplingFinding Similarity)
        → ((s >>= λ a. t >>= λ b. judge below rule (declared nodes edges) a b sim) ≡ some f) ↔ (
            (a : Text) × (b : Text) × (s ≡ some a)
            × (t ≡ some b)
            × (judge below rule (declared nodes edges) a b sim ≡ some f))
    looked_up_iff none t sim f = (λ h. cc, λ (a, b, h, k, l). cc)
    looked_up_iff (some p) none sim f = (λ h. cc, λ (a, b, h, k, l). cc)
    looked_up_iff (some p) (some q) sim f = (
      λ h. (p, q, refl, refl, h),
      λ (a, b, h, k, l).
          subst (λ x. judge below rule (declared nodes edges) x q sim ≡ some f) (cc)
            (subst (λ y. judge below rule (declared nodes edges) a y sim ≡ some f) (cc) l),
    )

    unrelated :
        (a b : Text)
        → (¬ Related nodes edges a b)
        → is_declared (declared nodes edges) (key_of a b) ≡ false
    unrelated a b h = elim (Bool-cases (is_declared (declared nodes edges) (key_of a b))) [
      | inl e ↦ absurd (h ((Related-iff nodes edges a b).0 e))
      | inr e ↦ e
    ]

    couple_iff :
        (pair : ℕ × ℕ × Similarity) (f : SemanticCouplingFinding Similarity)
        → (couple below rule (declared nodes edges) (path_of nodes) pair ≡ some f) ↔ Reported pair f
    unfolding couple
    couple_iff (x, y, s) f =
        let looked = looked_up_iff (lookup (path_of nodes) x) (lookup (path_of nodes) y) s f in
        elim (Bool-cases (below s rule.threshold)) [
          | inl low ↦ rw low (λ h. cc, λ (h, _). cc h)
          | inr high ↦ rw high (
            λ h.
                let (a, b, p, q, j) = looked.0 h in
                let ((d, u, w, e, r), same) = (judge_iff (declared nodes edges) a b s f).0 j in
                (
                  refl,
                  (
                    a,
                    b,
                    (path_of_iff nodes x a).0 p,
                    (path_of_iff nodes y b).0 q,
                    d,
                    u,
                    w,
                    e,
                    λ k. cc (r, (Related-iff nodes edges a b).1 k),
                    (finding_of-IsFinding a b s f).0 same,
                  ),
                ),
            λ (_, (a, b, p, q, d, u, w, e, r, same)). looked.1 (
              a,
              b,
              (path_of_iff nodes x a).1 p,
              (path_of_iff nodes y b).1 q,
              (judge_iff (declared nodes edges) a b s f).1
                  ((d, u, w, e, unrelated a b r), (finding_of-IsFinding a b s f).1 same),
            ),
          )
        ]

    -- The findings are exactly those of the pairs that clear the threshold, whose two ids are of
    -- different files, both under the rule's prefix, neither matched by an exempting glob and not
    -- related by an edge in either direction. They are sorted by the two files, which each finding
    -- has in order.
    pub semantic_coupling_findings_lem :
        (pairs : List (ℕ × ℕ × Similarity))
        → Pairwise InOrder (semantic_coupling_findings below nodes edges pairs rule)
          × ((f : SemanticCouplingFinding Similarity)
              → In f (semantic_coupling_findings below nodes edges pairs rule)
                ↔ ((pair : ℕ × ℕ × Similarity) × In pair pairs × Reported pair f))
    unfolding semantic_coupling_findings
    semantic_coupling_findings_lem pairs =
        let found = couple below rule (declared nodes edges) (path_of nodes) in
        let reports = filter_map found pairs in
        (
          IsSorted-Pairwise (finding_le below) InOrder (finding_le-InOrder below)
              (sort (finding_le below) reports)
              (sort-IsSorted (finding_le below) (finding_le_total below) (finding_le_trans below)
                reports),
          λ f. (
            λ m.
                let (pair, k, e) =
                  In-filter_map found pairs f ((In-sort (finding_le below) f reports).0 m) in
                (pair, k, (couple_iff pair f).0 e),
            λ (pair, k, e).
                (In-sort (finding_le below) f reports).1
                  (filter_map-In found pairs pair f k ((couple_iff pair f).1 e)),
          ),
        )
