-- ===== src/Policy/Paths.antt =====
-- The map from ids to paths, which the rules and the coupled files are looked up in.
use weave_graph.Common.{
  ℕ, Text, List, [], ◌∷◌, map, In, some, lookup, lookup-put, put, collect_from, nat_eq, ◌==◌,
  ==_iff, Bool-cases, ◌≡◌, ◌↔◌, ◌⊎◌, inl, inr, sym, ap, ◌∙◌, refl,
}
use weave_graph.Model.{Node}
use weave_graph.Policy.{path_of}

-- The last node with the id has the path.
abbrev pub HasPath : List Node → ℕ → Text → Type 0
HasPath [] id file = ⊥
HasPath (n ∷ nodes) id file =
    HasPath nodes id file
    ⊎ (n.id ≡ id) × (n.path ≡ file) × ((m : Node) → In m nodes → ¬ (m.id ≡ id))

collect_from_iff :
    (nodes : List Node) (m : List (ℕ × Text)) (id : ℕ) (file : Text)
    → (lookup (collect_from m (map (λ n. (n.id, n.path)) nodes)) id ≡ some file) ↔ (
        HasPath nodes id file
        ⊎ (lookup m id ≡ some file) × ((n : Node) → In n nodes → ¬ (n.id ≡ id)))
collect_from_iff [] m id file =
    (λ e. inr (e, λ n k. absurd k), λ h. elim h [ inl k ↦ absurd k | inr (e, k) ↦ e ])
collect_from_iff (n ∷ nodes) m id file =
    let (to, from) = collect_from_iff nodes (put m n.id n.path) id file in
    let found = lookup-put m n.id id n.path in
    elim (Bool-cases (id == n.id)) [
      | inl e ↦
          let same : n.id ≡ id = sym ((==_iff id n.id).0 e) in
          let value : lookup (put m n.id n.path) id ≡ some n.path = rw (found, e) refl in
          (
            λ h. elim (to h) [
              | inl k ↦ inl (inl k)
              | inr (k, others) ↦ inl (inr (same, cc (value, k), others))
            ],
            λ h. elim h [
              | inl (inl k) ↦ from (inl k)
              | inl (inr (_, k, others)) ↦ from (inr (value ∙ ap some k, others))
              | inr (_, others) ↦ absurd (others n (inl refl) same)
            ],
          )
      | inr e ↦
          let differ : ¬ (n.id ≡ id) = λ q. cc (e, (==_iff id n.id).1 (sym q)) in
          let value : lookup (put m n.id n.path) id ≡ lookup m id = rw (found, e) refl in
          (
            λ h. elim (to h) [
              | inl k ↦ inl (inl k)
              | inr (k, others) ↦ inr (
                sym value ∙ k,
                λ p q. elim q [
                  | inl here ↦ (λ w. differ (sym (ap (λ x. x.id) here) ∙ w))
                  | inr there ↦ others p there
                ],
              )
            ],
            λ h. elim h [
              | inl (inl k) ↦ from (inl k)
              | inl (inr (q, _, _)) ↦ absurd (differ q)
              | inr (k, others) ↦ from (inr (value ∙ k, λ p q. others p (inr q)))
            ],
          )
    ]

pub path_of_iff :
    (nodes : List Node) (id : ℕ) (file : Text)
    → (lookup (path_of nodes) id ≡ some file) ↔ HasPath nodes id file
unfolding path_of
path_of_iff nodes id file =
    let (to, from) = collect_from_iff nodes [] id file in
    (λ h. elim (to h) [ inl k ↦ k | inr (e, _) ↦ absurd (cc e) ], λ k. from (inl k))
