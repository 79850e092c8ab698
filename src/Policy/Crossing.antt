-- ===== src/Policy/Crossing.antt =====
-- When a rule is waived, and when an edge crosses its boundary.
use weave_graph.Common.{
  ℕ, Text, List, map, filter, is_empty, is_empty_iff, any, In, In-filter, In-of_any, any_of_In,
  contains, contains_iff, true, false, Option, none, some, List-cases, ◌≡◌, refl, sym, subst, ◌↔◌,
  inl, inr, arith, lookup, nat_eq, list_eq,
}
use weave_graph.Model.{Node, Edge}
use weave_graph.Rbac.Scope.{Under}
use weave_graph.Rbac.Scope
use weave_graph.Rbac
use weave_graph.Policy.{Boundary, path_of, exempt, crosses, both_in, crossing, in_module}
use weave_graph.Policy.Paths.{HasPath, path_of_iff}

-- The lint and the masking guard, which duplicates the test, have the same modules.
pub in_module_iff : (path prefix : Text) → (in_module path prefix ≡ true) ↔ Under path prefix
unfolding in_module Rbac.in_module
in_module_iff path prefix = Scope.in_module_iff path prefix

-- One of the current roles is in the allow-list.
abbrev pub Waived : Boundary → List Text → Type 0
Waived b roles = (role : Text) × In role b.allowed_roles × In role roles

pub Waived-iff : (b : Boundary) (roles : List Text) → (exempt b roles ≡ true) ↔ Waived b roles
unfolding exempt
Waived-iff b roles = (
  λ h.
      let (role, m, e) = In-of_any (λ role. contains roles role) b.allowed_roles (ground arith) in
      (role, m, (contains_iff roles role).0 e),
  λ (role, m, k).
      let e : any (λ role. contains roles role) b.allowed_roles ≡ true =
        any_of_In (λ role. contains roles role) b.allowed_roles role m
          ((contains_iff roles role).1 k) in
      ground (arith, is_empty_iff b.allowed_roles),
)

both_in_iff :
    (b : Boundary) (s t : Option Text)
    → (both_in b s t ≡ true)
      ↔ ((p q : Text) × (s ≡ some p) × (t ≡ some q) × Under p b.from × Under q b.to)
unfolding both_in
both_in_iff b none t = (λ h. cc, λ (p, q, h, k, u, w). cc)
both_in_iff b (some p) none = (λ h. cc, λ (p', q, h, k, u, w). cc)
both_in_iff b (some p) (some q) = (
  λ h. (
    p,
    q,
    refl,
    refl,
    (in_module_iff p b.from).0 (ground arith),
    (in_module_iff q b.to).0 (ground arith),
  ),
  λ (p', q', h, k, u, w).
      let u' : in_module p b.from ≡ true =
        (in_module_iff p b.from).1 (subst (λ x. Under x b.from) (cc) u) in
      let w' : in_module q b.to ≡ true =
        (in_module_iff q b.to).1 (subst (λ x. Under x b.to) (cc) w) in
      ground arith,
)

module _ {Weight : Type 0} (nodes : List Node) where
  -- Both ends of the edge have a path, under the boundary's prefixes.
  abbrev pub Crosses : Boundary → Edge Weight → Type 0
  Crosses b e =
      (p q : Text) × HasPath nodes e.source_id p
      × HasPath nodes e.target_id q
      × Under p b.from
      × Under q b.to

  crosses_iff :
      (b : Boundary) (e : Edge Weight) → (crosses (path_of nodes) b e ≡ true) ↔ Crosses b e
  unfolding crosses
  crosses_iff b e =
      let (to, from) =
        both_in_iff b (lookup (path_of nodes) e.source_id) (lookup (path_of nodes) e.target_id) in
      (
        λ h.
            let (p, q, s, t, u, w) = to h in
            (
              p,
              q,
              (path_of_iff nodes e.source_id p).0 s,
              (path_of_iff nodes e.target_id q).0 t,
              u,
              w,
            ),
        λ (p, q, s, t, u, w). from (
          p,
          q,
          (path_of_iff nodes e.source_id p).1 s,
          (path_of_iff nodes e.target_id q).1 t,
          u,
          w,
        ),
      )

  module _ (edges : List (Edge Weight)) where
    abbrev pub SomeCrosses : Boundary → Type 0
    SomeCrosses b = (e : Edge Weight) × In e edges × Crosses b e

    pub some_crosses : (b : Boundary) → is_empty (crossing nodes edges b) ≡ false → SomeCrosses b
    unfolding crossing
    some_crosses b h = elim (List-cases (filter (crosses (path_of nodes) b) edges)) [
      | inl e ↦ absurd (
          subst (λ es. ¬ (is_empty {A = ℕ × ℕ} (map (λ d. (d.source_id, d.target_id)) es) ≡ false))
            (sym e) (λ k. cc k) h)
      | inr (e, rest, eq) ↦
          let (m, k) = (In-filter (crosses (path_of nodes) b) e edges).0 (rw eq (inl refl)) in
          (e, m, (crosses_iff b e).0 k)
    ]

    pub crosses_some : (b : Boundary) → SomeCrosses b → is_empty (crossing nodes edges b) ≡ false
    unfolding crossing
    crosses_some b (e, m, c) = elim (List-cases (filter (crosses (path_of nodes) b) edges)) [
      | inl empty ↦ absurd (
          subst (In e) empty
            ((In-filter (crosses (path_of nodes) b) e edges).1 (m, (crosses_iff b e).1 c)))
      | inr (x, rest, eq) ↦ rw eq refl
    ]
