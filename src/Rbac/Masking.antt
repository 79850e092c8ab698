-- ===== src/Rbac/Masking.antt =====
-- What masking hides, and what the documented form of a scope covers.
use weave_graph.Common.{
  ℕ, Text, codes, List, [], ◌∷◌, ◌++◌, In, In-append, iff-eq, true, false, Option, none, some, ◌≡◌,
  ◌⊎◌, inl, inr, refl, arith, map, lookup, Option-cases, nat_eq, list_eq, subst, sym,
}
use weave_graph.Model.{Node}
use weave_graph.Rbac.{
  anonymous, is_internal, RbacGuard, visible, mask_node, StaticAuthProvider, resolve,
}
use weave_graph.Rbac.Scope.{Under, visible_iff}

-- What a masked node still shows: its id and its repository.
abbrev pub SameOutline : Node → Node → Type 0
SameOutline a b = (a.id ≡ b.id) × (a.repo_id ≡ b.repo_id)

-- Masking leaves a visible node as it is. Of any other node the result depends on nothing but its
-- id and its repository: two hidden nodes that agree on these are masked alike.
pub mask_node_noninterference :
    (guard : RbacGuard) (a b : Node)
    → ((visible guard a ≡ true) → mask_node guard a ≡ a)
      × ((visible guard a ≡ false)
          → (visible guard b ≡ false)
          → SameOutline a b
          → mask_node guard a ≡ mask_node guard b)
      × SameOutline (mask_node guard a) a
unfolding mask_node
mask_node_noninterference guard a b = (λ h. ground arith, λ h k o. ground arith, ground arith)

-- Masking a list keeps its length and the position of every id.
pub mask_positions :
    (guard : RbacGuard) (nodes : List Node)
    → map (λ n. n.id) (map (mask_node guard) nodes) ≡ map (λ n. n.id) nodes
unfolding mask_node
mask_positions guard [] = refl
mask_positions guard (n ∷ nodes) = ground (arith, mask_positions guard nodes)

Under-In : (c : ℕ) (path prefix : Text) → Under path prefix → In c prefix → In c path
Under-In c path prefix (inl e) m = subst (In c) (sym e) m
Under-In c path prefix (inr (inl e)) m = absurd (subst (In c) e m)
Under-In c path prefix (inr (inr (rest, e))) m =
    subst (In c) (sym e) (
      (In-append c (prefix ++ codes "/") rest).1 (inl ((In-append c prefix (codes "/")).1 (inl m))))

-- A scope is a literal prefix. If every entry of a nonempty scope holds a `*`, as in
-- `crates/weave-graph-hub/**`, the scope covers no path without one: the internal role then shows
-- nothing beyond the public nodes.
pub visible-star_scope :
    (guard : RbacGuard) (node : Node)
    → (¬ (guard.identity.path_scope ≡ []))
    → ((prefix : Text) → In prefix guard.identity.path_scope → In b'*' prefix)
    → (¬ In b'*' node.path)
    → visible guard node ≡ guard.is_public node
visible-star_scope guard node some_scope stars plain =
    iff-eq (visible guard node) (guard.is_public node) (
      λ h. elim ((visible_iff guard node).0 h) [
        | inl (role, inl e) ↦ absurd (some_scope e)
        | inl (role, inr (prefix, m, u)) ↦
            absurd (plain (Under-In b'*' node.path prefix u (stars prefix m)))
        | inr p ↦ p
      ],
      λ p. (visible_iff guard node).1 (inr p),
    )

-- A credential that names a user of the table gets that user's roles and scopes, and any other the
-- anonymous identity, which is not internal.
pub resolve_lem :
    (provider : StaticAuthProvider) (credential : Option Text)
    → ((subject : Text) × (entry : List Text × List Text) × (credential ≡ some subject)
        × (lookup provider.users subject ≡ some entry)
        × ((resolve provider credential).subject ≡ subject)
        × ((resolve provider credential).roles ≡ entry.0)
        × ((resolve provider credential).path_scope ≡ entry.1))
      ⊎ (resolve provider credential ≡ anonymous)
        × (is_internal (resolve provider credential) ≡ false)
unfolding resolve is_internal
resolve_lem provider none = inr (refl, refl)
resolve_lem provider (some subject) = elim (Option-cases (lookup provider.users subject)) [
  | inl e ↦ inr (rw e, rw e)
  | inr (entry, e) ↦ inl (subject, entry, refl, e, rw e, rw e, rw e)
]
