-- ===== src/Rbac/Scope.antt =====
-- Which paths a scope covers, and what an identity sees.
use weave_graph.Common.{
  Text, codes, List, [], ◌∷◌, ◌++◌, In, any, In-of_any, any_of_In, true, ◌≡◌, ◌↔◌, ◌⊎◌, arith,
  ==_iff, starts_with_iff, is_empty_iff, nat_eq, list_eq,
}
use weave_graph.Model.{Node}
use weave_graph.Rbac.{is_internal, in_module, RbacGuard, visible}

-- A path lies in a module when it is the prefix, or is below the prefix and a `/`.
abbrev pub Under : Text → Text → Type 0
Under path prefix =
    (path ≡ prefix) ⊎ (prefix ≡ []) ⊎ ((rest : Text) × (path ≡ (prefix ++ codes "/") ++ rest))

-- `src/ui` covers itself and all below it, and not its sibling `src/utils`.
pub in_module_iff : (path prefix : Text) → (in_module path prefix ≡ true) ↔ Under path prefix
unfolding in_module
in_module_iff path [] = ground arith
in_module_iff path (p ∷ ps) =
    ground (arith, ==_iff path (p ∷ ps), starts_with_iff path ((p ∷ ps) ++ codes "/"))

covers_iff :
    (path : Text) (scope : List Text)
    → (any (λ prefix. in_module path prefix) scope ≡ true)
      ↔ ((prefix : Text) × In prefix scope × Under path prefix)
covers_iff path scope = (
  λ h.
      let (prefix, m, e) = In-of_any (λ prefix. in_module path prefix) scope h in
      (prefix, m, (in_module_iff path prefix).0 e),
  λ (prefix, m, u).
      any_of_In (λ prefix. in_module path prefix) scope prefix m ((in_module_iff path prefix).1 u),
)

-- An identity sees a node exactly when it is internal with no scope or a scope that covers the
-- node's path, or the node is public.
pub visible_iff :
    (guard : RbacGuard) (node : Node)
    → (visible guard node ≡ true) ↔ (
        (is_internal guard.identity ≡ true)
          × ((guard.identity.path_scope ≡ [])
              ⊎ ((prefix : Text) × In prefix guard.identity.path_scope × Under node.path prefix))
        ⊎ (guard.is_public node ≡ true))
unfolding visible
visible_iff guard node =
    ground (
      arith,
      covers_iff node.path guard.identity.path_scope,
      is_empty_iff guard.identity.path_scope,
    )
