-- ===== src/Rbac/Tests.antt =====
-- Runs of the guard, and the theorems at concrete identities.
use weave_graph.Common.{
  Text, codes, List, [], ◌∷◌, true, false, ◌≡◌, ◌↔◌, ◌⊎◌, refl, In, nat_eq, list_eq, arith,
}
use weave_graph.Model.{Node}
use weave_graph.Rbac.{
  Identity, anonymous, is_internal, RbacGuard, visible, mask_node, StaticAuthProvider,
  with_path_scopes, can_waive,
}
use weave_graph.Rbac.Scope.{Under, visible_iff}
use weave_graph.Rbac.Masking.{SameOutline, mask_node_noninterference, visible-star_scope}

abbrev node : Text → Node
node path = record {
  id = 7;
  repo_id = codes "r";
  path = path;
  symbol = codes "s";
  kind = codes "function";
  line_start = 3;
  line_end = 9;
  signature = codes "fn s()";
}

abbrev internal : List Text → Identity
internal scope = record { subject = codes "ana"; roles = codes "internal" ∷ []; path_scope = scope }

abbrev guard : List Text → RbacGuard
guard scope = record { identity = internal scope; is_public = λ n. false }

sees :
    (visible (guard (codes "src/ui" ∷ [])) (node (codes "src/ui/a.rs")) ≡ true)
    × (visible (guard (codes "src/ui" ∷ [])) (node (codes "src/utils/a.rs")) ≡ false)
    × (visible (guard (codes "src/ui/**" ∷ [])) (node (codes "src/ui/a.rs")) ≡ false)
unfolding visible
sees = (refl, refl, refl)

waives : can_waive (internal []) ≡ false
unfolding can_waive
waives = refl

visible_iff_example : (visible (guard []) (node (codes "a")) ≡ true) ↔ (
    (is_internal (internal []) ≡ true)
      × ((◌≡◌ {A = List Text} [] []) ⊎ ((prefix : Text) × In prefix [] × Under (codes "a") prefix))
    ⊎ (false ≡ true))
visible_iff_example = visible_iff (guard []) (node (codes "a"))

abbrev outsider : RbacGuard
outsider = record { identity = anonymous; is_public = λ n. false }

mask_node_noninterference_example :
    ((visible outsider (node (codes "a")) ≡ true)
      → mask_node outsider (node (codes "a")) ≡ node (codes "a"))
    × ((visible outsider (node (codes "a")) ≡ false)
        → (visible outsider (node (codes "b")) ≡ false)
        → SameOutline (node (codes "a")) (node (codes "b"))
        → mask_node outsider (node (codes "a")) ≡ mask_node outsider (node (codes "b")))
    × SameOutline (mask_node outsider (node (codes "a"))) (node (codes "a"))
mask_node_noninterference_example =
    mask_node_noninterference outsider (node (codes "a")) (node (codes "b"))

visible-star_scope_example : visible (guard (codes "hub/**" ∷ [])) (node (codes "hub/x")) ≡ false
visible-star_scope_example =
    visible-star_scope (guard (codes "hub/**" ∷ [])) (node (codes "hub/x")) (λ e. cc)
      (λ prefix m. ground arith) (λ m. ground arith)

abbrev provider : StaticAuthProvider
provider = with_path_scopes ((codes "ana", (codes "internal" ∷ [], [])) ∷ [])
