-- ===== src/Rbac.antt =====
-- crates/weave-graph-core/src/rbac.rs: identities, the static provider and the masking guard.
pub mod Scope
pub mod Masking
mod Tests
use weave_graph.Common.{
  ℕ, Text, codes, List, [], ◌∷◌, ◌++◌, map, any, Bool, true, false, ◌||◌, ◌&&◌, Option, none, some,
  ◌==◌, nat_eq, list_eq, if◌then◌else◌, starts_with, lookup, is_empty,
}
use weave_graph.Model.{Node}

pub record Identity : Type 0 where
  pub subject : Text
  pub roles : List Text
  pub path_scope : List Text

abbrev pub anonymous : Identity
anonymous = record { subject = codes "anonymous"; roles = []; path_scope = [] }

unfoldable pub is_internal : Identity → Bool
is_internal identity = any (λ r. r == codes "internal") identity.roles

unfoldable pub can_waive : Identity → Bool
can_waive identity = any (λ r. r == codes "allow-drift") identity.roles

-- The `HashMap` of users: roles and path scopes of each subject.
pub record StaticAuthProvider : Type 0 where
  pub users : List (Text × (List Text × List Text))

unfoldable pub new : List (Text × List Text) → StaticAuthProvider
new users = record { users = map (λ entry. (entry.0, (entry.1, []))) users }

abbrev pub with_path_scopes : List (Text × (List Text × List Text)) → StaticAuthProvider
with_path_scopes users = record { users = users }

identity_of : Text → Option (List Text × List Text) → Identity
identity_of subject none = anonymous
identity_of subject (some (roles, path_scope)) = record {
  subject = subject;
  roles = roles;
  path_scope = path_scope;
}

unfoldable pub resolve : StaticAuthProvider → Option Text → Identity
unfolding identity_of
resolve provider none = anonymous
resolve provider (some subject) = identity_of subject (lookup provider.users subject)

unfoldable pub in_module : Text → Text → Bool
in_module path prefix = path == prefix || is_empty prefix || starts_with path (prefix ++ codes "/")

abbrev pub hidden_marker : Text
hidden_marker = codes "<rbac: hidden>"

-- `is_public` is supplied by the caller.
pub record RbacGuard : Type 0 where
  pub identity : Identity
  pub is_public : Node → Bool

unfoldable pub visible : RbacGuard → Node → Bool
unfolding is_internal in_module
visible guard node =
    if is_internal guard.identity
    then (if is_empty guard.identity.path_scope
        then true
        else if any (λ prefix. in_module node.path prefix) guard.identity.path_scope
        then true
        else guard.is_public node)
    else guard.is_public node

unfoldable pub mask_node : RbacGuard → Node → Node
unfolding visible
mask_node guard node = if visible guard node then node else record {
  id = node.id;
  repo_id = node.repo_id;
  path = hidden_marker;
  symbol = hidden_marker;
  kind = hidden_marker;
  line_start = 0;
  line_end = 0;
  signature = [];
}
