-- ===== src/Auth/Tests.antt =====
-- Runs of the comparison, and the theorems at concrete secrets.
use weave_graph.Common.{codes, true, false, some, ◌≡◌, ◌↔◌, refl}
use weave_graph.Auth.{constant_time_eq, bearer_token_matches}
use weave_graph.Auth.Equality.{constant_time_eq_iff}

compares :
    (constant_time_eq (codes "secret") (codes "secret") ≡ true)
    × (constant_time_eq (codes "secret") (codes "secrex") ≡ false)
    × (constant_time_eq (codes "secret") (codes "secret-longer") ≡ false)
unfolding constant_time_eq
compares = (refl, refl, refl)

bearers :
    (bearer_token_matches (some (codes "Bearer secret")) (codes "secret") ≡ true)
    × (bearer_token_matches (some (codes "Basic secret")) (codes "secret") ≡ false)
unfolding bearer_token_matches
bearers = (refl, refl)

constant_time_eq_iff_example :
    (constant_time_eq (codes "ab") (codes "abc") ≡ true) ↔ (codes "ab" ≡ codes "abc")
constant_time_eq_iff_example = constant_time_eq_iff (codes "ab") (codes "abc")
