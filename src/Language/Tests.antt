-- ===== src/Language/Tests.antt =====
-- Paths and visibility.
use weave_graph.Common.{codes, true, false, some, none, ◌≡◌, refl}
use weave_graph.Language.{rust, properties, r, from_path, visibility_rule, python, go}

files :
    (from_path (codes "src/main.rs") ≡ some rust)
    × (from_path (codes "a.b/.env.local") ≡ some properties)
    × (from_path (codes "x/.R") ≡ none)
    × (from_path (codes "x/plot.R/") ≡ some r)
    × (from_path (codes "src/..") ≡ none)
unfolding from_path
files = (refl, refl, refl, refl, refl)

visible :
    (visibility_rule rust (codes "pub fn f()") (codes "f") ≡ true)
    × (visibility_rule rust (codes "pub(crate) fn f()") (codes "f") ≡ false)
    × (visibility_rule python (codes "def _f()") (codes "_f") ≡ false)
    × (visibility_rule go (codes "func F()") (codes "F") ≡ true)
unfolding visibility_rule
visible = (refl, refl, refl, refl)
