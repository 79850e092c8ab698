-- ===== src/Common/Slices.antt =====
-- The front and the rest of a list that was put together.
use mathlib.Core.Path.{◌≡◌, refl, ap}
use mathlib.Core.List.{List, [], ◌∷◌, ◌++◌}
use weave_graph.Common.Lists.{length, take, drop}

module _ {A : Type 0} where
  pub drop-append : (pre post : List A) → drop (length pre) (pre ++ post) ≡ post
  drop-append [] post = refl
  drop-append (x ∷ pre) post = drop-append pre post

  pub take-append : (pre post : List A) → take (length pre) (pre ++ post) ≡ pre
  take-append [] [] = refl
  take-append [] (y ∷ post) = refl
  take-append (x ∷ pre) post = ap (λ t. x ∷ t) (take-append pre post)
