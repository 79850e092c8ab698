-- ===== src/Ranking.antt =====
-- crates/weave-graph-core/src/ranking.rs: `reciprocal_rank_fusion`. The scores (f64) are a type of their
-- own, with the sum, the share of a rank and the total order of `total_cmp`.
pub mod Scores
pub mod Fusion
mod Tests
use weave_graph.Common.{
  ℕ, ◌+◌, leb, List, [], ◌∷◌, map, take, contains, Bool, true, false, Option, none, some, ◌==◌,
  nat_eq, if◌then◌else◌, lookup, put, sort, ◌≡◌,
}

-- `f64` as the fusion uses it: `share rank` is `1.0 / (RRF_K + rank as f64 + 1.0)`, and `le` is that
-- `total_cmp` does not answer `Greater`.
pub record Score : Type 1 where
  pub Value : Type 0
  pub zero_score : Value
  pub add : Value → Value → Value
  pub share : ℕ → Value
  pub le : Value → Value → Bool
  pub le_total : (x y : Value) → le x y ≡ false → le y x ≡ true
  pub le_trans : (x y z : Value) → le x y ≡ true → le y z ≡ true → le x z ≡ true

module _ (score : Score) where
  open score use {Value, zero_score, add, share, le}

  abbrev pub or_default : Option Value → Value
  or_default none = zero_score
  or_default (some s) = s

  -- The loop over a list, with the ids seen in it.
  unfoldable pub add_list : List (ℕ × Value) → List ℕ → ℕ → List ℕ → List (ℕ × Value)
  add_list scores seen rank [] = scores
  add_list scores seen rank (id ∷ ids) =
      let counted = put scores id (add (or_default (lookup scores id)) (share rank)) in
      add_list (if contains seen id then scores else counted) (id ∷ seen) (rank + 1) ids

  unfoldable pub add_lists : List (ℕ × Value) → List (List ℕ) → List (ℕ × Value)
  unfolding add_list
  add_lists scores [] = scores
  add_lists scores (list ∷ lists) = add_lists (add_list scores [] 0 list) lists

  -- Not after by the comparison of the sort: the higher score first, then the lower id.
  unfoldable pub ranked_before : ℕ × Value → ℕ × Value → Bool
  ranked_before (left_id, left_score) (right_id, right_score) =
      if le right_score left_score
      then if le left_score right_score then leb left_id right_id else true
      else false

  unfoldable pub reciprocal_rank_fusion : List (List ℕ) → ℕ → List ℕ
  unfolding add_lists ranked_before
  reciprocal_rank_fusion lists limit =
      map (λ entry. entry.0) (take limit (sort ranked_before (add_lists [] lists)))
