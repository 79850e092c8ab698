-- ===== src/Ranking/Tests.antt =====
-- Scores that are natural numbers, and the theorem there.
use weave_graph.Common.{
  ℕ, ◌+◌, ◌/◌, ◌≤◌, ◌<◌, leb, List, [], ◌∷◌, map, length, In, true, false, some, Pairwise, sort,
  ◌≡◌, ◌⊎◌, refl, arith,
}
use weave_graph.Ranking.{Score, reciprocal_rank_fusion}
use weave_graph.Ranking.Scores.{score_in}
use weave_graph.Ranking.Fusion.{Precedes, reciprocal_rank_fusion_lem}

leb_total : (x y : ℕ) → leb x y ≡ false → leb y x ≡ true
leb_total x y h = ground arith

leb_trans : (x y z : ℕ) → leb x y ≡ true → leb y z ≡ true → leb x z ≡ true
leb_trans x y z h k = ground arith

-- Millionths.
abbrev whole : Score
whole = record {
  Value = ℕ;
  zero_score = 0;
  add = λ x y. x + y;
  share = λ rank. 1000000 / (61 + rank);
  le = leb;
  le_total = leb_total;
  le_trans = leb_trans;
}

fuses :
    (reciprocal_rank_fusion whole ((3 ∷ 1 ∷ 2 ∷ []) ∷ (2 ∷ 3 ∷ 4 ∷ []) ∷ []) 4 ≡ 3 ∷ 2 ∷ 1 ∷ 4 ∷ [])
    × (reciprocal_rank_fusion whole ((2 ∷ 2 ∷ []) ∷ (1 ∷ []) ∷ []) 3 ≡ 1 ∷ 2 ∷ [])
unfolding reciprocal_rank_fusion sort
fuses = (refl, refl)

abbrev lists : List (List ℕ)
lists = (2 ∷ 2 ∷ []) ∷ (1 ∷ []) ∷ []

reciprocal_rank_fusion_lem_example :
    (entries : List (ℕ × ℕ)) × (reciprocal_rank_fusion whole lists 1
      ≡ map (λ entry. entry.0) entries)
    × (length entries ≤ 1)
    × Pairwise (Precedes whole) entries
    × ((id s : ℕ) → In (id, s) entries → score_in whole lists id ≡ some s)
    × ((entry : ℕ × ℕ) (id s : ℕ)
        → In entry entries
        → score_in whole lists id ≡ some s
        → In (id, s) entries ⊎ Precedes whole entry (id, s))
    × (length entries < 1 → (id s : ℕ) → score_in whole lists id ≡ some s → In (id, s) entries)
reciprocal_rank_fusion_lem_example = reciprocal_rank_fusion_lem whole lists 1
