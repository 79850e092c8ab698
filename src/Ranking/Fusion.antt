-- ===== src/Ranking/Fusion.antt =====
-- The fused list: the best ids by their scores, in order.
use weave_graph.Common.{
  inl, inr, ℕ, zero, suc, ◌≤◌, ◌<◌, List, [], ◌∷◌, map, take, length, length-take, In, In-take,
  true, false, some, nat_eq, In-lookup, sort, In-sort, Above, IsSorted, IsSorted-Pairwise, Pairwise,
  sort-IsSorted, take_least, ◌≡◌, ◌⊎◌, refl, sym, ◌∙◌, arith,
}
use weave_graph.Ranking.{Score, add_lists, ranked_before, reciprocal_rank_fusion}
use weave_graph.Ranking.Scores.{score_in, lookup_lem, Nodup-lookup, add_lists-Nodup}

-- A list that is shorter than it might be has everything.
In-short :
    {A : Type 0} (n : ℕ) (xs : List A) (a : A) → length (take n xs) < n → In a xs → In a (take n xs)
In-short zero xs a h m = absurd (omega arith)
In-short (suc n) [] a h m = m
In-short (suc n) (x ∷ xs) a h (inl e) = inl e
In-short (suc n) (x ∷ xs) a h (inr m) = inr (In-short n xs a (omega arith) m)

module _ (score : Score) where
  open score use {Value, le, le_total, le_trans}

  ranked_before_total :
      (x y : ℕ × Value) → ranked_before score x y ≡ false → ranked_before score y x ≡ true
  unfolding ranked_before
  ranked_before_total (a, s) (b, t) h = ground (arith, le_total s t, le_total t s)

  ranked_before_trans :
      (x y z : ℕ × Value)
      → ranked_before score x y ≡ true
      → ranked_before score y z ≡ true
      → ranked_before score x z ≡ true
  unfolding ranked_before
  ranked_before_trans (a, s) (b, t) (c, u) h k = ground (
    arith,
    le_trans u t s,
    le_trans s t u,
    le_trans t s u,
    le_trans t u s,
    le_trans s u t,
    le_trans u s t,
  )

  -- The higher score comes first, and the lower id among equal scores.
  abbrev pub Precedes : ℕ × Value → ℕ × Value → Type 0
  Precedes x y = (le y.1 x.1 ≡ true) × (le x.1 y.1 ≡ true → x.0 ≤ y.0)

  ranked_before-Precedes : (x y : ℕ × Value) → ranked_before score x y ≡ true → Precedes x y
  unfolding ranked_before
  ranked_before-Precedes (a, s) (b, t) h = ground arith

  Above-take :
      (n : ℕ) (x : ℕ × Value) (xs : List (ℕ × Value))
      → Above (ranked_before score) x xs
      → Above (ranked_before score) x (take n xs)
  Above-take zero x xs h = tt
  Above-take (suc n) x [] h = tt
  Above-take (suc n) x (y ∷ xs) h = (h.0, Above-take n x xs h.1)

  take-IsSorted :
      (n : ℕ) (xs : List (ℕ × Value))
      → IsSorted (ranked_before score) xs
      → IsSorted (ranked_before score) (take n xs)
  take-IsSorted zero xs h = tt
  take-IsSorted (suc n) [] h = tt
  take-IsSorted (suc n) (x ∷ xs) h = (Above-take n x xs h.0, take-IsSorted n xs h.1)

  -- The fused list has at most as many ids as the limit. Its ids with their scores are in order, the
  -- higher score first and the lower id first among equals. Each has the score that the lists give it,
  -- an id of the lists that is left out comes after each of them, and none is left out below the limit.
  pub reciprocal_rank_fusion_lem :
      (lists : List (List ℕ)) (limit : ℕ)
      → (entries : List (ℕ × Value)) × (reciprocal_rank_fusion score lists limit
          ≡ map (λ entry. entry.0) entries)
        × (length entries ≤ limit)
        × Pairwise Precedes entries
        × ((id : ℕ) (s : Value) → In (id, s) entries → score_in score lists id ≡ some s)
        × ((entry : ℕ × Value) (id : ℕ) (s : Value)
            → In entry entries
            → score_in score lists id ≡ some s
            → In (id, s) entries ⊎ Precedes entry (id, s))
        × (length entries < limit
            → (id : ℕ) (s : Value) → score_in score lists id ≡ some s
            → In (id, s) entries)
  unfolding reciprocal_rank_fusion
  reciprocal_rank_fusion_lem lists limit =
      let scores = add_lists score [] lists in
      let before = ranked_before score in
      let ordered = sort before scores in
      let sorted = sort-IsSorted before ranked_before_total ranked_before_trans scores in
      (
        take limit ordered,
        refl,
        omega (arith, length-take limit ordered),
        IsSorted-Pairwise before Precedes ranked_before-Precedes (take limit ordered)
            (take-IsSorted limit ordered sorted),
        λ id s m.
            sym (lookup_lem score lists id)
            ∙ Nodup-lookup scores id s (add_lists-Nodup score lists [] tt)
                ((In-sort before (id, s) scores).0 (In-take limit ordered (id, s) m)),
        λ entry id s m e.
            elim (take_least before limit ordered entry (id, s) sorted m
              ((In-sort before (id, s) scores).1
                (In-lookup scores id s (lookup_lem score lists id ∙ e)))) [
                  | inl kept ↦ inl kept
                  | inr first ↦ inr (ranked_before-Precedes entry (id, s) first)
                ],
        λ short id s e.
            In-short limit ordered (id, s) short
              ((In-sort before (id, s) scores).1
                (In-lookup scores id s (lookup_lem score lists id ∙ e))),
      )
