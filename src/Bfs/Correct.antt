-- ===== src/Bfs/Correct.antt =====
-- `bfs_within` reaches exactly the nodes that a walk of at most the given number of hops reaches.
use weave_graph.Common.{
  ℕ, zero, suc, ◌+◌, ◌≤◌, List, [], ◌∷◌, true, false, ◌≡◌, ◌↔◌, ◌⊎◌, inl, inr, refl, arith, In,
  is_empty, is_empty_iff, Bool-cases, subst, nat_eq, nat_beq_iff, sym,
}
use weave_graph.Csr.{CompactCsr, neighbors_slice}
use weave_graph.Bitmap.{Bitmap}
use weave_graph.Bfs.{expand, levels, bfs_within, Within, here, step}
use weave_graph.Bfs.Level.{FromAny, FromAny-In, In-FromAny, expand_marks, expand_next}

Within-le :
    (csr : CompactCsr) (from : ℕ) {j w : ℕ} (k : ℕ)
    → j ≤ k
    → Within csr from j w
    → Within csr from k w
Within-le csr from k h here = here
Within-le csr from zero h (step p e) = absurd (omega arith)
Within-le csr from (suc k) h (step p e) = step (Within-le csr from k (omega arith) p) e

module _ (bitmap : Bitmap) (csr : CompactCsr) (from : ℕ) where
  open bitmap use {Bits, empty, contains, insert, contains-empty, contains-insert}

  -- After `j` levels: what is reached, and the frontier.
  record Level (j : ℕ) (reached : Bits) (frontier : List ℕ) : Type 0 where
    source : contains reached from ≡ true
    sound : (w : ℕ) → contains reached w ≡ true → Within csr from j w
    queued : (w : ℕ) → In w frontier → contains reached w ≡ true
    closed :
        (u v : ℕ)
        → contains reached u ≡ true
        → In v (neighbors_slice csr u)
        → In u frontier ⊎ (contains reached v ≡ true)
    complete : (w : ℕ) → Within csr from j w → contains reached w ≡ true

  abbrev next_level : Bits → List ℕ → Bits × List ℕ
  next_level reached frontier = expand bitmap csr (reached, []) frontier

  Level-next :
      (j : ℕ) (reached : Bits) (frontier : List ℕ)
      → Level j reached frontier
      → Level (suc j) (next_level reached frontier).0 (next_level reached frontier).1
  Level-next j reached frontier l = record {
    source = (marks from).1 (inl l.source);
    sound = λ w h. elim ((marks w).0 h) [
      | inl old ↦ Within-le csr from (suc j) (omega arith) (l.sound w old)
      | inr new ↦ let (u, m, e) = In-FromAny csr frontier w new in step (l.sound u (l.queued u m)) e
    ];
    queued = λ w m. ground (arith, news w);
    closed = λ u v h e. elim (Bool-cases (contains reached u)) [
      | inl old ↦ elim (l.closed u v old e) [
        | inl m ↦ inr ((marks v).1 (inr (FromAny-In csr frontier u v m e)))
        | inr m ↦ inr ((marks v).1 (inl m))
      ]
      | inr new ↦ inl ((news u).1 (inr (h, new)))
    ];
    complete = reaches;
  }
    where
      marks :
          (w : ℕ)
          → (contains (next_level reached frontier).0 w ≡ true)
            ↔ ((contains reached w ≡ true) ⊎ FromAny csr frontier w)
      marks w = expand_marks bitmap csr reached [] frontier w

      news :
          (w : ℕ)
          → In w (next_level reached frontier).1 ↔ (
              In w []
              ⊎ (contains (next_level reached frontier).0 w ≡ true) × (contains reached w ≡ false))
      news w = expand_next bitmap csr reached [] frontier w

      reaches :
          (w : ℕ) → Within csr from (suc j) w → contains (next_level reached frontier).0 w ≡ true
      reaches w here = (marks from).1 (inl l.source)
      reaches w (step {u = u} p e) = elim (l.closed u w (l.complete u p) e) [
        | inl m ↦ (marks w).1 (inr (FromAny-In csr frontier u w m e))
        | inr m ↦ (marks w).1 (inl m)
      ]

  -- With an empty frontier the reached set is closed, and more hops add nothing.
  Level-done :
      (j : ℕ) (reached : Bits) {k w : ℕ}
      → Level j reached []
      → Within csr from k w
      → contains reached w ≡ true
  Level-done j reached l here = l.source
  Level-done j reached {w = w} l (step {u = u} p e) =
      elim (l.closed u w (Level-done j reached l p) e) [ inl m ↦ absurd m | inr m ↦ m ]

  levels_iff :
      (hops j n : ℕ) (reached : Bits) (frontier : List ℕ) (w : ℕ)
      → j + hops ≡ n
      → Level j reached frontier
      → (contains (levels bitmap hops csr reached frontier) w ≡ true) ↔ Within csr from n w
  unfolding levels
  levels_iff zero j n reached frontier w e l = (
    λ h. Within-le csr from n (omega arith) (l.sound w h),
    λ p. l.complete w (Within-le csr from j (omega arith) p),
  )
  levels_iff (suc hops) j n reached frontier w e l =
      elim (Bool-cases (is_empty (next_level reached frontier).1)) [
        | inl done ↦ rw done (
          λ h. Within-le csr from n (omega arith) ((Level-next j reached frontier l).sound w h),
          λ p.
              Level-done (suc j) (next_level reached frontier).0
                (subst (Level (suc j) (next_level reached frontier).0) ((is_empty_iff _).0 done)
                  (Level-next j reached frontier l))
                p,
        )
        | inr more ↦ rw more (
            levels_iff hops (suc j) n (next_level reached frontier).0
              (next_level reached frontier).1 w (omega arith) (Level-next j reached frontier l))
      ]

  Level-start : Level 0 (insert empty from).0 (from ∷ [])
  Level-start = record {
    source = (marks from).1 refl;
    sound = λ w h. subst (Within csr from 0) (sym ((marks w).0 h)) here;
    queued = λ w m. elim m [ inl e ↦ (marks w).1 e | inr m' ↦ absurd m' ];
    closed = λ u v h e. inl (inl ((marks u).0 h));
    complete = reaches;
  }
    where
      marks : (w : ℕ) → (contains (insert empty from).0 w ≡ true) ↔ (w ≡ from)
      marks w = ground (arith, contains-insert empty from w, contains-empty w, nat_beq_iff w from)

      reaches : (w : ℕ) → Within csr from 0 w → contains (insert empty from).0 w ≡ true
      reaches w here = (marks from).1 refl

-- The search marks a node exactly when a walk of at most `max_hops` edges leads to it from the
-- start, on graphs with cycles too, and whether or not it stops early on an empty frontier.
pub bfs_within_iff :
    (bitmap : Bitmap) (csr : CompactCsr) (from max_hops w : ℕ)
    → (bitmap.contains (bfs_within bitmap csr from max_hops) w ≡ true) ↔ Within csr from max_hops w
unfolding bfs_within
bfs_within_iff bitmap csr from max_hops w =
    levels_iff bitmap csr from max_hops 0 max_hops _ _ w (omega arith) (Level-start bitmap csr from)
