-- ===== src/Csr/Rows.antt =====
-- Rows of a list of edges ordered by source: where each starts, and what it holds.
use weave_graph.Common.{
  ℕ, suc, ◌+◌, ◌-◌, ◌≤◌, ◌<◌, List, [], ◌∷◌, ◌++◌, map, length, filter, Bool, ◌&&◌, if◌then◌else◌,
  ltb, ◌==◌, nat_eq, ◌≡◌, refl, arith, ◌∙◌, ap, inl, inr, trichotomy,
}
use weave_graph.Csr.{slice}

-- The edges in order of their sources, none below `c`.
abbrev pub Ordered : ℕ → List (ℕ × ℕ) → Type 0
Ordered c [] = Unit
Ordered c (e ∷ es) = (c ≤ e.0) × Ordered e.0 es

-- How many edges have a source below `i`.
abbrev pub below : ℕ → List (ℕ × ℕ) → ℕ
below i [] = 0
below i (e ∷ es) = (if ltb e.0 i then 1 else 0) + below i es

-- The edges with both ends among the nodes.
abbrev pub in_range : ℕ → ℕ × ℕ → Bool
in_range n e = ltb e.0 n && ltb e.1 n

-- The targets of the edges out of `u`.
abbrev pub row : ℕ → List (ℕ × ℕ) → List ℕ
row u [] = []
row u (e ∷ es) = if e.0 == u then e.1 ∷ row u es else row u es

unfoldable pub targets : List (ℕ × ℕ) → List ℕ
targets = map (λ e. e.1)

pub Ordered-weaken : (c d : ℕ) (es : List (ℕ × ℕ)) → c ≤ d → Ordered d es → Ordered c es
Ordered-weaken c d [] h o = tt
Ordered-weaken c d (e ∷ es) h o = (omega arith, o.1)

pub Ordered-filter :
    (c n : ℕ) (es : List (ℕ × ℕ)) → Ordered c es → Ordered c (filter (in_range n) es)
Ordered-filter c n [] o = tt
Ordered-filter c n (e ∷ es) o =
    ground (arith, Ordered-filter e.0 n es, Ordered-filter c n es, Ordered-weaken c e.0 es)

pub below_low : (i c : ℕ) (es : List (ℕ × ℕ)) → Ordered c es → i ≤ c → below i es ≡ 0
below_low i c [] o h = refl
below_low i c (e ∷ es) o h = ground (arith, below_low i e.0 es)

pub row_low : (i c : ℕ) (es : List (ℕ × ℕ)) → Ordered c es → i < c → row i es ≡ []
row_low i c [] o h = refl
row_low i c (e ∷ es) o h = ground (arith, row_low i e.0 es)

pub below-append : (i : ℕ) (es fs : List (ℕ × ℕ)) → below i (es ++ fs) ≡ below i es + below i fs
below-append i [] fs = omega arith
below-append i (e ∷ es) fs = omega (arith, below-append i es fs)

pub below-le : (i : ℕ) (es : List (ℕ × ℕ)) → below i es ≤ length es
below-le i [] = omega arith
below-le i (e ∷ es) = ground (arith, below-le i es)

pub below_mono : (i j : ℕ) (es : List (ℕ × ℕ)) → i ≤ j → below i es ≤ below j es
below_mono i j [] h = omega arith
below_mono i j (e ∷ es) h = ground (arith, below_mono i j es h)

slice_skip :
    (b : ℕ) (ts : List ℕ) (p q p' q' : ℕ)
    → p' ≡ suc p
    → q' ≡ suc q
    → slice (b ∷ ts) p' q' ≡ slice ts p q
slice_skip b ts p q p' q' e f = rw (e, f) (let d : suc q - suc p ≡ q - p = omega arith in rw d)

slice_here :
    (b : ℕ) (ts : List ℕ) (p q p' q' : ℕ)
    → p' ≡ 0
    → p ≡ 0
    → q' ≡ suc q
    → slice (b ∷ ts) p' q' ≡ b ∷ slice ts p q
slice_here b ts p q p' q' e g f =
    rw (e, f, g)
      (let d : suc q - 0 ≡ suc q = omega arith in let d' : q - 0 ≡ q = omega arith in rw (d, d'))

slice_none : (ts : List ℕ) (p q : ℕ) → q ≡ 0 → slice ts p q ≡ []
slice_none ts p q e = rw e (let d : 0 - p ≡ 0 = omega arith in rw d)

-- The slice between the two offsets is the row.
pub slice-below :
    (u c : ℕ) (es : List (ℕ × ℕ))
    → Ordered c es
    → slice (targets es) (below u es) (below (u + 1) es) ≡ row u es
unfolding targets
slice-below u c [] o = ground arith
slice-below u c (e ∷ es) o = elim (trichotomy e.0 u) [
  | inl before ↦
      slice_skip e.1 (targets es) (below u es) (below (u + 1) es) _ _ (ground arith) (ground arith)
      ∙ slice-below u e.0 es o.1
      ∙ ground arith
  | inr (inl here) ↦
      slice_here e.1 (targets es) (below u es) (below (u + 1) es) _ _
        (ground (arith, below_low u e.0 es)) (below_low u e.0 es o.1 (omega arith)) (ground arith)
      ∙ ap (λ r. e.1 ∷ r) (slice-below u e.0 es o.1)
      ∙ ground arith
  | inr (inr after) ↦
      slice_none (targets (e ∷ es)) (below u (e ∷ es)) (below (u + 1) (e ∷ es))
        (ground (arith, below_low (u + 1) e.0 es))
      ∙ ground (arith, row_low u e.0 es)
]
