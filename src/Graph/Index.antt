-- ===== src/Graph/Index.antt =====
-- `binary_search` finds an id at its position.
use weave_graph.Common.{
  ℕ, zero, suc, ◌<◌, List, [], ◌∷◌, get_or, length, some, false, ◌≡◌, inl, inr, arith, In,
  In-get_or, Nodup, ◌==◌, nat_eq, nat_beq_iff, Option-cases, sym, subst, Bool-cases,
}
use weave_graph.Graph.{binary_search}

pub binary_search-at :
    (ids : List ℕ) (id i : ℕ)
    → binary_search ids id ≡ some i
    → (i < length ids) × (get_or ids i 0 ≡ id)
unfolding binary_search
binary_search-at [] id i h = cc
binary_search-at (x ∷ ids) id i h = elim (Bool-cases (x == id)) [
  | inl e ↦ ground (arith, nat_beq_iff x id)
  | inr e ↦ elim (Option-cases (binary_search ids id)) [
    | inl n ↦ cc (rw (e, n, binary_search) at h)
    | inr (j, f) ↦ ground (arith, binary_search-at ids id j f)
  ]
]

pub binary_search-In :
    (ids : List ℕ) (id : ℕ) → In id ids → (i : ℕ) × (binary_search ids id ≡ some i)
unfolding binary_search
binary_search-In [] id m = absurd m
binary_search-In (x ∷ ids) id m = elim (Bool-cases (x == id)) [
  | inl e ↦ (0, rw e)
  | inr e ↦
      let tail : In id ids = ground (arith, nat_beq_iff x id) in
      let (i, f) = binary_search-In ids id tail in (suc i, rw (e, f))
]

pub In-of-binary_search : (ids : List ℕ) (id i : ℕ) → binary_search ids id ≡ some i → In id ids
In-of-binary_search ids id i h =
    let (low, e) = binary_search-at ids id i h in subst (λ x. In x ids) e (In-get_or ids i 0 low)

-- With distinct ids every position is found again.
pub binary_search-get_or :
    (ids : List ℕ) (i : ℕ)
    → Nodup ids
    → i < length ids
    → binary_search ids (get_or ids i 0) ≡ some i
unfolding binary_search
binary_search-get_or [] i d h = absurd (omega arith)
binary_search-get_or (x ∷ ids) zero d h = ground arith
binary_search-get_or (x ∷ ids) (suc i) d h =
    let other : (x == get_or ids i 0) ≡ false = elim (Bool-cases (x == get_or ids i 0)) [
      | inl e ↦ absurd (
          d.0
            (subst (λ y. In y ids) (sym ((nat_beq_iff x _).0 e)) (In-get_or ids i 0 (omega arith))))
      | inr e ↦ e
    ] in
    rw (other, binary_search-get_or ids i d.1 (omega arith))
