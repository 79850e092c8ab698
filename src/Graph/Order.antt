-- ===== src/Graph/Order.antt =====
-- Sorting and deduplicating: the edges come in the order of their sources, the ids are distinct.
use weave_graph.Common.{
  ◌<◌, Bool, filter, subst, sym, Strictly, Relates, Pairwise, dedup-Strictly, ℕ, ◌≤◌, List, [], ◌∷◌,
  true, false, ◌≡◌, ◌↔◌, inl, inr, refl, arith, In, Nodup, leb, sort, dedup, dedup_after, IsSorted,
  Above, In-sort, In-dedup, sort-IsSorted, ◌==◌, nat_eq, Bool-cases, nat_beq_iff, In-dedup_after,
}
use weave_graph.Csr.Rows.{row, Ordered, Ordered-weaken}
use weave_graph.Graph.{pair_le, pair_eq, sort_and_dedup_edges}

pair_le_total : (a b : ℕ × ℕ) → pair_le a b ≡ false → pair_le b a ≡ true
pair_le_total a b h = ground arith

pub pair_le_trans : (a b c : ℕ × ℕ) → pair_le a b ≡ true → pair_le b c ≡ true → pair_le a c ≡ true
pair_le_trans a b c h k = ground arith

leb_total : (a b : ℕ) → leb a b ≡ false → leb b a ≡ true
leb_total a b h = ground arith

leb_trans : (a b c : ℕ) → leb a b ≡ true → leb b c ≡ true → leb a c ≡ true
leb_trans a b c h k = ground arith

leb_antisym : (a b : ℕ) → leb a b ≡ true → leb b a ≡ true → a ≡ b
leb_antisym a b h k = ground arith

Ordered-of_sorted :
    (c : ℕ) (es : List (ℕ × ℕ))
    → IsSorted pair_le es
    → ((e : ℕ × ℕ) → In e es → c ≤ e.0)
    → Ordered c es
Ordered-of_sorted c [] s h = tt
Ordered-of_sorted c (e ∷ es) s h =
    (h e (inl refl), Ordered-of_sorted e.0 es s.1 (λ f m. low e es s.0 f m))
  where
    low : (x : ℕ × ℕ) (ys : List (ℕ × ℕ)) → Above pair_le x ys → (f : ℕ × ℕ) → In f ys → x.0 ≤ f.0
    low x [] a f m = absurd m
    low x (y ∷ ys) a f (inl e') = ground arith
    low x (y ∷ ys) a f (inr m) = low x ys a.1 f m

Ordered-dedup_after :
    (c : ℕ) (e : ℕ × ℕ) (es : List (ℕ × ℕ)) → Ordered c es → Ordered c (dedup_after e es)
unfolding dedup_after
Ordered-dedup_after c e [] o = tt
Ordered-dedup_after c e (f ∷ es) o = elim (Bool-cases (e == f)) [
  | inl same ↦ rw same (Ordered-dedup_after c e es (Ordered-weaken c f.0 es o.0 o.1))
  | inr other ↦ rw other (o.0, Ordered-dedup_after f.0 f es o.1)
]

Ordered-dedup : (c : ℕ) (es : List (ℕ × ℕ)) → Ordered c es → Ordered c (dedup es)
unfolding dedup
Ordered-dedup c [] o = tt
Ordered-dedup c (e ∷ es) o = (o.0, Ordered-dedup_after e.0 e es o.1)

-- The edges are in the order that `from_sorted_edges` asks for.
pub sort_and_dedup_edges-Ordered : (es : List (ℕ × ℕ)) → Ordered 0 (sort_and_dedup_edges es)
unfolding sort_and_dedup_edges
sort_and_dedup_edges-Ordered es = Ordered-dedup 0 (sort pair_le es) (
    Ordered-of_sorted 0 (sort pair_le es) (sort-IsSorted pair_le pair_le_total pair_le_trans es)
      (λ e m. omega arith))

pub In-sort_and_dedup_edges :
    (e : ℕ × ℕ) (es : List (ℕ × ℕ)) → In e (sort_and_dedup_edges es) ↔ In e es
unfolding sort_and_dedup_edges
In-sort_and_dedup_edges e es = ground (arith, In-dedup e (sort pair_le es), In-sort pair_le e es)

-- In a sorted list of numbers the equal ones are neighbours, so deduplication leaves none.
dedup_after-Nodup :
    (a : ℕ) (xs : List ℕ)
    → IsSorted leb (a ∷ xs)
    → (¬ In a (dedup_after a xs)) × Nodup (dedup_after a xs)
unfolding dedup_after
dedup_after-Nodup a [] s = (λ m. m, tt)
dedup_after-Nodup a (x ∷ xs) s = elim (Bool-cases (a == x)) [
  | inl same ↦ rw same (dedup_after-Nodup a xs (s.0.1, s.1.1))
  | inr other ↦ rw other (
    λ m. elim m [
      | inl e ↦ ground (arith, nat_beq_iff a x)
      | inr m' ↦
          let below_a = above-le x xs s.1.0 a (elim ((In-dedup_after x a xs).0 (inr m')) [
            | inl e ↦ absurd (ground (arith, nat_beq_iff a x))
            | inr q ↦ q
          ]) in
          ground (arith, nat_beq_iff a x)
    ],
    dedup_after-Nodup x xs s.1,
  )
]
  where
    above-le : (y : ℕ) (ys : List ℕ) → Above leb y ys → (z : ℕ) → In z ys → y ≤ z
    above-le y [] h z m = absurd m
    above-le y (w ∷ ys) h z (inl e) = ground arith
    above-le y (w ∷ ys) h z (inr m) = above-le y ys h.1 z m

pub dedup-sort-Nodup : (xs : List ℕ) → Nodup (dedup (sort leb xs))
unfolding dedup
dedup-sort-Nodup xs = go (sort leb xs) (sort-IsSorted leb leb_total leb_trans xs)
  where
    go : (ys : List ℕ) → IsSorted leb ys → Nodup (dedup ys)
    go [] s = tt
    go (y ∷ ys) s = dedup_after-Nodup y ys s

pub pair_le_antisym : (a b : ℕ × ℕ) → pair_le a b ≡ true → pair_le b a ≡ true → a ≡ b
pair_le_antisym (a, c) (b, d) h k =
    let first : a ≡ b = ground arith in
    let second : c ≡ d = ground arith in λ i. (first i, second i)

-- The edges stand in their order, each once.
abbrev pub Before : ℕ × ℕ → ℕ × ℕ → Type 0
Before = Strictly pair_le pair_le_trans pair_le_antisym

pub sort_and_dedup_edges-Before : (es : List (ℕ × ℕ)) → Pairwise Before (sort_and_dedup_edges es)
unfolding sort_and_dedup_edges
sort_and_dedup_edges-Before es =
    dedup-Strictly pair_le pair_le_trans pair_le_antisym (sort pair_le es)
      (sort-IsSorted pair_le pair_le_total pair_le_trans es)

-- The targets of one source among such edges rise.
Before-row : (u v : ℕ) (es : List (ℕ × ℕ)) → Relates Before (u, v) es → Relates ◌<◌ v (row u es)
Before-row u v [] h = tt
Before-row u v ((s, t) ∷ es) h = elim (Bool-cases (s == u)) [
  | inl e ↦
      let same = (nat_beq_iff s u).0 e in
      let differ : ¬ (v ≡ t) = λ q. h.0.1 (λ i. ((sym same) i, q i)) in
      let low : v < t = ground (arith, h.0.0) in rw e (low, Before-row u v es h.1)
  | inr e ↦ rw e (Before-row u v es h.1)
]

pub row-rising : (u : ℕ) (es : List (ℕ × ℕ)) → Pairwise Before es → Pairwise ◌<◌ (row u es)
row-rising u [] h = tt
row-rising u ((s, t) ∷ es) h = elim (Bool-cases (s == u)) [
  | inl e ↦ rw e (
    Before-row u t es (subst (λ x. Relates Before (x, t) es) ((nat_beq_iff s u).0 e) h.0),
    row-rising u es h.1,
  )
  | inr e ↦ rw e (row-rising u es h.1)
]

filter-Relates :
    {A : Type 0} (R : A → A → Type 0) (p : A → Bool) (x : A) (xs : List A)
    → Relates R x xs
    → Relates R x (filter p xs)
filter-Relates R p x [] h = tt
filter-Relates R p x (y ∷ ys) h = elim (Bool-cases (p y)) [
  | inl e ↦ rw e (h.0, filter-Relates R p x ys h.1)
  | inr e ↦ rw e (filter-Relates R p x ys h.1)
]

pub filter-Pairwise :
    {A : Type 0} (R : A → A → Type 0) (p : A → Bool) (xs : List A)
    → Pairwise R xs
    → Pairwise R (filter p xs)
filter-Pairwise R p [] h = tt
filter-Pairwise R p (x ∷ xs) h = elim (Bool-cases (p x)) [
  | inl e ↦ rw e (filter-Relates R p x xs h.0, filter-Pairwise R p xs h.1)
  | inr e ↦ rw e (filter-Pairwise R p xs h.1)
]

-- Sorted ids without duplicates rise.
pub dedup-sort-rising : (xs : List ℕ) → Pairwise ◌<◌ (dedup (sort leb xs))
dedup-sort-rising xs = Strictly-rising (dedup (sort leb xs)) (
    dedup-Strictly leb leb_trans leb_antisym (sort leb xs)
      (sort-IsSorted leb leb_total leb_trans xs))
  where
    Strictly-Relates :
        (x : ℕ) (ys : List ℕ) → Relates (Strictly leb leb_trans leb_antisym) x ys → Relates ◌<◌ x ys
    Strictly-Relates x [] h = tt
    Strictly-Relates x (y ∷ ys) h = (ground (arith, h.0.0, h.0.1), Strictly-Relates x ys h.1)

    Strictly-rising :
        (ys : List ℕ) → Pairwise (Strictly leb leb_trans leb_antisym) ys → Pairwise ◌<◌ ys
    Strictly-rising [] h = tt
    Strictly-rising (y ∷ ys) h = (Strictly-Relates y ys h.0, Strictly-rising ys h.1)
