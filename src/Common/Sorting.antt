-- ===== src/Common/Sorting.antt =====
-- `sort`, `sort_by` and `dedup` of the standard library: a stable sort by a total order.
use Prim.Native.Nat.{ℕ, zero, suc}
use mathlib.Core.Path.{◌≡◌, refl, sym, subst}
use mathlib.Core.Logic.{◌↔◌, ◌⊎◌, inl, inr}
use mathlib.Core.Bool.{Bool, true, false}
use mathlib.Core.List.{List, [], ◌∷◌, Perm}
use mathlib.Core.List.Perm
use native.Mathlib.Omega.{arith}
use weave_graph.Common.Tests.{if◌then◌else◌, Bool-cases}
use weave_graph.Common.Equality.{Eq, ◌==◌, ==_iff}
use weave_graph.Common.Lists.{length, In, take}

module _ {A : Type 0} where
  -- Every element stands in the relation to all that follow it.
  abbrev pub Relates : (A → A → Type 0) → A → List A → Type 0
  Relates R x [] = Unit
  Relates R x (y ∷ ys) = R x y × Relates R x ys

  abbrev pub Pairwise : (A → A → Type 0) → List A → Type 0
  Pairwise R [] = Unit
  Pairwise R (x ∷ xs) = Relates R x xs × Pairwise R xs

module _ {A : Type 0} (le : A → A → Bool) where
  unfoldable pub insert_sorted : A → List A → List A
  insert_sorted x [] = x ∷ []
  insert_sorted x (y ∷ ys) = if le x y then x ∷ y ∷ ys else y ∷ insert_sorted x ys

  unfoldable pub sort : List A → List A
  unfolding insert_sorted
  sort [] = []
  sort (x ∷ xs) = insert_sorted x (sort xs)

  -- Every element is below all that follow it.
  abbrev pub Above : A → List A → Type 0
  Above x [] = Unit
  Above x (y ∷ ys) = (le x y ≡ true) × Above x ys

  abbrev pub IsSorted : List A → Type 0
  IsSorted [] = Unit
  IsSorted (x ∷ xs) = Above x xs × IsSorted xs

  Above-Relates :
      (R : A → A → Type 0)
      → ((x y : A) → le x y ≡ true → R x y)
      → (x : A) (ys : List A) → Above x ys
      → Relates R x ys
  Above-Relates R h x [] a = tt
  Above-Relates R h x (y ∷ ys) a = (h x y a.0, Above-Relates R h x ys a.1)

  pub IsSorted-Pairwise :
      (R : A → A → Type 0)
      → ((x y : A) → le x y ≡ true → R x y)
      → (xs : List A) → IsSorted xs
      → Pairwise R xs
  IsSorted-Pairwise R h [] s = tt
  IsSorted-Pairwise R h (x ∷ xs) s = (Above-Relates R h x xs s.0, IsSorted-Pairwise R h xs s.1)

  pub Above-at : (x y : A) (ys : List A) → Above x ys → In y ys → le x y ≡ true
  Above-at x y [] h m = absurd m
  Above-at x y (z ∷ ys) h (inl e) = subst (λ w. le x w ≡ true) (sym e) h.0
  Above-at x y (z ∷ ys) h (inr m) = Above-at x y ys h.1 m

  -- The first elements of a sorted list are below the others.
  pub take_least :
      (n : ℕ) (xs : List A) (a b : A)
      → IsSorted xs
      → In a (take n xs)
      → In b xs
      → In b (take n xs) ⊎ (le a b ≡ true)
  take_least zero xs a b s m k = absurd m
  take_least (suc n) [] a b s m k = absurd m
  take_least (suc n) (x ∷ xs) a b (h, s) (inl e) (inl k) = inl (inl k)
  take_least (suc n) (x ∷ xs) a b (h, s) (inl e) (inr m) =
      inr (subst (λ w. le w b ≡ true) (sym e) (Above-at x b xs h m))
  take_least (suc n) (x ∷ xs) a b (h, s) (inr m) (inl k) = inl (inl k)
  take_least (suc n) (x ∷ xs) a b (h, s) (inr m) (inr k) = elim (take_least n xs a b s m k) [
    | inl t ↦ inl (inr t)
    | inr t ↦ inr t
  ]

  pub In-insert_sorted : (a x : A) (xs : List A) → In a (insert_sorted x xs) ↔ ((a ≡ x) ⊎ In a xs)
  unfolding insert_sorted
  In-insert_sorted a x [] = (λ h. h, λ h. h)
  In-insert_sorted a x (y ∷ ys) = ground (arith, In-insert_sorted a x ys)

  pub In-sort : (a : A) (xs : List A) → In a (sort xs) ↔ In a xs
  unfolding sort
  In-sort a [] = (λ h. h, λ h. h)
  In-sort a (x ∷ xs) = ground (arith, In-insert_sorted a x (sort xs), In-sort a xs)

  pub length-insert_sorted : (x : A) (xs : List A) → length (insert_sorted x xs) ≡ suc (length xs)
  unfolding insert_sorted
  length-insert_sorted x [] = refl
  length-insert_sorted x (y ∷ ys) = ground (arith, length-insert_sorted x ys)

  pub length-sort : (xs : List A) → length (sort xs) ≡ length xs
  unfolding sort
  length-sort [] = refl
  length-sort (x ∷ xs) = omega (arith, length-insert_sorted x (sort xs), length-sort xs)

  insert_sorted-perm : (x : A) (xs : List A) → Perm (insert_sorted x xs) (x ∷ xs)
  unfolding insert_sorted
  insert_sorted-perm x [] = Perm.refl (x ∷ [])
  insert_sorted-perm x (y ∷ ys) = elim (Bool-cases (le x y)) [
    | inl e ↦ rw e (Perm.refl (x ∷ y ∷ ys))
    | inr e ↦ rw e (Perm.trans (Perm.cons y (insert_sorted-perm x ys)) (Perm.swap x y ys))
  ]

  pub sort-perm : (xs : List A) → Perm (sort xs) xs
  unfolding sort
  sort-perm [] = Perm.nil
  sort-perm (x ∷ xs) = Perm.trans (insert_sorted-perm x (sort xs)) (Perm.cons x (sort-perm xs))

  module _ (total : (x y : A) → le x y ≡ false → le y x ≡ true)
      (trans : (x y z : A) → le x y ≡ true → le y z ≡ true → le x z ≡ true) where
    Above-trans : (x y : A) (ys : List A) → le x y ≡ true → Above y ys → Above x ys
    Above-trans x y [] h a = tt
    Above-trans x y (z ∷ zs) h a = (trans x y z h a.0, Above-trans x y zs h a.1)

    Above-insert_sorted :
        (a x : A) (xs : List A) → le a x ≡ true → Above a xs → Above a (insert_sorted x xs)
    unfolding insert_sorted
    Above-insert_sorted a x [] h k = (h, tt)
    Above-insert_sorted a x (y ∷ ys) h k = elim (Bool-cases (le x y)) [
      | inl e ↦ rw e (h, k)
      | inr e ↦ rw e (k.0, Above-insert_sorted a x ys h k.1)
    ]

    insert_sorted-IsSorted : (x : A) (xs : List A) → IsSorted xs → IsSorted (insert_sorted x xs)
    unfolding insert_sorted
    insert_sorted-IsSorted x [] h = (tt, tt)
    insert_sorted-IsSorted x (y ∷ ys) h = elim (Bool-cases (le x y)) [
      | inl e ↦ rw e ((e, Above-trans x y ys e h.0), h)
      | inr e ↦ rw e (Above-insert_sorted y x ys (total x y e) h.0, insert_sorted-IsSorted x ys h.1)
    ]

    pub sort-IsSorted : (xs : List A) → IsSorted (sort xs)
    unfolding sort
    sort-IsSorted [] = tt
    sort-IsSorted (x ∷ xs) = insert_sorted-IsSorted x (sort xs) (sort-IsSorted xs)

-- `Vec::dedup`: consecutive equal elements collapse to the first.
module _ {A : Type 0} ⦃o : Eq A⦄ where
  unfoldable pub dedup_after : A → List A → List A
  dedup_after a [] = []
  dedup_after a (x ∷ xs) = if a == x then dedup_after a xs else x ∷ dedup_after x xs

  unfoldable pub dedup : List A → List A
  unfolding dedup_after
  dedup [] = []
  dedup (x ∷ xs) = x ∷ dedup_after x xs

  pub In-dedup_after :
      (a b : A) (xs : List A) → ((b ≡ a) ⊎ In b (dedup_after a xs)) ↔ ((b ≡ a) ⊎ In b xs)
  unfolding dedup_after
  In-dedup_after a b [] = (λ h. h, λ h. h)
  In-dedup_after a b (x ∷ xs) =
      ground (arith, ==_iff a x, In-dedup_after a b xs, In-dedup_after x b xs)

  pub In-dedup : (b : A) (xs : List A) → In b (dedup xs) ↔ In b xs
  unfolding dedup
  In-dedup b [] = (λ h. h, λ h. h)
  In-dedup b (x ∷ xs) = In-dedup_after x b xs

-- In a sorted list equal elements are neighbours, so deduplication leaves each element once.
module _ {A : Type 0} ⦃o : Eq A⦄ (le : A → A → Bool)
    (trans : (x y z : A) → le x y ≡ true → le y z ≡ true → le x z ≡ true)
    (antisym : (x y : A) → le x y ≡ true → le y x ≡ true → x ≡ y) where
  -- Before the other one, and another one.
  abbrev pub Strictly : A → A → Type 0
  Strictly x y = (le x y ≡ true) × (¬ (x ≡ y))

  -- What is strictly before the first element is strictly before those that are left.
  dedup_after-Relates :
      (a x : A) (xs : List A)
      → Strictly a x
      → IsSorted le (x ∷ xs)
      → Relates Strictly a (dedup_after x xs)
  unfolding dedup_after
  dedup_after-Relates a x [] h s = tt
  dedup_after-Relates a x (y ∷ ys) h s = elim (Bool-cases (x == y)) [
    | inl e ↦ rw e (dedup_after-Relates a x ys h (s.0.1, s.1.1))
    | inr e ↦
        let below : Strictly a y = (
          trans a x y h.0 s.0.0,
          λ same. h.1 (antisym a x h.0 (subst (λ z. le x z ≡ true) (sym same) s.0.0)),
        ) in
        rw e (below, dedup_after-Relates a y ys below s.1)
  ]

  dedup_after-Strictly :
      (x : A) (xs : List A)
      → IsSorted le (x ∷ xs)
      → Relates Strictly x (dedup_after x xs) × Pairwise Strictly (dedup_after x xs)
  unfolding dedup_after
  dedup_after-Strictly x [] s = (tt, tt)
  dedup_after-Strictly x (y ∷ ys) s = elim (Bool-cases (x == y)) [
    | inl e ↦ rw e (dedup_after-Strictly x ys (s.0.1, s.1.1))
    | inr e ↦
        let below : Strictly x y = (s.0.0, λ same. cc (e, (==_iff x y).1 same)) in
        rw e ((below, dedup_after-Relates x y ys below s.1), dedup_after-Strictly y ys s.1)
  ]

  pub dedup-Strictly : (xs : List A) → IsSorted le xs → Pairwise Strictly (dedup xs)
  unfolding dedup
  dedup-Strictly [] s = tt
  dedup-Strictly (x ∷ xs) s = dedup_after-Strictly x xs s
