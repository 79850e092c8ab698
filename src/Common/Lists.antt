-- ===== src/Common/Lists.antt =====
-- Lists measured and indexed by native numbers, membership tests, and stable sorting.
use Prim.Native.Nat.{ℕ, zero, suc, ◌+◌, ◌<◌, min}
use mathlib.Core.Path.{◌≡◌, refl, ap, sym, subst, ◌∙◌}
use mathlib.Core.Logic.{◌↔◌, ◌⊎◌, inl, inr}
use mathlib.Core.Bool.{Bool, true, false, ◌&&◌, ◌||◌}
use mathlib.Core.Option.{Option, none, some}
use mathlib.Core.List.{List, [], ◌∷◌, ◌++◌, map}
use native.Mathlib.Omega.{arith}
use weave_graph.Common.Tests.{if◌then◌else◌, nat_beq, ltb, Bool-cases, Option-cases}
use weave_graph.Common.Equality.{Eq, ◌==◌, ==_iff}

module _ {ℓ} {A : Type ℓ} where
  abbrev pub length : List A → ℕ
  length [] = 0
  length (x ∷ xs) = suc (length xs)

  abbrev pub get_elem? : List A → ℕ → Option A
  get_elem? [] i = none
  get_elem? (x ∷ xs) zero = some x
  get_elem? (x ∷ xs) (suc i) = get_elem? xs i

  abbrev pub get_or : List A → ℕ → A → A
  get_or [] i d = d
  get_or (x ∷ xs) zero d = x
  get_or (x ∷ xs) (suc i) d = get_or xs i d

  -- A write out of bounds changes nothing.
  abbrev pub set : List A → ℕ → A → List A
  set [] i v = []
  set (x ∷ xs) zero v = v ∷ xs
  set (x ∷ xs) (suc i) v = x ∷ set xs i v

  abbrev pub take : ℕ → List A → List A
  take zero xs = []
  take (suc n) [] = []
  take (suc n) (x ∷ xs) = x ∷ take n xs

  abbrev pub drop : ℕ → List A → List A
  drop zero xs = xs
  drop (suc n) [] = []
  drop (suc n) (x ∷ xs) = drop n xs

  abbrev pub replicate : ℕ → A → List A
  replicate zero a = []
  replicate (suc n) a = a ∷ replicate n a

  abbrev pub any : (A → Bool) → List A → Bool
  any p [] = false
  any p (x ∷ xs) = p x || any p xs

  abbrev pub filter : (A → Bool) → List A → List A
  filter p [] = []
  filter p (x ∷ xs) = if p x then x ∷ filter p xs else filter p xs

  abbrev pub find : (A → Bool) → List A → Option A
  find p [] = none
  find p (x ∷ xs) = if p x then some x else find p xs

  abbrev pub All {κ} : (A → Type κ) → List A → Type κ
  All P [] = Unit
  All P (x ∷ xs) = P x × All P xs

  abbrev pub is_empty : List A → Bool
  is_empty [] = true
  is_empty (x ∷ xs) = false

  pub is_empty_iff : (xs : List A) → (is_empty xs ≡ true) ↔ (xs ≡ [])
  is_empty_iff [] = (λ _. refl, λ _. refl)
  is_empty_iff (x ∷ xs) = (λ h. cc, λ h. cc)

  pub length-append : (xs ys : List A) → length (xs ++ ys) ≡ length xs + length ys
  length-append [] ys = omega arith
  length-append (x ∷ xs) ys = omega (arith, length-append xs ys)

  pub length-set : (xs : List A) (i : ℕ) (v : A) → length (set xs i v) ≡ length xs
  length-set [] i v = refl
  length-set (x ∷ xs) zero v = refl
  length-set (x ∷ xs) (suc i) v = ap suc (length-set xs i v)

  pub length-replicate : (n : ℕ) (a : A) → length (replicate n a) ≡ n
  length-replicate zero a = refl
  length-replicate (suc n) a = ap suc (length-replicate n a)

  pub length-take : (n : ℕ) (xs : List A) → length (take n xs) ≡ min n (length xs)
  length-take zero xs = omega arith
  length-take (suc n) [] = omega arith
  length-take (suc n) (x ∷ xs) = omega (arith, length-take n xs)

  pub get_or-set :
      (xs : List A) (i j : ℕ) (v d : A)
      → get_or (set xs i v) j d ≡ (if nat_beq i j && ltb i (length xs) then v else get_or xs j d)
  get_or-set [] i j v d = ground arith
  get_or-set (x ∷ xs) zero zero v d = ground arith
  get_or-set (x ∷ xs) zero (suc j) v d = ground arith
  get_or-set (x ∷ xs) (suc i) zero v d = ground arith
  get_or-set (x ∷ xs) (suc i) (suc j) v d = ground (arith, get_or-set xs i j v d)

  pub get_or-append_left :
      (xs ys : List A) (i : ℕ) (d : A) → i < length xs → get_or (xs ++ ys) i d ≡ get_or xs i d
  get_or-append_left [] ys i d h = absurd (omega arith)
  get_or-append_left (x ∷ xs) ys zero d h = refl
  get_or-append_left (x ∷ xs) ys (suc i) d h = get_or-append_left xs ys i d (omega arith)

  pub List-cases : (xs : List A) → (xs ≡ []) ⊎ ((x : A) × (rest : List A) × (xs ≡ x ∷ rest))
  List-cases [] = inl refl
  List-cases (x ∷ xs) = inr (x, xs, refl)

pub length-map {ℓ κ} :
    {A : Type ℓ} {B : Type κ} (f : A → B) (xs : List A) → length (map f xs) ≡ length xs
length-map f [] = refl
length-map f (x ∷ xs) = ap suc (length-map f xs)

abbrev pub filter_map {ℓ κ} : {A : Type ℓ} {B : Type κ} → (A → Option B) → List A → List B
filter_map f [] = []
filter_map f (x ∷ xs) = elim (f x) [ none ↦ filter_map f xs | some b ↦ b ∷ filter_map f xs ]

-- Membership by recursion, which the tactics read.
module _ {A : Type 0} where
  abbrev pub In : A → List A → Type 0
  In a [] = ⊥
  In a (x ∷ xs) = (a ≡ x) ⊎ In a xs

  pub In-cons : (a x : A) (xs : List A) → In a (x ∷ xs) → (a ≡ x) ⊎ In a xs
  In-cons a x xs m = m

  pub In-append : (a : A) (xs ys : List A) → In a (xs ++ ys) ↔ (In a xs ⊎ In a ys)
  In-append a [] ys = (inr, λ h. elim h [ inl e ↦ absurd e | inr m ↦ m ])
  In-append a (x ∷ xs) ys = ground (arith, In-append a xs ys)

  pub In-filter :
      (p : A → Bool) (a : A) (xs : List A) → In a (filter p xs) ↔ (In a xs × (p a ≡ true))
  In-filter p a [] = (λ h. absurd h, λ h. absurd h.0)
  In-filter p a (x ∷ xs) = ground (arith, In-filter p a xs, ap p {x = a} {y = x})

  pub In-get_or : (xs : List A) (i : ℕ) (d : A) → i < length xs → In (get_or xs i d) xs
  In-get_or [] i d h = absurd (omega arith)
  In-get_or (x ∷ xs) zero d h = inl refl
  In-get_or (x ∷ xs) (suc i) d h = inr (In-get_or xs i d (omega arith))

  pub In-of_any : (p : A → Bool) (xs : List A) → any p xs ≡ true → (x : A) × In x xs × (p x ≡ true)
  In-of_any p [] h = cc
  In-of_any p (x ∷ xs) h = elim (Bool-cases (p x)) [
    | inl e ↦ (x, inl refl, e)
    | inr e ↦
        let (y, m, q) = In-of_any p xs (subst (λ b. (b || any p xs) ≡ true) e h) in (y, inr m, q)
  ]

  pub any_of_In : (p : A → Bool) (xs : List A) (x : A) → In x xs → p x ≡ true → any p xs ≡ true
  any_of_In p [] x m h = absurd m
  any_of_In p (y ∷ xs) x m h = ground (arith, ap p {x = x} {y = y}, any_of_In p xs x)

  pub find-some : (p : A → Bool) (xs : List A) (x : A) → find p xs ≡ some x → In x xs × (p x ≡ true)
  find-some p [] x e = cc
  find-some p (y ∷ xs) x e = ground (arith, find-some p xs x)

  pub find-none : (p : A → Bool) (xs : List A) (x : A) → find p xs ≡ none → In x xs → p x ≡ false
  find-none p [] x e m = absurd m
  find-none p (y ∷ xs) x e m = ground (arith, find-none p xs x)

  pub In-take : (n : ℕ) (xs : List A) (x : A) → In x (take n xs) → In x xs
  In-take zero xs x m = absurd m
  In-take (suc n) [] x m = absurd m
  In-take (suc n) (y ∷ xs) x (inl e) = inl e
  In-take (suc n) (y ∷ xs) x (inr m) = inr (In-take n xs x m)

  pub All-In : (P : A → Type 0) (xs : List A) → ((x : A) → In x xs → P x) → All P xs
  All-In P [] h = tt
  All-In P (x ∷ xs) h = (h x (inl refl), All-In P xs (λ y m. h y (inr m)))

  pub All-at : (P : A → Type 0) (xs : List A) → All P xs → (x : A) → In x xs → P x
  All-at P [] h x m = absurd m
  All-at P (y ∷ xs) h x m = elim m [ inl e ↦ subst P (sym e) h.0 | inr t ↦ All-at P xs h.1 x t ]

  abbrev pub Nodup : List A → Type 0
  Nodup [] = Unit
  Nodup (x ∷ xs) = (¬ In x xs) × Nodup xs

module _ {A B : Type 0} (f : A → Option B) where
  pub In-filter_map :
      (xs : List A) (b : B) → In b (filter_map f xs) → (a : A) × In a xs × (f a ≡ some b)
  In-filter_map [] b m = absurd m
  In-filter_map (x ∷ xs) b m = elim (Option-cases (f x)) [
    | inl e ↦ let (a, n, q) = In-filter_map xs b (rw (e, filter_map) at m) in (a, inr n, q)
    | inr (c, e) ↦ elim (In-cons b c (filter_map f xs) (rw (e, filter_map) at m)) [
      | inl same ↦ (x, inl refl, e ∙ ap some (sym same))
      | inr n ↦ let (a, n', q) = In-filter_map xs b n in (a, inr n', q)
    ]
  ]

  pub filter_map-In :
      (xs : List A) (a : A) (b : B) → In a xs → f a ≡ some b → In b (filter_map f xs)
  filter_map-In [] a b m e = absurd m
  filter_map-In (x ∷ xs) a b (inl same) e =
      let q : f x ≡ some b = subst (λ y. f y ≡ some b) same e in rw (q, filter_map) (inl refl)
  filter_map-In (x ∷ xs) a b (inr m) e = elim (Option-cases (f x)) [
    | inl n ↦ rw (n, filter_map) (filter_map-In xs a b m e)
    | inr (c, n) ↦ rw (n, filter_map) (inr (filter_map-In xs a b m e))
  ]

module _ {A B : Type 0} (f : A → B) where
  pub In-map : (xs : List A) (b : B) → In b (map f xs) → (a : A) × In a xs × (b ≡ f a)
  In-map [] b m = absurd m
  In-map (x ∷ xs) b (inl e) = (x, inl refl, e)
  In-map (x ∷ xs) b (inr m) = let (a, n, e) = In-map xs b m in (a, inr n, e)

  pub map-In : (xs : List A) (a : A) → In a xs → In (f a) (map f xs)
  map-In [] a m = absurd m
  map-In (x ∷ xs) a (inl e) = inl (ap f e)
  map-In (x ∷ xs) a (inr m) = inr (map-In xs a m)

module _ {A : Type 0} ⦃o : Eq A⦄ where
  abbrev pub contains : List A → A → Bool
  contains [] a = false
  contains (x ∷ xs) a = (a == x) || contains xs a

  pub contains_iff : (xs : List A) (a : A) → (contains xs a ≡ true) ↔ In a xs
  contains_iff [] a = (λ h. cc, λ h. absurd h)
  contains_iff (x ∷ xs) a = ground (arith, ==_iff a x, contains_iff xs a)
