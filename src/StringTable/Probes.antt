-- ===== src/StringTable/Probes.antt =====
-- The probe sequence: from any slot it comes to each slot of the table, so that it ends at an empty
-- one.
use Prim.Native.Nat.{bit_and}
use weave_graph.Common.{
  ℕ, zero, suc, ◌+◌, ◌-◌, ◌<◌, leb, Bool-cases, Text, List, [], ◌∷◌, length, get_elem?, set, In,
  Option, none, some, ◌≡◌, ◌≢◌, inl, inr, refl, sym, ap, ◌∙◌, subst, arith, ◌==◌, ==_iff, nat_eq,
  list_eq, if◌then◌else◌,
}
use weave_graph.StringTable.{empty_slot, free_slot, find_from}
use weave_graph.StringTable.Masks.{power, bit_and-next}

module _ {A : Type 0} where
  pub get_elem?-some : (xs : List A) (i : ℕ) → i < length xs → (x : A) × (get_elem? xs i ≡ some x)
  get_elem?-some [] i h = absurd (omega arith)
  get_elem?-some (x ∷ xs) zero h = (x, refl)
  get_elem?-some (x ∷ xs) (suc i) h = get_elem?-some xs i (omega arith)

  pub get_elem?-below : (xs : List A) (i : ℕ) (x : A) → get_elem? xs i ≡ some x → i < length xs
  get_elem?-below [] i x e = absurd (cc e)
  get_elem?-below (y ∷ xs) zero x e = omega arith
  get_elem?-below (y ∷ xs) (suc i) x e = omega (arith, get_elem?-below xs i x e)

  pub get_elem?-In : (xs : List A) (i : ℕ) (x : A) → get_elem? xs i ≡ some x → In x xs
  get_elem?-In [] i x e = absurd (cc e)
  get_elem?-In (y ∷ xs) zero x e = let same : y ≡ x = cc e in inl (sym same)
  get_elem?-In (y ∷ xs) (suc i) x e = inr (get_elem?-In xs i x e)

  pub get_elem?-set_same :
      (xs : List A) (i : ℕ) (x v : A) → get_elem? xs i ≡ some x → get_elem? (set xs i v) i ≡ some v
  get_elem?-set_same [] i x v e = absurd (cc e)
  get_elem?-set_same (y ∷ xs) zero x v e = refl
  get_elem?-set_same (y ∷ xs) (suc i) x v e = get_elem?-set_same xs i x v e

  pub get_elem?-set_other :
      (xs : List A) (i j : ℕ) (v : A) → i ≢ j → get_elem? (set xs i v) j ≡ get_elem? xs j
  get_elem?-set_other [] i j v h = refl
  get_elem?-set_other (y ∷ xs) zero zero v h = absurd (h refl)
  get_elem?-set_other (y ∷ xs) zero (suc j) v h = refl
  get_elem?-set_other (y ∷ xs) (suc i) zero v h = refl
  get_elem?-set_other (y ∷ xs) (suc i) (suc j) v h =
      get_elem?-set_other xs i j v (λ e. h (ap suc e))

abbrev pub next_slot : ℕ → ℕ → ℕ
next_slot n slot = if leb n (slot + 1) then 0 else slot + 1

-- The number of steps from a slot to another one.
abbrev pub distance : ℕ → ℕ → ℕ → ℕ
distance n e slot = if leb slot e then e - slot else n - slot + e

distance-next :
    (n e slot : ℕ)
    → slot < n
    → e < n
    → slot ≢ e
    → suc (distance n e (next_slot n slot)) ≡ distance n e slot
distance-next n e slot l m h = ground arith

next_slot-lt : (n slot : ℕ) → slot < n → next_slot n slot < n
next_slot-lt n slot h = ground arith

pub distance-lt : (n e slot : ℕ) → slot < n → e < n → distance n e slot < n
distance-lt n e slot h l = ground arith

module _ (k : ℕ) (buckets : List ℕ) (sized : length buckets ≡ power k) where
  next-mask :
      (slot : ℕ)
      → slot < length buckets
      → bit_and (slot + 1) (length buckets - 1) ≡ next_slot (length buckets) slot
  next-mask slot h =
      subst (λ n. bit_and (slot + 1) (n - 1) ≡ next_slot n slot) (sym sized)
        (bit_and-next k slot (omega (arith, sized)))

  module _ (e : ℕ) (vacant : get_elem? buckets e ≡ some empty_slot) where
    -- A probe that is not at the empty slot comes one step closer to it.
    closer :
        (slot id fuel : ℕ)
        → slot < length buckets
        → get_elem? buckets slot ≡ some id
        → id ≢ empty_slot
        → distance (length buckets) e slot < suc fuel
        → (bit_and (slot + 1) (length buckets - 1) < length buckets)
          × (distance (length buckets) e (bit_and (slot + 1) (length buckets - 1)) < fuel)
    closer slot id fuel h q full l =
        let differ : slot ≢ e = λ same.
          let both : some id ≡ some empty_slot = sym q ∙ ap (get_elem? buckets) same ∙ vacant in
          full (cc both) in
        rw (next-mask slot h) (
          next_slot-lt (length buckets) slot h,
          omega (
            arith,
            distance-next (length buckets) e slot h (get_elem?-below buckets e empty_slot vacant)
                differ,
          ),
        )

    pub free_slot-some :
        (fuel slot : ℕ)
        → slot < length buckets
        → distance (length buckets) e slot < fuel
        → (f : ℕ) × (free_slot buckets (length buckets - 1) fuel slot ≡ some f)
    unfolding free_slot
    free_slot-some zero slot h l = absurd (omega arith)
    free_slot-some (suc fuel) slot h l =
        let (id, q) = get_elem?-some buckets slot h in
        elim (Bool-cases (id == empty_slot)) [
          | inl t ↦ (slot, rw (q, t, free_slot) refl)
          | inr t ↦
              let full : id ≢ empty_slot = λ same. cc (t, (==_iff id empty_slot).1 same) in
              let (h', l') = closer slot id fuel h q full l in
              let (f, r) = free_slot-some fuel (bit_and (slot + 1) (length buckets - 1)) h' l' in
              (f, rw (q, t, free_slot) r)
        ]

    pub find_from-some :
        (string_of : ℕ → Text) (s : Text) (fuel slot : ℕ)
        → slot < length buckets
        → distance (length buckets) e slot < fuel
        → (r : Option ℕ) × (find_from string_of s buckets (length buckets - 1) fuel slot ≡ some r)
    unfolding find_from
    find_from-some string_of s zero slot h l = absurd (omega arith)
    find_from-some string_of s (suc fuel) slot h l =
        let (id, q) = get_elem?-some buckets slot h in
        elim (Bool-cases (id == empty_slot)) [
          | inl t ↦ (none, rw (q, t, find_from) refl)
          | inr t ↦ elim (Bool-cases (string_of id == s)) [
            | inl u ↦ (some id, rw (q, t, u, find_from) refl)
            | inr u ↦
                let full : id ≢ empty_slot = λ same. cc (t, (==_iff id empty_slot).1 same) in
                let (h', l') = closer slot id fuel h q full l in
                let (r, p) =
                  find_from-some string_of s fuel (bit_and (slot + 1) (length buckets - 1)) h' l' in
                (r, rw (q, t, u, find_from) p)
          ]
        ]
