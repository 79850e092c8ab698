-- ===== src/StringTable/Lookup.antt =====
-- A lookup answers with the place of the string among those that are in the table.
use Prim.Native.Nat.{bit_and}
use weave_graph.Common.{
  ℕ, zero, suc, ◌+◌, ◌-◌, ◌<◌, false, Bool-cases, Text, List, [], ◌∷◌, length, get_elem?, get_or,
  In, Option, none, some, Option-cases, ◌≡◌, ◌≢◌, inl, inr, sym, ap, ◌∙◌, subst, arith, ◌==◌,
  ==_iff, nat_eq, list_eq,
}
use weave_graph.Interner.Listed.{position, position-at}
use weave_graph.StringTable.{empty_slot, find_from}
use weave_graph.StringTable.Probes.{get_elem?-below, get_elem?-In, distance-lt, find_from-some}
use weave_graph.StringTable.Placed.{Meets, Placed, first_slot, some_vacancy}

pub position-lt : (xs : List Text) (s : Text) (i : ℕ) → position xs s ≡ some i → i < length xs
unfolding position
position-lt [] s i e = absurd (cc e)
position-lt (x ∷ xs) s zero e = omega arith
position-lt (x ∷ xs) s (suc i) e = ground (arith, position-lt xs s i)

pub position-none :
    (xs : List Text) (s : Text) (i : ℕ) → position xs s ≡ none → i < length xs → get_or xs i [] ≢ s
unfolding position
position-none [] s i e h = absurd (omega arith)
position-none (x ∷ xs) s zero e h = λ same. ground (arith, ==_iff x s)
position-none (x ∷ xs) s (suc i) e h = position-none xs s i (ground arith) (omega arith)

-- Each string is at its first place.
abbrev pub Distinct : List Text → Type 0
Distinct xs = (i : ℕ) → i < length xs → position xs (get_or xs i []) ≡ some i

module _ (string_of : ℕ → Text) (s : Text) (buckets : List ℕ) where
  find_from-absent :
      ((id : ℕ) → In id buckets → id ≢ empty_slot → string_of id ≢ s)
      → (fuel slot : ℕ) (r : Option ℕ)
      → find_from string_of s buckets (length buckets - 1) fuel slot ≡ some r
      → r ≡ none
  unfolding find_from
  find_from-absent absent zero slot r e = absurd (cc e)
  find_from-absent absent (suc fuel) slot r e = elim (Option-cases (get_elem? buckets slot)) [
    | inl q ↦ let nothing : none ≡ some r = rw (q, find_from) at e in absurd (cc nothing)
    | inr (id, q) ↦ elim (Bool-cases (id == empty_slot)) [
      | inl t ↦ let found : some none ≡ some r = rw (q, t, find_from) at e in cc found
      | inr t ↦ elim (Bool-cases (string_of id == s)) [
        | inl u ↦
            let full : id ≢ empty_slot = λ same. cc (t, (==_iff id empty_slot).1 same) in
            absurd (absent id (get_elem?-In buckets slot id q) full ((==_iff (string_of id) s).0 u))
        | inr u ↦
            find_from-absent absent fuel (bit_and (slot + 1) (length buckets - 1)) r
              (rw (q, t, u, find_from) at e)
      ]
    ]
  ]

  find_from-Meets :
      (id : ℕ)
      → id ≢ empty_slot
      → string_of id ≡ s
      → ((j : ℕ) → In j buckets → j ≢ empty_slot → string_of j ≡ s → j ≡ id)
      → (steps fuel slot : ℕ) (r : Option ℕ) → Meets buckets id steps slot
      → find_from string_of s buckets (length buckets - 1) fuel slot ≡ some r
      → r ≡ some id
  unfolding find_from
  find_from-Meets id full same only zero fuel slot r m e = absurd m
  find_from-Meets id full same only (suc steps) zero slot r m e = absurd (cc e)
  find_from-Meets id full same only (suc steps) (suc fuel) slot r (inl q) e =
      let no : (id == empty_slot) ≡ false = ground (arith, ==_iff id empty_slot) in
      let found : some (some id) ≡ some r =
        rw (q, no, (==_iff (string_of id) s).1 same, find_from) at e in
      let answer : some id ≡ r = cc found in sym answer
  find_from-Meets id full same only (suc steps) (suc fuel) slot r (inr (other, q, taken, m)) e =
      let no : (other == empty_slot) ≡ false = ground (arith, ==_iff other empty_slot) in
      elim (Bool-cases (string_of other == s)) [
        | inl u ↦
            let found : some (some other) ≡ some r = rw (q, no, u, find_from) at e in
            let answer : some other ≡ r = cc found in
            sym answer
            ∙ ap some (
                only other (get_elem?-In buckets slot other q) taken
                  ((==_iff (string_of other) s).0 u))
        | inr u ↦
            find_from-Meets id full same only steps fuel (bit_and (slot + 1) (length buckets - 1)) r
              m (rw (q, no, u, find_from) at e)
      ]

module _ (hash : Text → ℕ) (string_of : ℕ → Text) (xs : List Text) (buckets : List ℕ)
    (strings : (i : ℕ) → i < length xs → string_of i ≡ get_or xs i []) (distinct : Distinct xs)
    (placed : Placed (λ i. hash (get_or xs i [])) (length xs) buckets)
    (loose : length xs < length buckets) (small : length xs < empty_slot) where
  -- An id in the index is one of the strings'.
  known : (id : ℕ) → In id buckets → id ≢ empty_slot → id < length xs
  known id m full = elim (placed.valid id m) [ inl q ↦ absurd (full q) | inr l ↦ l ]

  find_from-position_at :
      (s : Text) (r : Option ℕ)
      → find_from string_of s buckets
          (length buckets - 1)
          (length buckets)
          (bit_and (hash s) (length buckets - 1))
        ≡ some r
      → r ≡ position xs s
  find_from-position_at s r e = elim (Option-cases (position xs s)) [
    | inl n ↦
        find_from-absent string_of s buckets
          (λ id m full same.
            position-none xs s id n (known id m full) (sym (strings id (known id m full)) ∙ same))
          (length buckets) (bit_and (hash s) (length buckets - 1)) r e
        ∙ sym n
    | inr (id, n) ↦
        let inside = position-lt xs s id n in
        let spelled = position-at xs s id n in
        let (steps, m) = placed.met id inside in
        find_from-Meets string_of s buckets id (λ q. omega arith) (strings id inside ∙ spelled)
          (λ j k full same.
            let there = known j k full in
            let equal : get_or xs j [] ≡ s = sym (strings j there) ∙ same in
            let both : some j ≡ some id = sym (distinct j there) ∙ ap (position xs) equal ∙ n in
            cc both)
          steps (length buckets) (bit_and (hash s) (length buckets - 1)) r
          (subst (λ t. Meets buckets id steps (bit_and (hash t) (length buckets - 1))) spelled m) e
        ∙ sym n
  ]

  pub find_from-position :
      (s : Text)
      → find_from string_of s buckets
          (length buckets - 1)
          (length buckets)
          (bit_and (hash s) (length buckets - 1))
        ≡ some (position xs s)
  find_from-position s =
      let hash_of = λ (i : ℕ). hash (get_or xs i []) in
      let first = bit_and (hash s) (length buckets - 1) in
      let there = first_slot hash_of (length xs) buckets placed (hash s) in
      let (e, vacant) = some_vacancy hash_of (length xs) buckets placed loose in
      let (r, found) =
        find_from-some placed.size.0 buckets placed.size.1 e vacant string_of s (length buckets)
          first there
          (distance-lt (length buckets) e first there
            (get_elem?-below buckets e empty_slot vacant)) in
      found ∙ ap some (find_from-position_at s r found)
