-- ===== src/Ranking/Scores.antt =====
-- The score of an id: the sum, in the order of the lists, of the shares of the first places at which
-- they have it.
use weave_graph.Common.{
  ℕ, suc, ◌+◌, List, [], ◌∷◌, map, contains, In, Nodup, true, false, Bool-cases, ◌||◌, Option, none,
  some, ◌==◌, ==_iff, nat_eq, if◌then◌else◌, lookup, put, lookup-put, ◌≡◌, ◌⊎◌, inl, inr, refl, sym,
  ap, ◌∙◌, subst, arith,
}
use weave_graph.Ranking.{Score, or_default, add_list, add_lists}

unfoldable pub first_place : List ℕ → ℕ → Option ℕ
first_place [] x = none
first_place (id ∷ ids) x =
    if id == x then some 0 else elim (first_place ids x) [ none ↦ none | some i ↦ some (suc i) ]

module _ (score : Score) where
  open score use {Value, zero_score, add, share}

  abbrev pub counted : Option Value → Option ℕ → ℕ → Option Value
  counted before none offset = before
  counted before (some i) offset = some (add (or_default score before) (share (offset + i)))

  unfoldable pub score_onto : Option Value → List (List ℕ) → ℕ → Option Value
  unfolding first_place
  score_onto before [] x = before
  score_onto before (list ∷ lists) x = score_onto (counted before (first_place list x) 0) lists x

  unfoldable pub score_in : List (List ℕ) → ℕ → Option Value
  unfolding score_onto
  score_in lists x = score_onto none lists x

  counted-shift :
      (before : Option Value) (place : Option ℕ) (rank : ℕ)
      → counted before place (rank + 1)
        ≡ counted before (elim place [ none ↦ none | some i ↦ some (suc i) ]) rank
  counted-shift before none rank = refl
  counted-shift before (some i) rank =
      let same : rank + 1 + i ≡ rank + suc i = omega arith in
      ap (λ n. some (add (or_default score before) (share n))) same

  abbrev kept_or_put : List (ℕ × Value) → List ℕ → ℕ → Value → List (ℕ × Value)
  kept_or_put scores seen id value = if contains seen id then scores else put scores id value

  lookup-other :
      (scores : List (ℕ × Value)) (seen : List ℕ) (id x : ℕ) (value : Value)
      → (x == id) ≡ false
      → lookup (kept_or_put scores seen id value) x ≡ lookup scores x
  lookup-other scores seen id x value e = elim (Bool-cases (contains seen id)) [
    | inl c ↦ rw c refl
    | inr c ↦ rw c (lookup-put scores id x value ∙ rw e refl)
  ]

  lookup-seen :
      (scores : List (ℕ × Value)) (seen : List ℕ) (id x : ℕ) (value : Value)
      → contains seen x ≡ true
      → lookup (kept_or_put scores seen id value) x ≡ lookup scores x
  lookup-seen scores seen id x value c = elim (Bool-cases (x == id)) [
    | inl e ↦
        let here : contains seen id ≡ true =
          subst (λ y. contains seen y ≡ true) ((==_iff x id).0 e) c in
        rw here refl
    | inr e ↦ lookup-other scores seen id x value e
  ]

  lookup-add_list :
      (ids : List ℕ) (scores : List (ℕ × Value)) (seen : List ℕ) (rank x : ℕ)
      → lookup (add_list score scores seen rank ids) x ≡ (
          if contains seen x
          then lookup scores x
          else counted (lookup scores x) (first_place ids x) rank)
  unfolding add_list first_place
  lookup-add_list [] scores seen rank x = elim (Bool-cases (contains seen x)) [
    | inl e ↦ rw e refl
    | inr e ↦ rw e refl
  ]
  lookup-add_list (id ∷ ids) scores seen rank x =
      let value = add (or_default score (lookup scores id)) (share rank) in
      let sofar = kept_or_put scores seen id value in
      let rest = lookup-add_list ids sofar (id ∷ seen) (rank + 1) x in
      elim (Bool-cases (contains seen x)) [
        | inl c ↦
            let both : (x == id || contains seen x) ≡ true = ground arith in
            rw c (rw both at rest ∙ lookup-seen scores seen id x value c)
        | inr c ↦ elim (Bool-cases (x == id)) [
          | inl e ↦
              let same = (==_iff x id).0 e in
              let back : (id == x) ≡ true = (==_iff id x).1 (sym same) in
              let new : contains seen id ≡ false = subst (λ y. contains seen y ≡ false) same c in
              let held : lookup sofar x ≡ some value =
                rw new (lookup-put scores id x value ∙ rw e refl) in
              let first : rank ≡ rank + 0 = omega arith in
              rw (c, back)
                (rw e at rest
                  ∙ held
                  ∙ ap (λ y. some (add (or_default score (lookup scores y)) (share rank)))
                      (sym same)
                  ∙ ap (λ n. some (add (or_default score (lookup scores x)) (share n))) first)
          | inr e ↦
              let back : (id == x) ≡ false = ground (arith, ==_iff id x, ==_iff x id) in
              rw (c, back)
                (rw (e, c) at rest
                  ∙ ap (λ o. counted o (first_place ids x) (rank + 1))
                      (lookup-other scores seen id x value e)
                  ∙ counted-shift (lookup scores x) (first_place ids x) rank)
        ]
      ]

  lookup-add_lists :
      (lists : List (List ℕ)) (scores : List (ℕ × Value)) (x : ℕ)
      → lookup (add_lists score scores lists) x ≡ score_onto (lookup scores x) lists x
  unfolding add_lists score_onto
  lookup-add_lists [] scores x = refl
  lookup-add_lists (list ∷ lists) scores x =
      lookup-add_lists lists (add_list score scores [] 0 list) x
      ∙ ap (λ o. score_onto o lists x) (lookup-add_list list scores [] 0 x)

  pub lookup_lem :
      (lists : List (List ℕ)) (x : ℕ) → lookup (add_lists score [] lists) x ≡ score_in lists x
  unfolding score_in
  lookup_lem lists x = lookup-add_lists lists [] x

-- The keys of a map stand once in it.
abbrev pub keys_of : {V : Type 0} → List (ℕ × V) → List ℕ
keys_of m = map (λ entry. entry.0) m

keys_of-put :
    {V : Type 0} (m : List (ℕ × V)) (key x : ℕ) (value : V)
    → In x (keys_of (put m key value))
    → (x ≡ key) ⊎ In x (keys_of m)
keys_of-put [] key x value m = m
keys_of-put (entry ∷ rest) key x value m =
    ground (arith, keys_of-put rest key x value, ==_iff key entry.0)

put-Nodup :
    {V : Type 0} (m : List (ℕ × V)) (key : ℕ) (value : V)
    → Nodup (keys_of m)
    → Nodup (keys_of (put m key value))
put-Nodup [] key value h = (λ m. m, tt)
put-Nodup (entry ∷ rest) key value h = elim (Bool-cases (key == entry.0)) [
  | inl e ↦ rw e (subst (λ k. ¬ In k (keys_of rest)) (sym ((==_iff key entry.0).0 e)) h.0, h.1)
  | inr e ↦ rw e (
    λ m. elim (keys_of-put rest key entry.0 value m) [
      | inl same ↦ absurd (cc (e, (==_iff key entry.0).1 (sym same)))
      | inr old ↦ h.0 old
    ],
    put-Nodup rest key value h.1,
  )
]

key-In : {V : Type 0} (m : List (ℕ × V)) (x : ℕ) (value : V) → In (x, value) m → In x (keys_of m)
key-In [] x value m = absurd m
key-In (entry ∷ rest) x value (inl e) = inl (ap (λ p. p.0) e)
key-In (entry ∷ rest) x value (inr m) = inr (key-In rest x value m)

pub Nodup-lookup :
    {V : Type 0} (m : List (ℕ × V)) (x : ℕ) (value : V)
    → Nodup (keys_of m)
    → In (x, value) m
    → lookup m x ≡ some value
Nodup-lookup [] x value h m = absurd m
Nodup-lookup (entry ∷ rest) x value h (inl e) =
    let key : x ≡ entry.0 = ap (λ p. p.0) e in
    let held : value ≡ entry.1 = ap (λ p. p.1) e in
    rw ((==_iff x entry.0).1 key) (ap some (sym held))
Nodup-lookup (entry ∷ rest) x value h (inr m) = elim (Bool-cases (x == entry.0)) [
  | inl e ↦
      absurd
        (h.0 (subst (λ k. In k (keys_of rest)) ((==_iff x entry.0).0 e) (key-In rest x value m)))
  | inr e ↦ rw e (Nodup-lookup rest x value h.1 m)
]

module _ (score : Score) where
  open score use {Value, add, share}

  add_list-Nodup :
      (ids : List ℕ) (scores : List (ℕ × Value)) (seen : List ℕ) (rank : ℕ)
      → Nodup (keys_of scores)
      → Nodup (keys_of (add_list score scores seen rank ids))
  unfolding add_list
  add_list-Nodup [] scores seen rank h = h
  add_list-Nodup (id ∷ ids) scores seen rank h = elim (Bool-cases (contains seen id)) [
    | inl e ↦ rw e (add_list-Nodup ids scores (id ∷ seen) (rank + 1) h)
    | inr e ↦
        let value = add (or_default score (lookup scores id)) (share rank) in
        rw e (
          add_list-Nodup ids (put scores id value) (id ∷ seen) (rank + 1)
            (put-Nodup scores id value h))
  ]

  pub add_lists-Nodup :
      (lists : List (List ℕ)) (scores : List (ℕ × Value))
      → Nodup (keys_of scores)
      → Nodup (keys_of (add_lists score scores lists))
  unfolding add_lists
  add_lists-Nodup [] scores h = h
  add_lists-Nodup (list ∷ lists) scores h =
      add_lists-Nodup lists (add_list score scores [] 0 list) (add_list-Nodup list scores [] 0 h)
