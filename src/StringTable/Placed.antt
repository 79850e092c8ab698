-- ===== src/StringTable/Placed.antt =====
-- The index of a table: each of the first ids stands on the probe sequence of its string, before an
-- empty slot. An insertion keeps this.
use Prim.Native.Nat.{bit_and}
use weave_graph.Common.{
  ℕ, zero, suc, ◌+◌, ◌-◌, ◌≤◌, ◌<◌, true, false, Bool-cases, List, [], ◌∷◌, length, filter,
  get_elem?, set, length-set, In, none, some, ◌>>=◌, Option-cases, ◌≡◌, ◌≢◌, ◌⊎◌, inl, inr, refl,
  sym, ap, ◌∙◌, subst, arith, ◌==◌, ==_iff, nat_eq,
}
use weave_graph.StringTable.{empty_slot, free_slot, put_id}
use weave_graph.StringTable.Masks.{power, power-pos, bit_and-le}
use weave_graph.StringTable.Probes.{
  get_elem?-below, get_elem?-set_same, get_elem?-set_other, distance-lt, free_slot-some,
}

-- A probe from the slot comes to the id before an empty slot.
abbrev pub Meets : List ℕ → ℕ → ℕ → ℕ → Type 0
Meets buckets id zero slot = ⊥
Meets buckets id (suc fuel) slot =
    (get_elem? buckets slot ≡ some id)
    ⊎ (other : ℕ) × (get_elem? buckets slot ≡ some other)
      × (other ≢ empty_slot)
      × Meets buckets id fuel (bit_and (slot + 1) (length buckets - 1))

abbrev pub vacancies : List ℕ → ℕ
vacancies buckets = length (filter (λ id. id == empty_slot) buckets)

pub record Placed (hash_of : ℕ → ℕ) (count : ℕ) (buckets : List ℕ) : Type 0 where
  pub size : (k : ℕ) × (length buckets ≡ power k)
  pub room : vacancies buckets + count ≡ length buckets
  pub valid : (id : ℕ) → In id buckets → (id ≡ empty_slot) ⊎ (id < count)
  pub met :
      (id : ℕ)
      → id < count
      → (fuel : ℕ) × Meets buckets id fuel (bit_and (hash_of id) (length buckets - 1))

vacancy :
    (buckets : List ℕ) → 1 ≤ vacancies buckets → (e : ℕ) × (get_elem? buckets e ≡ some empty_slot)
vacancy [] h = absurd (omega arith)
vacancy (id ∷ buckets) h = elim (Bool-cases (id == empty_slot)) [
  | inl t ↦ (0, ap some ((==_iff id empty_slot).0 t))
  | inr t ↦ let (e, q) = vacancy buckets (rw t at h) in (suc e, q)
]

vacancies-set :
    (buckets : List ℕ) (f id : ℕ)
    → get_elem? buckets f ≡ some empty_slot
    → id ≢ empty_slot
    → suc (vacancies (set buckets f id)) ≡ vacancies buckets
vacancies-set [] f id e h = absurd (cc e)
vacancies-set (x ∷ buckets) zero id e h =
    let here : x ≡ empty_slot = cc e in
    let yes : (x == empty_slot) ≡ true = (==_iff x empty_slot).1 here in
    let no : (id == empty_slot) ≡ false = ground (arith, ==_iff id empty_slot) in rw (yes, no) refl
vacancies-set (x ∷ buckets) (suc f) id e h = ground (arith, vacancies-set buckets f id e h)

In-set :
    (buckets : List ℕ) (f id other : ℕ)
    → In other (set buckets f id)
    → (other ≡ id) ⊎ In other buckets
In-set [] f id other m = absurd m
In-set (x ∷ buckets) zero id other (inl e) = inl e
In-set (x ∷ buckets) zero id other (inr m) = inr (inr m)
In-set (x ∷ buckets) (suc f) id other (inl e) = inr (inl e)
In-set (x ∷ buckets) (suc f) id other (inr m) = elim (In-set buckets f id other m) [
  | inl e ↦ inl e
  | inr n ↦ inr (inr n)
]

-- Filling an empty slot leaves the probe sequences of the other ids as they are.
set-Meets :
    (buckets : List ℕ) (f new id fuel slot : ℕ)
    → get_elem? buckets f ≡ some empty_slot
    → id ≢ empty_slot
    → Meets buckets id fuel slot
    → Meets (set buckets f new) id fuel slot
set-Meets buckets f new id zero slot e h m = m
set-Meets buckets f new id (suc fuel) slot e h (inl q) =
    let apart : f ≢ slot = λ same.
      let both : some empty_slot ≡ some id = sym e ∙ ap (get_elem? buckets) same ∙ q in
      let equal : empty_slot ≡ id = cc both in h (sym equal) in
    inl (get_elem?-set_other buckets f slot new apart ∙ q)
set-Meets buckets f new id (suc fuel) slot e h (inr (other, q, full, m)) =
    let apart : f ≢ slot = λ same.
      let both : some empty_slot ≡ some other = sym e ∙ ap (get_elem? buckets) same ∙ q in
      let equal : empty_slot ≡ other = cc both in full (sym equal) in
    let step = bit_and (slot + 1) (length buckets - 1) in
    inr (
      other,
      get_elem?-set_other buckets f slot new apart ∙ q,
      full,
      subst (λ n. Meets (set buckets f new) id fuel (bit_and (slot + 1) (n - 1)))
          (sym (length-set buckets f new)) (set-Meets buckets f new id fuel step e h m),
    )

-- The slot that a probe finds is empty, and an id that is put there is met by the same probe.
free_slot-Meets :
    (buckets : List ℕ) (new fuel slot f : ℕ)
    → free_slot buckets (length buckets - 1) fuel slot ≡ some f
    → (get_elem? buckets f ≡ some empty_slot) × Meets (set buckets f new) new fuel slot
unfolding free_slot
free_slot-Meets buckets new zero slot f e = absurd (cc e)
free_slot-Meets buckets new (suc fuel) slot f e = elim (Option-cases (get_elem? buckets slot)) [
  | inl q ↦ let nothing : none ≡ some f = rw (q, free_slot) at e in absurd (cc nothing)
  | inr (id, q) ↦ elim (Bool-cases (id == empty_slot)) [
    | inl t ↦
        let found : some slot ≡ some f = rw (q, t, free_slot) at e in
        let same : slot ≡ f = cc found in
        let vacant : get_elem? buckets slot ≡ some empty_slot =
          q ∙ ap some ((==_iff id empty_slot).0 t) in
        subst
          (λ g.
            (get_elem? buckets g ≡ some empty_slot) × Meets (set buckets g new) new (suc fuel) slot)
          same (vacant, inl (get_elem?-set_same buckets slot empty_slot new vacant))
    | inr t ↦
        let further = rw (q, t, free_slot) at e in
        let step = bit_and (slot + 1) (length buckets - 1) in
        let (vacant, m) = free_slot-Meets buckets new fuel step f further in
        let full : id ≢ empty_slot = λ same. cc (t, (==_iff id empty_slot).1 same) in
        let apart : f ≢ slot = λ same.
          let both : some empty_slot ≡ some id = sym vacant ∙ ap (get_elem? buckets) same ∙ q in
          let equal : empty_slot ≡ id = cc both in full (sym equal) in
        (
          vacant,
          inr (
            id,
            get_elem?-set_other buckets f slot new apart ∙ q,
            full,
            subst (λ n. Meets (set buckets f new) new fuel (bit_and (slot + 1) (n - 1)))
                (sym (length-set buckets f new)) m,
          ),
        )
  ]
]

module _ (hash_of : ℕ → ℕ) (count : ℕ) (buckets : List ℕ) (h : Placed hash_of count buckets) where
  pub first_slot : (hash : ℕ) → bit_and hash (length buckets - 1) < length buckets
  first_slot hash =
      omega (arith, bit_and-le hash (length buckets - 1), h.size.1, power-pos h.size.0)

  pub some_vacancy : count < length buckets → (e : ℕ) × (get_elem? buckets e ≡ some empty_slot)
  some_vacancy l = vacancy buckets (omega (arith, h.room))

  filled-Placed :
      (f : ℕ)
      → get_elem? buckets f ≡ some empty_slot
      → count < empty_slot
      → (fuel : ℕ) × Meets
          (set buckets f count)
          count
          fuel
          (bit_and (hash_of count) (length buckets - 1))
      → Placed hash_of (suc count) (set buckets f count)
  filled-Placed f e small m =
      let long = length-set buckets f count in
      record {
        size = (h.size.0, long ∙ h.size.1);
        room = omega (arith, long, h.room, vacancies-set buckets f count e (λ q. omega arith));
        valid = λ id n. elim (In-set buckets f count id n) [
          | inl q ↦ inr (omega (arith, q))
          | inr old ↦ elim (h.valid id old) [ inl q ↦ inl q | inr l ↦ inr (omega arith) ]
        ];
        met = λ id l.
            subst
              (λ n. (fuel : ℕ) × Meets (set buckets f count) id fuel (bit_and (hash_of id) (n - 1)))
              (sym long)
              (elim (Bool-cases (id == count)) [
                | inl t ↦
                    let same = (==_iff id count).0 t in
                    subst
                      (λ i.
                        (fuel : ℕ) × Meets (set buckets f count) i fuel
                          (bit_and (hash_of i) (length buckets - 1)))
                      (sym same) m
                | inr t ↦
                    let before : id < count = ground (arith, ==_iff id count) in
                    let (fuel, old) = h.met id before in
                    (
                      fuel,
                      set-Meets buckets f count id fuel (bit_and (hash_of id) (length buckets - 1))
                          e (λ q. omega arith) old,
                    )
              ]);
      }

  pub put_id-Placed :
      count < length buckets
      → count < empty_slot
      → (after : List ℕ) × (put_id (hash_of count) count buckets ≡ some after)
        × Placed hash_of (suc count) after
        × (length after ≡ length buckets)
  unfolding put_id
  put_id-Placed l small =
      let (e, vacant) = some_vacancy l in
      let first = bit_and (hash_of count) (length buckets - 1) in
      let (f, found) =
        free_slot-some h.size.0 buckets h.size.1 e vacant (length buckets) first
          (first_slot (hash_of count))
          (distance-lt (length buckets) e first (first_slot (hash_of count))
            (get_elem?-below buckets e empty_slot vacant)) in
      let (empty, m) = free_slot-Meets buckets count (length buckets) first f found in
      (
        set buckets f count,
        ap (λ o. o >>= λ slot. some (set buckets slot count)) found,
        filled-Placed f empty small (length buckets, m),
        length-set buckets f count,
      )
