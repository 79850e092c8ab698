-- ===== src/Reverse/Scatter.antt =====
-- The counting sort over a list of arcs: where each arc is placed.
use mathlib.Core.List.{append-nil, append_assoc}
use weave_graph.Common.{
  ℕ, zero, suc, ◌+◌, ◌≤◌, ◌<◌, List, [], ◌∷◌, ◌++◌, length, get_or, set, ◌==◌, nat_eq, nat_beq_iff,
  ltb, if◌then◌else◌, ◌≡◌, ◌≢◌, refl, sym, ap, ◌∙◌, arith, inl, inr, Bool-cases, length-set,
  get_or-set, In, trichotomy, subst,
}

-- Arcs `(u, v)`: the sources of those into `v`, how many those are, and how many go below `v`.
abbrev pub sources : ℕ → List (ℕ × ℕ) → List ℕ
sources v [] = []
sources v (a ∷ arcs) = if a.1 == v then a.0 ∷ sources v arcs else sources v arcs

abbrev pub into : ℕ → List (ℕ × ℕ) → ℕ
into v [] = 0
into v (a ∷ arcs) = (if a.1 == v then 1 else 0) + into v arcs

abbrev pub base : ℕ → List (ℕ × ℕ) → ℕ
base v [] = 0
base v (a ∷ arcs) = (if ltb a.1 v then 1 else 0) + base v arcs

abbrev pub heads : List (ℕ × ℕ) → List ℕ
heads [] = []
heads (a ∷ arcs) = a.1 ∷ heads arcs

abbrev pub place_arc : List ℕ × List ℕ → ℕ × ℕ → List ℕ × List ℕ
place_arc state a =
    (set state.0 a.1 (get_or state.0 a.1 0 + 1), set state.1 (get_or state.0 a.1 0) a.0)

unfoldable pub place_arcs : List ℕ × List ℕ → List (ℕ × ℕ) → List ℕ × List ℕ
place_arcs state [] = state
place_arcs state (a ∷ arcs) = place_arcs (place_arc state a) arcs

pub length-sources : (v : ℕ) (arcs : List (ℕ × ℕ)) → length (sources v arcs) ≡ into v arcs
length-sources v [] = refl
length-sources v (a ∷ arcs) = ground (arith, length-sources v arcs)

pub base_suc : (v : ℕ) (arcs : List (ℕ × ℕ)) → base (v + 1) arcs ≡ base v arcs + into v arcs
base_suc v [] = omega arith
base_suc v (a ∷ arcs) = ground (arith, base_suc v arcs)

pub base_mono : (v w : ℕ) (arcs : List (ℕ × ℕ)) → v ≤ w → base v arcs ≤ base w arcs
base_mono v w [] h = omega arith
base_mono v w (a ∷ arcs) h = ground (arith, base_mono v w arcs h)

pub base-le : (v : ℕ) (arcs : List (ℕ × ℕ)) → base v arcs ≤ length arcs
base-le v [] = omega arith
base-le v (a ∷ arcs) = ground (arith, base-le v arcs)

into-append : (v : ℕ) (xs ys : List (ℕ × ℕ)) → into v (xs ++ ys) ≡ into v xs + into v ys
into-append v [] ys = omega arith
into-append v (a ∷ xs) ys = omega (arith, into-append v xs ys)

sources-append :
    (v : ℕ) (xs ys : List (ℕ × ℕ)) → sources v (xs ++ ys) ≡ sources v xs ++ sources v ys
sources-append v [] ys = refl
sources-append v (a ∷ xs) ys = ground (arith, sources-append v xs ys)

-- After the arcs `done` of `all`: the next free slot of every row, and the slots that are filled.
pub record Placed (n : ℕ) (all done : List (ℕ × ℕ)) (state : List ℕ × List ℕ) : Type 0 where
  pub offsets : length state.0 ≡ n + 1
  pub slots : length state.1 ≡ length all
  pub current : (v : ℕ) → v < n → get_or state.0 v 0 ≡ base v all + into v done
  pub filled :
      (v k : ℕ)
      → v < n
      → k < into v done
      → get_or state.1 (base v all + k) 0 ≡ get_or (sources v done) k 0

get_or-snoc : (xs : List ℕ) (x k : ℕ) → k ≡ length xs → get_or (xs ++ x ∷ []) k 0 ≡ x
get_or-snoc [] x k h = ground arith
get_or-snoc (y ∷ xs) x zero h = absurd (omega arith)
get_or-snoc (y ∷ xs) x (suc k) h = get_or-snoc xs x k (omega arith)

get_or-snoc_before :
    (xs : List ℕ) (x k : ℕ) → k < length xs → get_or (xs ++ x ∷ []) k 0 ≡ get_or xs k 0
get_or-snoc_before [] x k h = absurd (omega arith)
get_or-snoc_before (y ∷ xs) x zero h = refl
get_or-snoc_before (y ∷ xs) x (suc k) h = get_or-snoc_before xs x k (omega arith)

-- Slots of different rows are different, and a row has room for its arcs.
apart :
    (all : List (ℕ × ℕ)) (v w j k : ℕ)
    → j < into v all
    → k < into w all
    → v ≢ w
    → base v all + j ≢ base w all + k
apart all v w j k hj hk ne e = elim (trichotomy v w) [
  | inl lt ↦ absurd (omega (arith, base_suc v all, base_mono (v + 1) w all (omega arith)))
  | inr (inl same) ↦ ne same
  | inr (inr gt) ↦ absurd (omega (arith, base_suc w all, base_mono (w + 1) v all (omega arith)))
]

fits : (all : List (ℕ × ℕ)) (v j : ℕ) → j < into v all → base v all + j < length all
fits all v j h = omega (arith, base_suc v all, base-le (v + 1) all)

into_snoc :
    (v : ℕ) (done : List (ℕ × ℕ)) (a : ℕ × ℕ)
    → into v (done ++ a ∷ []) ≡ into v done + (if a.1 == v then 1 else 0)
into_snoc v done a = omega (arith, into-append v done (a ∷ []))

module _ (n : ℕ) (all done : List (ℕ × ℕ)) (state : List ℕ × List ℕ) (a : ℕ × ℕ)
    (p : Placed n all done state) (inside : a.1 < n) (room : into a.1 done < into a.1 all) where
  place_arc-current :
      (v : ℕ) → v < n → get_or (place_arc state a).0 v 0 ≡ base v all + into v (done ++ a ∷ [])
  place_arc-current v h = ground (
    arith,
    get_or-set state.0 a.1 v (get_or state.0 a.1 0 + 1) 0,
    p.current v,
    p.offsets,
    into_snoc v done a,
    nat_beq_iff a.1 v,
  )

  -- The slot of the new arc.
  slot_new : get_or (place_arc state a).1 (base a.1 all + into a.1 done) 0 ≡ a.0
  slot_new = ground (
    arith,
    get_or-set state.1 (get_or state.0 a.1 0) (base a.1 all + into a.1 done) a.0 0,
    p.current a.1,
    p.slots,
    fits all a.1 (into a.1 done),
  )

  -- A slot that was filled before keeps its source.
  slot_old :
      (v k : ℕ)
      → v < n
      → k < into v all
      → (v ≡ a.1 → k < into v done)
      → get_or (place_arc state a).1 (base v all + k) 0 ≡ get_or state.1 (base v all + k) 0
  slot_old v k h room_v old = elim (Bool-cases (a.1 == v)) [
    | inl e ↦
        let same = (nat_beq_iff a.1 v).0 e in
        let low = old (sym same) in
        ground (
          arith,
          get_or-set state.1 (get_or state.0 a.1 0) (base v all + k) a.0 0,
          p.current a.1,
          same,
          low,
        )
    | inr e ↦ ground (
      arith,
      get_or-set state.1 (get_or state.0 a.1 0) (base v all + k) a.0 0,
      p.current a.1,
      apart all a.1 v (into a.1 done) k,
      nat_beq_iff a.1 v,
    )
  ]

  place_arc-filled :
      ((v : ℕ) → into v done ≤ into v all)
      → (v k : ℕ) → v < n
      → k < into v (done ++ a ∷ [])
      → get_or (place_arc state a).1 (base v all + k) 0 ≡ get_or (sources v (done ++ a ∷ [])) k 0
  place_arc-filled part v k h low = elim (Bool-cases (a.1 == v)) [
    | inl e ↦
        let same = (nat_beq_iff a.1 v).0 e in
        let split : sources v (done ++ a ∷ []) ≡ sources v done ++ a.0 ∷ [] =
          sources-append v done (a ∷ []) ∙ (rw e) in
        elim (trichotomy k (into v done)) [
          | inl before ↦
              slot_old v k h (omega (arith, part v)) (λ _. before)
              ∙ p.filled v k h before
              ∙ sym
                  (get_or-snoc_before (sources v done) a.0 k (omega (arith, length-sources v done)))
              ∙ ap (λ r. get_or r k 0) (sym split)
          | inr (inl here) ↦
              ap (λ i. get_or (place_arc state a).1 i 0)
                (let at : base v all + k ≡ base a.1 all + into a.1 done = cc (same, here) in at)
              ∙ slot_new
              ∙ sym (get_or-snoc (sources v done) a.0 k (omega (arith, length-sources v done)))
              ∙ ap (λ r. get_or r k 0) (sym split)
          | inr (inr after) ↦ absurd (ground (arith, into_snoc v done a))
        ]
    | inr e ↦
        let low' : k < into v done = ground (arith, into_snoc v done a) in
        let split : sources v (done ++ a ∷ []) ≡ sources v done =
          sources-append v done (a ∷ []) ∙ (rw (e, append-nil)) in
        slot_old v k h (omega (arith, part v)) (λ _. low')
        ∙ p.filled v k h low'
        ∙ ap (λ r. get_or r k 0) (sym split)
  ]

  pub place_arc-Placed :
      ((v : ℕ) → into v done ≤ into v all) → Placed n all (done ++ a ∷ []) (place_arc state a)
  place_arc-Placed part = record {
    offsets = length-set state.0 a.1 _ ∙ p.offsets;
    slots = length-set state.1 _ a.0 ∙ p.slots;
    current = place_arc-current;
    filled = place_arc-filled part;
  }

pub place_arcs-Placed :
    (n : ℕ) (done rest : List (ℕ × ℕ)) (state : List ℕ × List ℕ)
    → ((v : ℕ) → In v (heads rest) → v < n)
    → Placed n (done ++ rest) done state
    → Placed n (done ++ rest) (done ++ rest) (place_arcs state rest)
unfolding place_arcs
place_arcs-Placed n done [] state inside p =
    subst (λ d. Placed n (done ++ []) d state) (sym (append-nil done)) p
place_arcs-Placed n done (a ∷ rest) state inside p =
    let all = done ++ a ∷ rest in
    let same : (done ++ a ∷ []) ++ rest ≡ all = append_assoc done (a ∷ []) rest in
    let next =
      place_arc-Placed n all done state a p (inside a.1 (inl refl))
        (ground (arith, into-append a.1 done (a ∷ rest)))
        (λ v. omega (arith, into-append v done (a ∷ rest))) in
    subst (λ l. Placed n l l (place_arcs (place_arc state a) rest)) same
      (place_arcs-Placed n (done ++ a ∷ []) rest (place_arc state a) (λ v m. inside v (inr m))
        (subst (λ l. Placed n l (done ++ a ∷ []) (place_arc state a)) (sym same) next))
