-- ===== src/ProjectIndex/Candidates.antt =====
-- The candidates of a short name are the symbols added under it, in order.
use weave_graph.Common.{
  ℕ, Text, List, [], ◌∷◌, ◌++◌, true, false, Bool-cases, none, some, Option-cases, ◌==◌, ==_iff,
  nat_eq, list_eq, if◌then◌else◌, lookup, put, lookup-put, ◌≡◌, refl, sym, ap, ◌∙◌, subst, inl, inr,
  arith,
}
use weave_graph.Interner.{Interner}
use weave_graph.ProjectIndex.{ProjectIndex, new, bucket, add_symbol, candidates}
use weave_graph.ProjectIndex.Names.{Named, Named-intern, Named-append}

-- The monikers of the symbols with the short name.
unfoldable pub monikers : Text → List (Text × Text) → List Text
monikers short [] = []
monikers short (symbol ∷ symbols) =
    let rest = monikers short symbols in if symbol.1 == short then symbol.0 ∷ rest else rest

pub monikers-append :
    (short : Text) (symbols : List (Text × Text)) (moniker name : Text)
    → monikers short (symbols ++ (moniker, name) ∷ [])
      ≡ (if name == short then monikers short symbols ++ moniker ∷ [] else monikers short symbols)
unfolding monikers
monikers-append short [] moniker name = ground arith
monikers-append short (s ∷ symbols) moniker name =
    ground (arith, monikers-append short symbols moniker name)

monikers_other :
    (other : Text) (symbols : List (Text × Text)) (moniker short : Text)
    → (short == other) ≡ false
    → monikers other (symbols ++ (moniker, short) ∷ []) ≡ monikers other symbols
monikers_other other symbols moniker short d =
    rw (d) at (monikers-append other symbols moniker short)

monikers_self :
    (other : Text) (symbols : List (Text × Text)) (moniker short : Text)
    → (short == other) ≡ true
    → monikers other (symbols ++ (moniker, short) ∷ []) ≡ monikers other symbols ++ moniker ∷ []
monikers_self other symbols moniker short d =
    rw (d) at (monikers-append other symbols moniker short)

module _ (interner : Interner) where
  open interner use {
    State, empty, intern, get_id, resolve, get_id-empty, get_id-intern, get_id_kept, resolve-get_id,
  }

  -- The index holds the symbols, given as moniker and short name in the order they were added.
  pub record Indexes (index : ProjectIndex interner) (symbols : List (Text × Text)) : Type 0 where
    pub named :
        (short : Text)
        → Named interner index.interner_state
            (candidates interner index short)
            (monikers short symbols)
    pub keyed :
        (k : ℕ) (ids : List ℕ)
        → lookup index.by_short_name k ≡ some ids
        → (u : Text) × (get_id index.interner_state u ≡ some k)

  candidates-none :
      (index : ProjectIndex interner) (u : Text)
      → get_id index.interner_state u ≡ none
      → candidates interner index u ≡ []
  unfolding candidates
  candidates-none index u e = rw (e, candidates) refl

  pub new-Indexes : Indexes (new interner) []
  unfolding new monikers
  new-Indexes = record {
    named = λ short.
        subst (λ ids. Named interner empty ids [])
          (sym (candidates-none (new interner) short (get_id-empty short))) tt;
    keyed = λ k ids e. cc e;
  }

  candidates-some :
      (index : ProjectIndex interner) (u : Text) (id : ℕ)
      → get_id index.interner_state u ≡ some id
      → candidates interner index u ≡ bucket index.by_short_name id
  unfolding candidates
  candidates-some index u id e = rw (e, candidates) refl

  bucket-none : (m : List (ℕ × List ℕ)) (id : ℕ) → lookup m id ≡ none → bucket m id ≡ []
  unfolding bucket
  bucket-none m id e = rw (e, bucket) refl

  bucket-put :
      (m : List (ℕ × List ℕ)) (key other : ℕ) (ids : List ℕ)
      → bucket (put m key ids) other ≡ (if other == key then ids else bucket m other)
  unfolding bucket
  bucket-put m key other ids = ground (arith, lookup-put m key other ids)

  module _ (index : ProjectIndex interner) (symbols : List (Text × Text))
      (h : Indexes index symbols) (grown : State)
      (kept : (u : Text) (id : ℕ)
        → get_id index.interner_state u ≡ some id
        → get_id grown u ≡ some id) where
    -- The bucket of an id is that of its string, before the table grew too.
    bucket_same :
        (u : Text) (id : ℕ)
        → get_id grown u ≡ some id
        → bucket index.by_short_name id ≡ candidates interner index u
    bucket_same u id e = elim (Option-cases (get_id index.interner_state u)) [
      | inr (i, k) ↦
          let same : i ≡ id = cc (kept u i k, e) in
          ap (bucket index.by_short_name) (sym same) ∙ sym (candidates-some index u i k)
      | inl n ↦ elim (Option-cases (lookup index.by_short_name id)) [
        | inl m ↦ bucket-none index.by_short_name id m ∙ sym (candidates-none index u n)
        | inr (ids, m) ↦
            let (v, k) = h.keyed id ids m in
            let same : v ≡ u =
              sym (resolve-get_id grown v id (kept v id k)) ∙ resolve-get_id grown u id e in
            absurd (cc (n, k, same))
      ]
    ]

  add_symbol-keyed :
      (index : ProjectIndex interner) (symbols : List (Text × Text)) (moniker short : Text)
      → Indexes index symbols
      → (k : ℕ) (ids : List ℕ)
      → lookup (add_symbol interner index moniker short).0.by_short_name k ≡ some ids
      → (u : Text) × (get_id (add_symbol interner index moniker short).0.interner_state u ≡ some k)
  unfolding add_symbol
  add_symbol-keyed index symbols moniker short h k ids e =
      let t = index.interner_state in
      let t1 = (intern t short).0 in
      let id = (intern t short).1 in
      elim (Bool-cases (k == id)) [
        | inl same ↦ (
          short,
          get_id_kept t1 moniker short k
              (get_id-intern t short ∙ ap some (sym ((==_iff k id).0 same))),
        )
        | inr other ↦
            let put_ids = bucket index.by_short_name id ++ (intern t1 moniker).1 ∷ [] in
            let at_k = lookup-put index.by_short_name id k put_ids in
            let (u, f) = h.keyed k ids (sym (rw (other) at at_k) ∙ e) in
            (u, get_id_kept t1 moniker u k (get_id_kept t short u k f))
      ]

  along :
      (t : State) {ids ids' : List ℕ} {texts texts' : List Text}
      → ids' ≡ ids
      → texts' ≡ texts
      → Named interner t ids texts
      → Named interner t ids' texts'
  along t {ids} {ids'} {texts} {texts'} p q n =
      subst (λ x. Named interner t x texts') (sym p) (subst (Named interner t ids) (sym q) n)

  add_symbol-Named :
      (index : ProjectIndex interner) (symbols : List (Text × Text)) (moniker short : Text)
      → Indexes index symbols
      → (other : Text)
      → Named interner
          (add_symbol interner index moniker short).0.interner_state
          (candidates interner (add_symbol interner index moniker short).0 other)
          (monikers other (symbols ++ (moniker, short) ∷ []))
  unfolding add_symbol
  add_symbol-Named index symbols moniker short h other =
      let t = index.interner_state in
      let t1 = (intern t short).0 in
      let t2 = (intern t1 moniker).0 in
      let name_id = (intern t short).1 in
      let moniker_id = (intern t1 moniker).1 in
      let grown = (add_symbol interner index moniker short).0 in
      let kept : (u : Text) (i : ℕ) → get_id t u ≡ some i → get_id t2 u ≡ some i =
        λ u i e. get_id_kept t1 moniker u i (get_id_kept t short u i e) in
      let short_at : get_id t2 short ≡ some name_id =
        get_id_kept t1 moniker short name_id (get_id-intern t short) in
      let old =
        Named-intern interner t1 moniker _ _ (Named-intern interner t short _ _ (h.named other)) in
      elim (Option-cases (get_id t2 other)) [
        | inl n ↦
            let before : get_id t other ≡ none = elim (Option-cases (get_id t other)) [
              | inl m ↦ m
              | inr (i, k) ↦ absurd (cc (n, kept other i k))
            ] in
            let differs : (short == other) ≡ false = elim (Bool-cases (short == other)) [
              | inr d ↦ d
              | inl same ↦ absurd (cc (n, short_at, (==_iff short other).0 same))
            ] in
            along t2 (candidates-none grown other n ∙ sym (candidates-none index other before))
              (monikers_other other symbols moniker short differs) old
        | inr (id, e) ↦
            let base =
              subst (λ ids. Named interner t2 ids (monikers other symbols))
                (sym (bucket_same index symbols h t2 kept other id e)) old in
            let put_ids = bucket index.by_short_name name_id ++ moniker_id ∷ [] in
            let at_id =
              candidates-some grown other id e
              ∙ bucket-put index.by_short_name name_id id put_ids in
            elim (Bool-cases (short == other)) [
              | inl same ↦
                  let equal : short ≡ other = (==_iff short other).0 same in
                  let hit : id ≡ name_id = cc (e, short_at, equal) in
                  along t2 (rw ((==_iff id name_id).1 hit) at at_id)
                    (monikers_self other symbols moniker short same)
                    (Named-append interner t2 _ _ moniker_id moniker
                      (subst
                        (λ k.
                          Named interner t2 (bucket index.by_short_name k) (monikers other symbols))
                        hit base)
                      (get_id-intern t1 moniker))
              | inr differs ↦
                  let miss : (id == name_id) ≡ false = elim (Bool-cases (id == name_id)) [
                    | inr d ↦ d
                    | inl hit ↦ absurd (
                        cc (
                          differs,
                          (==_iff short other).1 (
                              sym (resolve-get_id t2 short name_id short_at)
                              ∙ ap (resolve t2) (sym ((==_iff id name_id).0 hit))
                              ∙ resolve-get_id t2 other id e),
                        ))
                  ] in
                  along t2 (rw (miss) at at_id) (monikers_other other symbols moniker short differs)
                    base
            ]
      ]

  -- Adding a symbol appends its moniker to the candidates of its short name, and to no others, and
  -- returns the id of the moniker. Earlier strings keep their ids.
  pub add_symbol-Indexes :
      (index : ProjectIndex interner) (symbols : List (Text × Text)) (moniker short : Text)
      → Indexes index symbols
      → Indexes (add_symbol interner index moniker short).0 (symbols ++ (moniker, short) ∷ [])
  unfolding add_symbol
  add_symbol-Indexes index symbols moniker short h =
      let t = index.interner_state in
      let t1 = (intern t short).0 in
      let t2 = (intern t1 moniker).0 in
      let kept : (u : Text) (i : ℕ) → get_id t u ≡ some i → get_id t2 u ≡ some i =
        λ u i e. get_id_kept t1 moniker u i (get_id_kept t short u i e) in
      record {
        named = add_symbol-Named index symbols moniker short h;
        keyed = add_symbol-keyed index symbols moniker short h;
      }
