-- ===== src/Contract/Same.antt =====
-- An empty difference.
use weave_graph.Common.{
  Text, List, [], ◌∷◌, is_empty, In, true, Bool-cases, Option, none, some, ◌==◌, Eq, ==_iff, nat_eq,
  list_eq, lookup, In-lookup, IsMap, ◌≡◌, refl, ◌↔◌, inl, inr, subst, arith,
}
use weave_graph.Contract.{unchanged, diff_contracts}
use weave_graph.Contract.Diff.{diff_contracts_lem}

no_members : {A : Type 0} (xs : List A) → is_empty xs ≡ true → (x : A) → ¬ In x xs
no_members [] e x m = m
no_members (y ∷ xs) e x m = cc e

empty_of_none : {A : Type 0} (xs : List A) → ((x : A) → ¬ In x xs) → is_empty xs ≡ true
empty_of_none [] h = refl
empty_of_none (y ∷ xs) h = absurd (h y (inl refl))

module _ {V K : Type 0} ⦃o : Eq K⦄ (contract_key : V → K) where
  -- The two entries of a symbol, if any, state the same contract.
  abbrev pub SameContract : Option V → Option V → Type 0
  SameContract none none = Unit
  SameContract none (some new) = ⊥
  SameContract (some old) none = ⊥
  SameContract (some old) (some new) = contract_key old ≡ contract_key new

  same_of :
      (old new : Option V)
      → ((e : V) → old ≡ none → ¬ (new ≡ some e))
      → ((e : V) → new ≡ none → ¬ (old ≡ some e))
      → ((a b : V) → old ≡ some a → new ≡ some b → contract_key a ≡ contract_key b)
      → SameContract old new
  same_of none none h k l = tt
  same_of none (some new) h k l = h new refl refl
  same_of (some old) none h k l = k old refl refl
  same_of (some old) (some new) h k l = l old new refl refl

  same_keys :
      (old new : Option V) (a b : V)
      → SameContract old new
      → old ≡ some a
      → new ≡ some b
      → contract_key a ≡ contract_key b
  same_keys none none a b s e f = cc
  same_keys none (some q) a b s e f = cc
  same_keys (some p) none a b s e f = cc
  same_keys (some p) (some q) a b s e f =
      subst (λ x. contract_key x ≡ contract_key b) (cc)
        (subst (λ y. contract_key p ≡ contract_key y) (cc) s)

  not_added : (old new : Option V) (b : V) → SameContract old new → old ≡ none → ¬ (new ≡ some b)
  not_added none none b s e f = cc f
  not_added none (some q) b s e f = s
  not_added (some p) new b s e f = cc e

  not_removed : (old new : Option V) (a : V) → SameContract old new → new ≡ none → ¬ (old ≡ some a)
  not_removed none none a s e f = cc f
  not_removed (some p) none a s e f = s
  not_removed old (some q) a s e f = cc e

  -- For two maps the difference is empty exactly when they have the same symbols, each with entries
  -- of the same contract key: what else an entry holds does not count.
  pub unchanged_iff :
      (expected actual : List (Text × V))
      → IsMap expected
      → IsMap actual
      → (unchanged (diff_contracts contract_key expected actual) ≡ true)
        ↔ ((symbol : Text) → SameContract (lookup expected symbol) (lookup actual symbol))
  unfolding unchanged
  unchanged_iff expected actual old_map new_map =
      let d = diff_contracts contract_key expected actual in
      let (_, additions, removals, changes) = diff_contracts_lem contract_key expected actual in
      (
        λ h symbol.
            same_of (lookup expected symbol) (lookup actual symbol)
              (λ e n f.
                no_members d.added (ground arith) (symbol, e)
                  ((additions (symbol, e)).1 (In-lookup actual symbol e f, n)))
              (λ e n f.
                no_members d.removed (ground arith) (symbol, e)
                  ((removals (symbol, e)).1 (In-lookup expected symbol e f, n)))
              (λ a b e f. elim (Bool-cases (contract_key a == contract_key b)) [
                | inl same ↦ (==_iff (contract_key a) (contract_key b)).0 same
                | inr differ ↦ absurd (
                    no_members d.changed (ground arith) (symbol, a, b)
                      ((changes symbol a b).1 (
                        In-lookup actual symbol b f,
                        e,
                        λ q. cc (differ, (==_iff (contract_key a) (contract_key b)).1 q),
                      )))
              ]),
        λ same.
            let no_added : is_empty d.added ≡ true = empty_of_none d.added (λ entry m.
              let (k, n) = (additions entry).0 m in
              not_added _ _ entry.1 (same entry.0) n (new_map entry.0 entry.1 k)) in
            let no_removed : is_empty d.removed ≡ true = empty_of_none d.removed (λ entry m.
              let (k, n) = (removals entry).0 m in
              not_removed _ _ entry.1 (same entry.0) n (old_map entry.0 entry.1 k)) in
            let no_changed : is_empty d.changed ≡ true = empty_of_none d.changed (λ c m.
              let (k, e, differ) = (changes c.0 c.1 c.2).0 m in
              differ (same_keys _ _ c.1 c.2 (same c.0) e (new_map c.0 c.2 k))) in
            rw (no_added, no_removed, no_changed) refl,
      )
