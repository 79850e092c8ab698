-- ===== src/Contract/Diff.antt =====
-- What a difference lists, and when it is empty.
use weave_graph.Common.{
  Text, List, filter, filter_map, In, In-filter, In-filter_map, filter_map-In, true, false, none,
  some, Eq, ==_iff, nat_eq, list_eq, text_le_total, text_le_trans, lookup, In-sort, IsSorted,
  sort-IsSorted, ◌≡◌, refl, ◌↔◌, subst, arith,
}
use weave_graph.Contract.{symbol_le, change_le, addition, missing, change, diff_contracts}

module _ {V : Type 0} where
  symbol_le_total : (a b : Text × V) → symbol_le a b ≡ false → symbol_le b a ≡ true
  unfolding symbol_le
  symbol_le_total a b = text_le_total a.0 b.0

  symbol_le_trans :
      (a b c : Text × V) → symbol_le a b ≡ true → symbol_le b c ≡ true → symbol_le a c ≡ true
  unfolding symbol_le
  symbol_le_trans a b c = text_le_trans a.0 b.0 c.0

  change_le_total : (a b : Text × V × V) → change_le a b ≡ false → change_le b a ≡ true
  unfolding change_le
  change_le_total a b = text_le_total a.0 b.0

  change_le_trans :
      (a b c : Text × V × V) → change_le a b ≡ true → change_le b c ≡ true → change_le a c ≡ true
  unfolding change_le
  change_le_trans a b c = text_le_trans a.0 b.0 c.0

  addition_iff :
      (expected : List (Text × V)) (entry found : Text × V)
      → (addition expected entry ≡ some found)
        ↔ ((lookup expected entry.0 ≡ none) × (entry ≡ found))
  unfolding addition
  addition_iff expected entry found = ground arith

  missing_iff :
      (actual : List (Text × V)) (entry : Text × V)
      → (missing actual entry ≡ true) ↔ (lookup actual entry.0 ≡ none)
  unfolding missing
  missing_iff actual entry = ground arith

  module _ {K : Type 0} ⦃o : Eq K⦄ (contract_key : V → K) where
    change_iff :
        (expected : List (Text × V)) (entry : Text × V) (c : Text × V × V)
        → (change contract_key expected entry ≡ some c) ↔ (
            (lookup expected entry.0 ≡ some c.1)
            × (entry ≡ (c.0, c.2))
            × (¬ (contract_key c.1 ≡ contract_key c.2)))
    unfolding change
    change_iff expected entry c = ground (arith, ==_iff (contract_key c.1) (contract_key c.2))

    -- The three lists are sorted by symbol. Added are the entries of `actual` whose symbol `expected`
    -- lacks, removed those of `expected` whose symbol `actual` lacks, and changed the entries of
    -- `actual` with the old entry of the same symbol, where the two have different contract keys.
    pub diff_contracts_lem :
        (expected actual : List (Text × V))
        → (IsSorted symbol_le (diff_contracts contract_key expected actual).added
            × IsSorted symbol_le (diff_contracts contract_key expected actual).removed
            × IsSorted change_le (diff_contracts contract_key expected actual).changed)
          × ((entry : Text × V)
              → In entry (diff_contracts contract_key expected actual).added
                ↔ (In entry actual × (lookup expected entry.0 ≡ none)))
          × ((entry : Text × V)
              → In entry (diff_contracts contract_key expected actual).removed
                ↔ (In entry expected × (lookup actual entry.0 ≡ none)))
          × ((symbol : Text) (old new : V)
              → In (symbol, old, new) (diff_contracts contract_key expected actual).changed ↔ (
                  In (symbol, new) actual
                  × (lookup expected symbol ≡ some old)
                  × (¬ (contract_key old ≡ contract_key new))))
    unfolding diff_contracts
    diff_contracts_lem expected actual =
        let additions = filter_map (addition expected) actual in
        let removals = filter (missing actual) expected in
        let changes = filter_map (change contract_key expected) actual in
        (
          (
            sort-IsSorted symbol_le symbol_le_total symbol_le_trans additions,
            sort-IsSorted symbol_le symbol_le_total symbol_le_trans removals,
            sort-IsSorted change_le change_le_total change_le_trans changes,
          ),
          λ entry. (
            λ m.
                let (a, k, e) =
                  In-filter_map (addition expected) actual entry
                    ((In-sort symbol_le entry additions).0 m) in
                let (n, same) = (addition_iff expected a entry).0 e in
                (subst (λ x. In x actual) same k, subst (λ x. lookup expected x.0 ≡ none) same n),
            λ (k, n). (In-sort symbol_le entry additions).1 (
                filter_map-In (addition expected) actual entry entry k
                  ((addition_iff expected entry entry).1 (n, refl))),
          ),
          λ entry. (
            λ m.
                let (k, e) =
                  (In-filter (missing actual) entry expected).0
                    ((In-sort symbol_le entry removals).0 m) in
                (k, (missing_iff actual entry).0 e),
            λ (k, n).
                (In-sort symbol_le entry removals).1 (
                  (In-filter (missing actual) entry expected).1
                    (k, (missing_iff actual entry).1 n)),
          ),
          λ symbol old new. (
            λ m.
                let (a, k, e) =
                  In-filter_map (change contract_key expected) actual (symbol, old, new)
                    ((In-sort change_le (symbol, old, new) changes).0 m) in
                let (found, same, differ) = (change_iff expected a (symbol, old, new)).0 e in
                (
                  subst (λ x. In x actual) same k,
                  subst (λ x. lookup expected x.0 ≡ some old) same found,
                  differ,
                ),
            λ (k, found, differ). (In-sort change_le (symbol, old, new) changes).1 (
                filter_map-In (change contract_key expected) actual (symbol, new) (symbol, old, new)
                  k
                  ((change_iff expected (symbol, new) (symbol, old, new)).1 (found, refl, differ))),
          ),
        )
