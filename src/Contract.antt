-- ===== src/Contract.antt =====
-- crates/weave-graph-parse/src/contract.rs: the difference of two contract snapshots.
pub mod Diff
pub mod Same
mod Tests
use weave_graph.Common.{
  Text, List, [], ◌∷◌, filter, filter_map, is_empty, Bool, true, false, not, ◌&&◌, Option, none,
  some, ◌==◌, Eq, nat_eq, list_eq, if◌then◌else◌, text_le, lookup, sort,
}

-- `(symbol, entry)` lists, and `(symbol, old entry, new entry)`.
pub record ContractDiff (V : Type 0) : Type 0 where
  pub added : List (Text × V)
  pub removed : List (Text × V)
  pub changed : List (Text × V × V)

module _ {V : Type 0} where
  -- `ContractDiff::is_empty`.
  unfoldable pub unchanged : ContractDiff V → Bool
  unchanged d = is_empty d.added && is_empty d.removed && is_empty d.changed

  unfoldable pub symbol_le : Text × V → Text × V → Bool
  symbol_le a b = text_le a.0 b.0

  unfoldable pub change_le : Text × V × V → Text × V × V → Bool
  change_le a b = text_le a.0 b.0

  -- What the loop over `actual` pushes on `added`.
  unfoldable pub addition : List (Text × V) → Text × V → Option (Text × V)
  addition expected (symbol, entry) = elim (lookup expected symbol) [
    | none ↦ some (symbol, entry)
    | some old ↦ none
  ]

  unfoldable pub missing : List (Text × V) → Text × V → Bool
  missing actual entry = elim (lookup actual entry.0) [ none ↦ true | some new ↦ false ]

  module _ {K : Type 0} ⦃o : Eq K⦄ (contract_key : V → K) where
    -- What the loop over `actual` pushes on `changed`.
    unfoldable pub change : List (Text × V) → Text × V → Option (Text × V × V)
    change expected (symbol, entry) = elim (lookup expected symbol) [
      | none ↦ none
      | some old ↦
          if not (contract_key old == contract_key entry) then some (symbol, old, entry) else none
    ]

    unfoldable pub diff_contracts : List (Text × V) → List (Text × V) → ContractDiff V
    unfolding addition missing change symbol_le change_le sort
    diff_contracts expected actual = record {
      added = sort symbol_le (filter_map (addition expected) actual);
      removed = sort symbol_le (filter (missing actual) expected);
      changed = sort change_le (filter_map (change expected) actual);
    }
