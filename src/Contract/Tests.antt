-- ===== src/Contract/Tests.antt =====
-- Two snapshots, and the theorems there.
use weave_graph.Common.{
  ℕ, Text, codes, List, [], ◌∷◌, In, true, some, none, ◌≡◌, ◌↔◌, refl, nat_eq, list_eq, lookup,
  IsSorted,
}
use weave_graph.Contract.{unchanged, symbol_le, change_le, diff_contracts}
use weave_graph.Contract.Diff.{diff_contracts_lem}

-- An entry is a signature and a line; the key is the signature.
abbrev key : ℕ × ℕ → ℕ
key entry = entry.0

abbrev old_one : List (Text × (ℕ × ℕ))
old_one = (codes "f", (1, 10)) ∷ (codes "g", (2, 20)) ∷ []

abbrev new_one : List (Text × (ℕ × ℕ))
new_one = (codes "h", (4, 5)) ∷ (codes "g", (3, 20)) ∷ []

abbrev moved : List (Text × (ℕ × ℕ))
moved = (codes "g", (2, 25)) ∷ (codes "f", (1, 15)) ∷ []

differs :
    (diff_contracts key old_one new_one ≡ record {
      added = (codes "h", (4, 5)) ∷ [];
      removed = (codes "f", (1, 10)) ∷ [];
      changed = (codes "g", (2, 20), (3, 20)) ∷ [];
    })
    × (unchanged (diff_contracts key old_one moved) ≡ true)
unfolding diff_contracts unchanged
differs = (refl, refl)

diff_contracts_lem_example :
    (IsSorted symbol_le (diff_contracts key old_one new_one).added
      × IsSorted symbol_le (diff_contracts key old_one new_one).removed
      × IsSorted change_le (diff_contracts key old_one new_one).changed)
    × ((entry : Text × (ℕ × ℕ))
        → In entry (diff_contracts key old_one new_one).added
          ↔ (In entry new_one × (lookup old_one entry.0 ≡ none)))
    × ((entry : Text × (ℕ × ℕ))
        → In entry (diff_contracts key old_one new_one).removed
          ↔ (In entry old_one × (lookup new_one entry.0 ≡ none)))
    × ((symbol : Text) (old new : ℕ × ℕ)
        → In (symbol, old, new) (diff_contracts key old_one new_one).changed ↔ (
            In (symbol, new) new_one
            × (lookup old_one symbol ≡ some old)
            × (¬ (key old ≡ key new))))
diff_contracts_lem_example = diff_contracts_lem key old_one new_one
