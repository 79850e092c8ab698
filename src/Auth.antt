-- ===== src/Auth.antt =====
-- crates/weave-graph-core/src/auth.rs: comparing secrets without an early return.
pub mod Equality
mod Tests
use Prim.Native.Nat.{bit_xor, bit_or}
use weave_graph.Common.{
  ℕ, zero, suc, max, Text, codes, List, [], ◌∷◌, length, Bool, false, Option, none, some, ◌==◌,
  nat_eq, strip_prefix,
}

-- `left.chain(repeat(0)).zip(right.chain(repeat(0))).take(rounds)`: the bytes that are left of each
-- side, and the pairs still to take. `difference` is a `usize`, which `|=` and `^` keep in range.
unfoldable pub differences : ℕ → Text → Text → ℕ → ℕ
differences zero left right difference = difference
differences (suc rounds) [] [] difference =
    differences rounds [] [] (bit_or difference (bit_xor 0 0))
differences (suc rounds) [] (r ∷ rs) difference =
    differences rounds [] rs (bit_or difference (bit_xor 0 r))
differences (suc rounds) (l ∷ ls) [] difference =
    differences rounds ls [] (bit_or difference (bit_xor l 0))
differences (suc rounds) (l ∷ ls) (r ∷ rs) difference =
    differences rounds ls rs (bit_or difference (bit_xor l r))

unfoldable pub constant_time_eq : Text → Text → Bool
unfolding differences
constant_time_eq left right =
    differences (max (length left) (length right)) left right (bit_xor (length left) (length right))
    == 0

unfoldable pub bearer_token_matches : Option Text → Text → Bool
unfolding constant_time_eq
bearer_token_matches none expected_token = false
bearer_token_matches (some value) expected_token = elim (strip_prefix value (codes "Bearer ")) [
  | none ↦ false
  | some token ↦ constant_time_eq token expected_token
]
