-- ===== src/Bitmap.antt =====
-- The `roaring` crate's `RoaringBitmap`, which the graph code takes for its visited sets: what it
-- relies on is a set of numbers that reports whether an insertion was new and lists its members.
pub mod Listed
use weave_graph.Common.{ℕ, Bool, true, false, not, ◌||◌, List, ◌≡◌, ◌↔◌, In, ◌==◌, nat_eq}

pub record Bitmap : Type 1 where
  pub Bits : Type 0
  pub empty : Bits
  pub contains : Bits → ℕ → Bool
  -- The set with the number, and whether the number is new.
  pub insert : Bits → ℕ → Bits × Bool
  pub iter : Bits → List ℕ
  pub contains-empty : (x : ℕ) → contains empty x ≡ false
  pub contains-insert : (s : Bits) (x y : ℕ) → contains (insert s x).0 y ≡ (y == x || contains s y)
  pub insert_new : (s : Bits) (x : ℕ) → (insert s x).1 ≡ not (contains s x)
  pub In-iter : (s : Bits) (x : ℕ) → In x (iter s) ↔ (contains s x ≡ true)
