-- ===== src/Interner.antt =====
-- The interface of `StringInterner` of crates/weave-graph-parse/src/resolve.rs, which the project
-- index uses: a table from strings to ids and back that only grows.
pub mod Listed
use weave_graph.Common.{ℕ, Text, Option, none, some, ◌≡◌, ◌⊎◌}

pub record Interner : Type 1 where
  pub State : Type 0
  pub empty : State
  -- The state with the string, and its id.
  pub intern : State → Text → State × ℕ
  pub get_id : State → Text → Option ℕ
  pub resolve : State → ℕ → Text
  pub get_id-empty : (s : Text) → get_id empty s ≡ none
  pub get_id-intern : (t : State) (s : Text) → get_id (intern t s).0 s ≡ some (intern t s).1
  pub get_id_kept :
      (t : State) (s other : Text) (id : ℕ)
      → get_id t other ≡ some id
      → get_id (intern t s).0 other ≡ some id
  pub get_id_new :
      (t : State) (s other : Text) (id : ℕ)
      → get_id (intern t s).0 other ≡ some id
      → (other ≡ s) ⊎ (get_id t other ≡ some id)
  pub resolve-get_id : (t : State) (s : Text) (id : ℕ) → get_id t s ≡ some id → resolve t id ≡ s
