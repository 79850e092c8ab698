-- ===== src/TraceCalls/Budget.antt =====
-- What a word limit leaves of a rendering.
use weave_graph.Common.{ℕ, ◌≤◌, ◌<◌, Text, ◌≡◌, ◌⊎◌}
use weave_graph.TraceCalls.{estimate_tokens}

-- The longest of the texts below `count` that is within the limit, or the first one if none is.
abbrev pub Shrunk : (ℕ → Text) → ℕ → ℕ → Text → Type 0
Shrunk text limit count result =
    (k : ℕ) × (result ≡ text k)
    × (((k < count)
          × (estimate_tokens (text k) ≤ limit)
          × ((j : ℕ) → k < j → j < count → limit < estimate_tokens (text j)))
        ⊎ ((k ≡ 0) × ((j : ℕ) → j < count → limit < estimate_tokens (text j))))
