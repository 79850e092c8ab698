-- ===== src/Resolve/Table.antt =====
-- The table of `levenshtein` holds the distances of the prefixes.
use weave_graph.Common.{
  ℕ, zero, suc, ◌+◌, ◌≤◌, ◌<◌, min, Text, List, [], ◌∷◌, reverse_aux, length, length-set,
  length-replicate, get_or, get_or-set, set, replicate, ◌==◌, nat_eq, if◌then◌else◌, ◌≡◌, refl, sym,
  ap, subst, ◌∙◌, arith, trichotomy, inl, inr,
}
use weave_graph.Resolve.{fill_row, fill_table, counting, levenshtein}
use weave_graph.Resolve.Distance.{distance}

-- `ends` gives the reversed prefixes of a text: from column `j` on, each is the one before it
-- with the next byte.
Prefixes : (ℕ → Text) → ℕ → Text → Type 0
Prefixes ends j [] = Unit
Prefixes ends j (c ∷ b) = (ends (j + 1) ≡ c ∷ ends j) × Prefixes ends (j + 1) b

-- The entries up to column `j` are the distances from `a`.
Filled : (ℕ → Text) → Text → ℕ → List ℕ → Type 0
Filled ends a j row = (k : ℕ) → k ≤ j → get_or row k 0 ≡ distance a (ends k)

module _ (ends : ℕ → Text) (m : ℕ) where
  cell_lem :
      (ac bc j : ℕ) (a : Text) (prev curr : List ℕ)
      → ends (j + 1) ≡ bc ∷ ends j
      → get_or prev j 0 ≡ distance a (ends j)
      → get_or prev (j + 1) 0 ≡ distance a (ends (j + 1))
      → get_or curr j 0 ≡ distance (ac ∷ a) (ends j)
      → (if ac == bc
          then get_or prev j 0
          else 1 + min (min (get_or prev j 0) (get_or prev (j + 1) 0)) (get_or curr j 0))
        ≡ distance (ac ∷ a) (ends (j + 1))
  unfolding distance
  cell_lem ac bc j a prev curr p kept deleted inserted = rw (kept, deleted, inserted, p) refl

  -- One more column is filled by its cell.
  next_column :
      (j cell : ℕ) (a : Text) (curr : List ℕ)
      → j + 1 < length curr
      → cell ≡ distance a (ends (j + 1))
      → Filled ends a j curr
      → Filled ends a (j + 1) (set curr (j + 1) cell)
  unfolding Filled
  next_column j cell a curr small right f k h = elim (trichotomy k (j + 1)) [
    | inl below ↦ ground (arith, get_or-set curr (j + 1) k cell 0, f k (omega arith))
    | inr (inl e) ↦ rw e (ground (arith, get_or-set curr (j + 1) (j + 1) cell 0))
    | inr (inr above) ↦ absurd (omega arith)
  ]

  fill_row_lem :
      (ac j : ℕ) (a b : Text) (prev curr : List ℕ)
      → Prefixes ends j b
      → j + length b ≡ m
      → Filled ends a m prev
      → length curr ≡ suc m
      → Filled ends (ac ∷ a) j curr
      → Filled ends (ac ∷ a) m (fill_row ac j b prev curr)
        × (length (fill_row ac j b prev curr) ≡ suc m)
  unfolding fill_row Prefixes Filled
  fill_row_lem ac j a [] prev curr p e above n f = (λ k h. f k (omega arith), n)
  fill_row_lem ac j a (bc ∷ b) prev curr (p, ps) e above n f =
      let cell =
        if ac == bc
        then get_or prev j 0
        else 1 + min (min (get_or prev j 0) (get_or prev (j + 1) 0)) (get_or curr j 0) in
      let right : cell ≡ distance (ac ∷ a) (ends (j + 1)) =
        cell_lem ac bc j a prev curr p (above j (omega arith)) (above (j + 1) (omega arith))
          (f j (omega arith)) in
      fill_row_lem ac (j + 1) a b prev (set curr (j + 1) cell) ps (omega arith) above
        (length-set curr (j + 1) cell ∙ n) (next_column j cell (ac ∷ a) curr (omega arith) right f)

first_column :
    (ends : ℕ → Text) (i ac : ℕ) (used : Text) (curr : List ℕ)
    → ends 0 ≡ []
    → length used ≡ i
    → 0 < length curr
    → Filled ends (ac ∷ used) 0 (set curr 0 (i + 1))
unfolding Filled distance
first_column ends i ac used (c ∷ curr) start e h zero k = rw start (omega arith)
first_column ends i ac used curr start e h (suc j) k = absurd (omega arith)
first_column ends i ac used [] start e h zero k = absurd (omega arith)

module _ (ends : ℕ → Text) (b : Text) (start : ends 0 ≡ []) (prefixes : Prefixes ends 0 b) where
  fill_table_lem :
      (i : ℕ) (a used : Text) (prev curr : List ℕ)
      → length used ≡ i
      → length prev ≡ suc (length b)
      → length curr ≡ suc (length b)
      → Filled ends used (length b) prev
      → get_or (fill_table i a b prev curr) (length b) 0
        ≡ distance (reverse_aux a used) (ends (length b))
  unfolding fill_table Filled
  fill_table_lem i [] used prev curr e n c f = f (length b) (omega arith)
  fill_table_lem i (ac ∷ a) used prev curr e n c f =
      let first : Filled ends (ac ∷ used) 0 (set curr 0 (i + 1)) =
        first_column ends i ac used curr start e (omega arith) in
      let (filled, long) =
        fill_row_lem ends (length b) ac 0 used b prev (set curr 0 (i + 1)) prefixes (omega arith) f
          (length-set curr 0 (i + 1) ∙ c) first in
      fill_table_lem (i + 1) a (ac ∷ used) (fill_row ac 0 b prev (set curr 0 (i + 1))) prev
        (omega arith) long n filled

-- The first `k` bytes of a text, reversed onto another.
prefix_onto : Text → Text → ℕ → Text
prefix_onto acc b zero = acc
prefix_onto acc [] (suc k) = acc
prefix_onto acc (c ∷ b) (suc k) = prefix_onto (c ∷ acc) b k

prefix_onto-whole : (acc b : Text) → prefix_onto acc b (length b) ≡ reverse_aux b acc
unfolding prefix_onto
prefix_onto-whole acc [] = refl
prefix_onto-whole acc (c ∷ b) = prefix_onto-whole (c ∷ acc) b

length-prefix_onto :
    (acc b : Text) (k : ℕ) → k ≤ length b → length (prefix_onto acc b k) ≡ length acc + k
unfolding prefix_onto
length-prefix_onto acc b zero h = omega arith
length-prefix_onto acc [] (suc k) h = absurd (omega arith)
length-prefix_onto acc (c ∷ b) (suc k) h =
    omega (arith, length-prefix_onto (c ∷ acc) b k (omega arith))

Prefixes-from :
    (ends : ℕ → Text) (j : ℕ) (acc b : Text)
    → ((k : ℕ) → ends (j + k) ≡ prefix_onto acc b k)
    → Prefixes ends j b
unfolding Prefixes prefix_onto
Prefixes-from ends j acc [] h = tt
Prefixes-from ends j acc (c ∷ b) h =
    let here : ends j ≡ acc = subst (λ i. ends i ≡ acc) (omega arith) (h 0) in
    (
      h 1 ∙ ap (λ r. c ∷ r) (sym here),
      Prefixes-from ends (j + 1) (c ∷ acc) b
          (λ k. subst (λ i. ends i ≡ prefix_onto (c ∷ acc) b k) (omega arith) (h (suc k))),
    )

counting-at : (from n k : ℕ) → k < n → get_or (counting from n) k 0 ≡ from + k
unfolding counting
counting-at from zero k h = absurd (omega arith)
counting-at from (suc n) zero h = omega arith
counting-at from (suc n) (suc k) h = omega (arith, counting-at (from + 1) n k (omega arith))

length-counting : (from n : ℕ) → length (counting from n) ≡ n
unfolding counting
length-counting from zero = refl
length-counting from (suc n) = omega (arith, length-counting (from + 1) n)

-- The table computes the distance of the reversed texts.
pub levenshtein-distance :
    (a b : Text) → levenshtein a b ≡ distance (reverse_aux a []) (reverse_aux b [])
unfolding levenshtein Filled distance prefix_onto
levenshtein-distance a b =
    let ends = prefix_onto [] b in
    let last : ends (length b) ≡ reverse_aux b [] = prefix_onto-whole [] b in
    let row : Filled ends [] (length b) (counting 0 (length b + 1)) = λ k h.
      omega (arith, counting-at 0 (length b + 1) k (omega arith), length-prefix_onto [] b k h) in
    fill_table_lem ends b refl (Prefixes-from ends 0 [] b (λ k. ap ends (omega arith))) 0 a []
      (counting 0 (length b + 1)) (replicate (length b + 1) 0) refl
      (omega (arith, length-counting 0 (length b + 1)))
      (omega (arith, length-replicate {A = ℕ} (length b + 1) 0)) row
    ∙ ap (distance (reverse_aux a [])) last
