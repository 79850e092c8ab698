-- ===== src/Resolve/Distance.antt =====
-- The edit distance: the table against a recursive definition, and that against edit scripts.
use weave_graph.Common.{
  ℕ, suc, ◌+◌, ◌≤◌, min, Text, [], ◌∷◌, length, Bool-cases, ◌==◌, ==_iff, nat_eq, if◌then◌else◌,
  ◌≡◌, sym, subst, ◌⊎◌, inl, inr, arith,
}

-- The least number of single-byte changes that turn one text into the other, by its recursion on
-- the first bytes.
unfoldable pub distance : Text → Text → ℕ
distance [] ys = length ys
distance (x ∷ xs) [] = suc (length xs)
distance (x ∷ xs) (y ∷ ys) =
    let kept = distance xs ys in
    let deleted = distance xs (y ∷ ys) in
    let inserted = distance (x ∷ xs) ys in
    if x == y then kept else 1 + min (min kept deleted) inserted

-- A script that turns the first text into the second and makes the given number of changes.
pub data Script : ℕ → Text → Text → Type 0 where
  done : Script 0 [] []
  keep : {n : ℕ} {a b : Text} (x : ℕ) → Script n a b → Script n (x ∷ a) (x ∷ b)
  replace : {n : ℕ} {a b : Text} (x y : ℕ) → Script n a b → Script (suc n) (x ∷ a) (y ∷ b)
  delete : {n : ℕ} {a b : Text} (x : ℕ) → Script n a b → Script (suc n) (x ∷ a) b
  insert : {n : ℕ} {a b : Text} (y : ℕ) → Script n a b → Script (suc n) a (y ∷ b)

-- Adding a byte to the first text costs at most one, given that dropping one from the second does.
add_first :
    (x : ℕ) (xs : Text)
    → ((y : ℕ) (ys : Text) → distance xs ys ≤ suc (distance xs (y ∷ ys)))
    → (ys : Text) → distance (x ∷ xs) ys ≤ suc (distance xs ys)
unfolding distance
add_first x [] h [] = omega arith
add_first x (z ∷ xs) h [] = omega arith
add_first x xs h (y ∷ ys) = ground (arith, h y ys)

drop_second : (xs : Text) (y : ℕ) (ys : Text) → distance xs ys ≤ suc (distance xs (y ∷ ys))
unfolding distance
drop_second [] y ys = omega arith
drop_second (x ∷ xs) y ys = ground (arith, add_first x xs (drop_second xs) ys, drop_second xs y ys)

add_second :
    (y : ℕ) (ys : Text)
    → ((x : ℕ) (xs : Text) → distance xs ys ≤ suc (distance (x ∷ xs) ys))
    → (xs : Text) → distance xs (y ∷ ys) ≤ suc (distance xs ys)
unfolding distance
add_second y [] h [] = omega arith
add_second y (z ∷ ys) h [] = omega arith
add_second y ys h (x ∷ xs) = ground (arith, h x xs)

drop_first : (ys : Text) (x : ℕ) (xs : Text) → distance xs ys ≤ suc (distance (x ∷ xs) ys)
unfolding distance
drop_first [] x [] = omega arith
drop_first [] x (z ∷ xs) = omega arith
drop_first (y ∷ ys) x xs = ground (arith, add_second y ys (drop_first ys) xs, drop_first ys x xs)

-- No script is cheaper than the distance.
pub distance_least : (n : ℕ) (a b : Text) → Script n a b → distance a b ≤ n
unfolding distance
distance_least n a b done = omega arith
distance_least n a b (keep {a = a'} {b = b'} x s) =
    ground (arith, ==_iff x x, distance_least _ a' b' s)
distance_least n a b (replace {n = m} {a = a'} {b = b'} x y s) =
    ground (arith, distance_least m a' b' s)
distance_least n a b (delete {n = m} {a = a'} x s) =
    omega (arith, distance_least m a' b s, add_first x a' (drop_second a') b)
distance_least n a b (insert {n = m} {b = b'} y s) =
    omega (arith, distance_least m a b' s, add_second y b' (drop_first b') a)

insert_all : (b : Text) → Script (length b) [] b
insert_all [] = done
insert_all (y ∷ b) = insert y (insert_all b)

delete_all : (a : Text) → Script (length a) a []
delete_all [] = done
delete_all (x ∷ a) = delete x (delete_all a)

smallest :
    (k d i : ℕ)
    → (1 + min (min k d) i ≡ suc k) ⊎ (1 + min (min k d) i ≡ suc d) ⊎ (1 + min (min k d) i ≡ suc i)
smallest k d i = ground arith

-- The cheapest of the three last steps.
cheapest :
    (x y : ℕ) (a b : Text) (kept deleted inserted : ℕ)
    → Script kept a b
    → Script deleted a (y ∷ b)
    → Script inserted (x ∷ a) b
    → Script (1 + min (min kept deleted) inserted) (x ∷ a) (y ∷ b)
cheapest x y a b k d i s t u = elim (smallest k d i) [
  | inl e ↦ subst (λ n. Script n (x ∷ a) (y ∷ b)) (sym e) (replace x y s)
  | inr (inl e) ↦ subst (λ n. Script n (x ∷ a) (y ∷ b)) (sym e) (delete x t)
  | inr (inr e) ↦ subst (λ n. Script n (x ∷ a) (y ∷ b)) (sym e) (insert y u)
]

-- Some script has the cost of the distance.
pub distance_reached : (a b : Text) → Script (distance a b) a b
unfolding distance
distance_reached [] b = insert_all b
distance_reached (x ∷ a) [] = delete_all (x ∷ a)
distance_reached (x ∷ a) (y ∷ b) = elim (Bool-cases (x == y)) [
  | inl e ↦
      let same : x ≡ y = (==_iff x y).0 e in
      rw e (subst (λ z. Script (distance a b) (x ∷ a) (z ∷ b)) same (keep x (distance_reached a b)))
  | inr e ↦ rw e (
      cheapest x y a b (distance a b) (distance a (y ∷ b)) (distance (x ∷ a) b)
        (distance_reached a b) (distance_reached a (y ∷ b)) (distance_reached (x ∷ a) b))
]
