-- ===== src/StringTable/Arena.antt =====
-- The arena: the strings one after the other, with the offset past each.
use mathlib.Core.List.{append-nil, append_assoc}
use weave_graph.Common.{
  drop-append, take-append, ℕ, zero, suc, ◌+◌, ◌-◌, ◌<◌, Text, List, [], ◌∷◌, ◌++◌, length,
  length-append, get_or, take, drop, ◌≡◌, refl, sym, ap, ◌∙◌, subst, arith,
}
use weave_graph.StringTable.{StringInterner, span_start, get}

abbrev pub concat : List Text → Text
concat [] = []
concat (x ∷ xs) = x ++ concat xs

abbrev pub ends_from : ℕ → List Text → List ℕ
ends_from n [] = []
ends_from n (x ∷ xs) = (n + length x) ∷ ends_from (n + length x) xs

pub concat-append : (xs : List Text) (s : Text) → concat (xs ++ s ∷ []) ≡ concat xs ++ s
concat-append [] s = append-nil s
concat-append (x ∷ xs) s =
    ap (λ t. x ++ t) (concat-append xs s) ∙ sym (append_assoc x (concat xs) s)

pub length-ends_from : (n : ℕ) (xs : List Text) → length (ends_from n xs) ≡ length xs
length-ends_from n [] = refl
length-ends_from n (x ∷ xs) = ap suc (length-ends_from (n + length x) xs)

pub ends_from-append :
    (n : ℕ) (xs : List Text) (s : Text)
    → ends_from n (xs ++ s ∷ []) ≡ ends_from n xs ++ (n + length (concat xs) + length s) ∷ []
ends_from-append n [] s = ap (λ m. m ∷ []) (omega arith)
ends_from-append n (x ∷ xs) s =
    let same : n + length x + length (concat xs) + length s
        ≡ n + length (x ++ concat xs) + length s =
      omega (arith, length-append x (concat xs)) in
    ap (λ t. (n + length x) ∷ t)
      (ends_from-append (n + length x) xs s ∙ ap (λ m. ends_from (n + length x) xs ++ m ∷ []) same)

-- The start of a string in an arena whose strings begin at an offset.
abbrev start_from : ℕ → List ℕ → ℕ → ℕ
start_from n ends zero = n
start_from n ends (suc prev) = get_or ends prev 0

start_from-next :
    (n e : ℕ) (ends : List ℕ) (i : ℕ) → start_from n (e ∷ ends) (suc i) ≡ start_from e ends i
start_from-next n e ends zero = refl
start_from-next n e ends (suc i) = refl

start_from-zero : (ends : List ℕ) (i : ℕ) → span_start ends i ≡ start_from 0 ends i
start_from-zero ends zero = refl
start_from-zero ends (suc i) = refl

abbrev slice : Text → ℕ → ℕ → Text
slice arena start end = take (end - start) (drop start arena)

slice-prefix :
    (pre x rest : Text) → slice (pre ++ (x ++ rest)) (length pre) (length pre + length x) ≡ x
slice-prefix pre x rest =
    let long : length pre + length x - length pre ≡ length x = omega arith in
    rw (long, drop-append pre (x ++ rest)) (take-append x rest)

slice-ends_from :
    (pre : Text) (n : ℕ) (xs : List Text) (arena : Text) (i : ℕ)
    → length pre ≡ n
    → arena ≡ pre ++ concat xs
    → i < length xs
    → slice arena (start_from n (ends_from n xs) i) (get_or (ends_from n xs) i 0) ≡ get_or xs i []
slice-ends_from pre n [] arena i e q h = absurd (omega arith)
slice-ends_from pre n (x ∷ xs) arena zero e q h =
    subst (λ m. slice arena m (m + length x) ≡ x) e
      (ap (λ a. slice a (length pre) (length pre + length x)) q ∙ slice-prefix pre x (concat xs))
slice-ends_from pre n (x ∷ xs) arena (suc i) e q h =
    let later =
      slice-ends_from (pre ++ x) (n + length x) xs arena i (omega (arith, length-append pre x, e))
        (q ∙ sym (append_assoc pre x (concat xs))) (omega arith) in
    ap (λ start. slice arena start (get_or (ends_from (n + length x) xs) i 0))
      (start_from-next n (n + length x) (ends_from (n + length x) xs) i)
    ∙ later

module _ (t : StringInterner) (xs : List Text) (joined : t.arena ≡ concat xs)
    (cut : t.ends ≡ ends_from 0 xs) where
  pub get_lem : (i : ℕ) → i < length xs → get t i ≡ get_or xs i []
  unfolding get
  get_lem i h =
      rw (cut, start_from-zero (ends_from 0 xs) i) (slice-ends_from [] 0 xs t.arena i refl joined h)
