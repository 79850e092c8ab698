-- ===== src/Resolve/Scripts.antt =====
-- Edit scripts from the other end, and the cost that `levenshtein` returns.
use weave_graph.Common.{ℕ, suc, ◌≤◌, Text, [], ◌∷◌, ◌++◌, reverse, sym, subst, arith}
use mathlib.Core.List.{reverse-cons, reverse-reverse}
use weave_graph.Resolve.{levenshtein}
use weave_graph.Resolve.Distance.{
  distance, Script, done, keep, replace, delete, insert, distance_least, distance_reached,
}
use weave_graph.Resolve.Table.{levenshtein-distance}

-- A script extended at the ends of both texts.
keep_last : {n : ℕ} {a b : Text} (x : ℕ) → Script n a b → Script n (a ++ x ∷ []) (b ++ x ∷ [])
keep_last x done = keep x done
keep_last x (keep y s) = keep y (keep_last x s)
keep_last x (replace y z s) = replace y z (keep_last x s)
keep_last x (delete y s) = delete y (keep_last x s)
keep_last x (insert y s) = insert y (keep_last x s)

replace_last :
    {n : ℕ} {a b : Text} (x y : ℕ) → Script n a b → Script (suc n) (a ++ x ∷ []) (b ++ y ∷ [])
replace_last x y done = replace x y done
replace_last x y (keep z s) = keep z (replace_last x y s)
replace_last x y (replace z w s) = replace z w (replace_last x y s)
replace_last x y (delete z s) = delete z (replace_last x y s)
replace_last x y (insert z s) = insert z (replace_last x y s)

delete_last : {n : ℕ} {a b : Text} (x : ℕ) → Script n a b → Script (suc n) (a ++ x ∷ []) b
delete_last x done = delete x done
delete_last x (keep z s) = keep z (delete_last x s)
delete_last x (replace z w s) = replace z w (delete_last x s)
delete_last x (delete z s) = delete z (delete_last x s)
delete_last x (insert z s) = insert z (delete_last x s)

insert_last : {n : ℕ} {a b : Text} (y : ℕ) → Script n a b → Script (suc n) a (b ++ y ∷ [])
insert_last y done = insert y done
insert_last y (keep z s) = keep z (insert_last y s)
insert_last y (replace z w s) = replace z w (insert_last y s)
insert_last y (delete z s) = delete z (insert_last y s)
insert_last y (insert z s) = insert z (insert_last y s)

reversed : {n : ℕ} {a b : Text} → Script n a b → Script n (reverse a) (reverse b)
reversed done = done
reversed (keep {a = a} {b = b} x s) =
    rw (reverse-cons x a, reverse-cons x b) (keep_last x (reversed s))
reversed (replace {a = a} {b = b} x y s) =
    rw (reverse-cons x a, reverse-cons y b) (replace_last x y (reversed s))
reversed (delete {a = a} x s) = rw (reverse-cons x a) (delete_last x (reversed s))
reversed (insert {b = b} y s) = rw (reverse-cons y b) (insert_last y (reversed s))

-- The result is the least number of bytes to replace, delete and insert that turns the first text
-- into the second: some script makes that many changes, and none makes fewer.
pub levenshtein_lem :
    (a b : Text) → Script (levenshtein a b) a b × ((n : ℕ) → Script n a b → levenshtein a b ≤ n)
levenshtein_lem a b =
    let same = levenshtein-distance a b in
    (
      subst (λ n. Script n a b) (sym same)
          (subst (λ x. Script (distance (reverse a) (reverse b)) x b) (reverse-reverse a)
            (subst (λ y. Script (distance (reverse a) (reverse b)) (reverse (reverse a)) y)
              (reverse-reverse b) (reversed (distance_reached (reverse a) (reverse b))))),
      λ n s. omega (arith, same, distance_least n (reverse a) (reverse b) (reversed s)),
    )
