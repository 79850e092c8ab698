-- ===== src/Cycles/Total.antt =====
-- The search for cycles ends: every file on the stack has another colour, so that its depth is below
-- the number of files.
use weave_graph.Common.{
  ℕ, zero, suc, ◌≤◌, ◌<◌, Text, List, [], ◌∷◌, In, filter, length, Bool, true, false, not, ◌&&◌,
  Bool-cases, Option, some, ◌>>=◌, ◌≡◌, inl, inr, refl, sym, ap, ◌∙◌, arith, ◌==◌, ==_refl, nat_eq,
  list_eq, lookup-put, if◌then◌else◌,
}
use weave_graph.Cycles.{Search, color_of, enter, leave, close, visit_all, dfs_cycle}

-- The file is neither on the stack nor done.
abbrev pub fresh : Search → Text → Bool
fresh s file = not (color_of s file == 1) && not (color_of s file == 2)

abbrev pub color_after : Search → Text → Text → ℕ → ℕ
color_after s file other c = if other == file then c else color_of s other

pub color_of-enter :
    (s : Search) (file other : Text) → color_of (enter file s) other ≡ color_after s file other 1
color_of-enter s file other = ground (arith, lookup-put s.color file other 1)

pub color_of-leave :
    (s : Search) (file other : Text) → color_of (leave file s) other ≡ color_after s file other 2
color_of-leave s file other = ground (arith, lookup-put s.color file other 2)

module _ (p q : Text → Bool) where
  abbrev count_of : (Text → Bool) → List Text → ℕ
  count_of p files = length (filter p files)

  fewer :
      (files : List Text)
      → ((f : Text) → q f ≡ true → p f ≡ true)
      → count_of q files ≤ count_of p files
  fewer [] h = omega arith
  fewer (f ∷ files) h = ground (arith, fewer files h, h f)

  one_less :
      (files : List Text) (file : Text)
      → ((f : Text) → q f ≡ true → p f ≡ true)
      → In file files
      → p file ≡ true
      → q file ≡ false
      → suc (count_of q files) ≤ count_of p files
  one_less [] file h m yes_p no_q = absurd m
  one_less (f ∷ files) file h (inl e) yes_p no_q =
      let here : p f ≡ true = ap p (sym e) ∙ yes_p in
      let gone : q f ≡ false = ap q (sym e) ∙ no_q in rw (here, gone) (omega (arith, fewer files h))
  one_less (f ∷ files) file h (inr m) yes_p no_q = ground (arith, one_less files file h m, h f)

length-filter-le : (p : Text → Bool) (files : List Text) → length (filter p files) ≤ length files
length-filter-le p [] = omega arith
length-filter-le p (f ∷ files) = ground (arith, length-filter-le p files)

module _ (next : Text → List Text) (files : List Text)
    (inside : (a b : Text) → In b (next a) → In b files) where
  abbrev unvisited : Search → ℕ
  unvisited s = length (filter (fresh s) files)

  enter-unvisited :
      (s : Search) (file : Text)
      → In file files
      → fresh s file ≡ true
      → suc (unvisited (enter file s)) ≤ unvisited s
  enter-unvisited s file m e =
      one_less (fresh s) (fresh (enter file s)) files file
        (λ f e. ground (arith, lookup-put s.color file f 1)) m e
        (ground (arith, lookup-put s.color file file 1, ==_refl file))

  leave-unvisited : (s : Search) (file : Text) → unvisited (leave file s) ≤ unvisited s
  leave-unvisited s file =
      fewer (fresh s) (fresh (leave file s)) files
        (λ f e. ground (arith, lookup-put s.color file f 2))

  -- A visit that ends, and leaves no more files unvisited.
  abbrev pub Ends : (Text → Search → Option Search) → Text → Search → Type 0
  Ends visit file s =
      (after : Search) × (visit file s ≡ some after) × (unvisited after ≤ unvisited s)

  visit_all-Ends :
      (visit : Text → Search → Option Search) (bound : ℕ)
      → ((file : Text) (s : Search) → In file files → unvisited s < bound → Ends visit file s)
      → (list : List Text) (s : Search) → ((f : Text) → In f list → In f files)
      → unvisited s < bound
      → (after : Search) × (visit_all visit list s ≡ some after) × (unvisited after ≤ unvisited s)
  unfolding visit_all
  visit_all-Ends visit bound ends [] s known h = (s, refl, omega arith)
  visit_all-Ends visit bound ends (file ∷ list) s known h =
      let (mid, e, less) = ends file s (known file (inl refl)) h in
      let (after, f, less') =
        visit_all-Ends visit bound ends list mid (λ x m. known x (inr m)) (omega arith) in
      (after, ap (λ o. o >>= visit_all visit list) e ∙ f, omega arith)

  pub dfs_cycle-Ends :
      (fuel : ℕ) (file : Text) (s : Search)
      → In file files
      → unvisited s < fuel
      → Ends (dfs_cycle next fuel) file s
  unfolding dfs_cycle
  dfs_cycle-Ends zero file s m h = absurd (omega arith)
  dfs_cycle-Ends (suc fuel) file s m h = elim (Bool-cases (color_of s file == 1)) [
    | inl e ↦ (close file s, rw e, omega arith)
    | inr e ↦ elim (Bool-cases (color_of s file == 2)) [
      | inl f ↦ (s, rw (e, f), omega arith)
      | inr f ↦
          let new : fresh s file ≡ true = rw (e, f) refl in
          let less = enter-unvisited s file m new in
          let (after, q, less') =
            visit_all-Ends (dfs_cycle next fuel) fuel (dfs_cycle-Ends fuel) (next file)
              (enter file s) (inside file) (omega (arith, less)) in
          (
            leave file after,
            rw (e, f) (ap (λ o. o >>= λ x. some (leave file x)) q),
            omega (arith, less, less', leave-unvisited after file),
          )
    ]
  ]

  pub search-Ends :
      (list : List Text) (s : Search)
      → ((f : Text) → In f list → In f files)
      → (after : Search) × (visit_all (dfs_cycle next (suc (length files))) list s ≡ some after)
  search-Ends list s known =
      let (after, e, less) =
        visit_all-Ends (dfs_cycle next (suc (length files))) (suc (length files))
          (dfs_cycle-Ends (suc (length files))) list s known
          (omega (arith, length-filter-le (fresh s) files)) in
      (after, e)
