-- ===== src/Cycles/Rotation.antt =====
-- What the rotation does to a closed cycle whose first file is not its least one.
use weave_graph.Common.{
  ℕ, suc, ◌+◌, Text, List, [], ◌∷◌, ◌++◌, In, In-append, take, drop, drop-append, take-append,
  length, true, false, Bool-cases, ◌≡◌, ◌≢◌, ◌⊎◌, inl, inr, refl, sym, ap, ◌∙◌, subst, arith,
  text_le, text_le_total, text_le_trans,
}
use weave_graph.Cycles.{min_from, min_pos, rotate_canonical}

-- The first least file of a list that has one below the given file.
Lower : Text → ℕ → ℕ → List Text → Type 0
Lower best place i files =
    (pre : List Text) × (least : Text) × (post : List Text) × (files ≡ pre ++ least ∷ post)
    × (place ≡ i + length pre)
    × (text_le best least ≡ false)
    × ((x : Text) → In x pre → text_le x least ≡ false)

min_from-same :
    (best : Text) (place i : ℕ) (files : List Text)
    → ((x : Text) → In x files → text_le best x ≡ true)
    → min_from best place i files ≡ place
min_from-same best place i [] all = refl
min_from-same best place i (f ∷ files) all =
    rw (all f (inl refl)) (min_from-same best place (i + 1) files (λ x m. all x (inr m)))

min_from-cases :
    (best : Text) (place i : ℕ) (files : List Text)
    → ((x : Text) → In x files → text_le best x ≡ true)
      ⊎ Lower best (min_from best place i files) i files
unfolding Lower
min_from-cases best place i [] = inl (λ x m. absurd m)
min_from-cases best place i (f ∷ files) = elim (Bool-cases (text_le best f)) [
  | inl e ↦ elim (min_from-cases best place (i + 1) files) [
    | inl all ↦
        inl
          (λ x m. elim m [ inl q ↦ subst (λ y. text_le best y ≡ true) (sym q) e | inr n ↦ all x n ])
    | inr (pre, least, post, split, at, below, above) ↦
        let first : text_le f least ≡ false = ground (arith, text_le_trans best f least) in
        inr (
          f ∷ pre,
          least,
          post,
          ap (λ t. f ∷ t) split,
          rw e (omega (arith, at)),
          below,
          λ x m. elim m [
            | inl q ↦ subst (λ y. text_le y least ≡ false) (sym q) first
            | inr n ↦ above x n
          ],
        )
  ]
  | inr e ↦ elim (min_from-cases f i (i + 1) files) [
    | inl all ↦ inr (
      [],
      f,
      files,
      refl,
      rw e (omega (arith, min_from-same f i (i + 1) files all)),
      e,
      λ x m. absurd m,
    )
    | inr (pre, least, post, split, at, below, above) ↦
        let lower : text_le best least ≡ false =
          ground (arith, text_le_trans f best least, text_le_total best f) in
        inr (
          f ∷ pre,
          least,
          post,
          ap (λ t. f ∷ t) split,
          rw e (omega (arith, at)),
          lower,
          λ x m. elim m [
            | inl q ↦ subst (λ y. text_le y least ≡ false) (sym q) below
            | inr n ↦ above x n
          ],
        )
  ]
]

not_nil : {A : Type 0} (xs : List A) (y : A) (ys : List A) → ¬ (xs ++ y ∷ ys ≡ [])
not_nil [] y ys e = cc e
not_nil (x ∷ xs) y ys e = cc e

-- The last element stands in what comes last.
last-In :
    {A : Type 0} (ys : List A) (b : A) (pre mid : List A) (a : A)
    → ys ++ b ∷ pre ≡ mid ++ a ∷ []
    → In a (b ∷ pre)
last-In [] b pre mid a e = subst (In a) (sym e) ((In-append a mid (a ∷ [])).1 (inr (inl refl)))
last-In (y ∷ ys) b pre [] a e =
    let rest : ys ++ b ∷ pre ≡ [] = cc e in absurd (not_nil ys b pre rest)
last-In (y ∷ ys) b pre (z ∷ mid) a e =
    let rest : ys ++ b ∷ pre ≡ mid ++ a ∷ [] = cc e in last-In ys b pre mid a rest

text_le_refl : (x : Text) → ¬ (text_le x x ≡ false)
text_le_refl x e = cc (e, text_le_total x x e)

cut :
    (file : Text) (rest pre : List Text) (least : Text) (post : List Text) (n : ℕ)
    → rest ≡ pre ++ least ∷ post
    → n ≡ suc (length pre)
    → drop n (file ∷ rest) ++ take n (file ∷ rest) ≡ least ∷ post ++ file ∷ pre
cut file rest pre least post n split at =
    rw (at, split, drop-append pre (least ∷ post), take-append pre (least ∷ post)) refl

Lower-open :
    (file : Text) (rest : List Text)
    → Lower file (min_pos (file ∷ rest)) 1 rest
    → (first : Text) (mid : List Text) → rotate_canonical (file ∷ rest) ≢ first ∷ mid ++ first ∷ []
unfolding Lower rotate_canonical
Lower-open file rest (pre, least, post, split, at, below, above) first mid e =
    let rotated = cut file rest pre least post (min_pos (file ∷ rest)) split (omega (arith, at)) in
    let same : least ∷ post ++ file ∷ pre ≡ first ∷ mid ++ first ∷ [] = sym rotated ∙ e in
    let head : least ≡ first = cc same in
    let tail : post ++ file ∷ pre ≡ mid ++ first ∷ [] = cc same in
    elim (subst (λ x. In x (file ∷ pre)) (sym head) (last-In post file pre mid first tail)) [
      | inl q ↦ text_le_refl least (subst (λ x. text_le x least ≡ false) (sym q) below)
      | inr m ↦ text_le_refl least (above least m)
    ]

-- A closed cycle that has a file below the one it begins with is reported as a list whose last file
-- is another one than its first: the rotation breaks the cycle open.
pub rotate_canonical-open :
    (file : Text) (between : List Text) (lower : Text)
    → In lower between
    → text_le file lower ≡ false
    → (first : Text) (mid : List Text)
    → rotate_canonical (file ∷ between ++ file ∷ []) ≢ first ∷ mid ++ first ∷ []
rotate_canonical-open file between lower m below =
    Lower-open file (between ++ file ∷ []) (elim (min_from-cases file 0 1 (between ++ file ∷ [])) [
      | inl all ↦
          let above = all lower ((In-append lower between (file ∷ [])).1 (inl m)) in
          absurd (cc (above, below))
      | inr found ↦ found
    ])
