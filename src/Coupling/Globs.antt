-- ===== src/Coupling/Globs.antt =====
-- Which paths an exempting glob matches.
use mathlib.Core.List.{reverse-append, reverse-reverse}
use weave_graph.Common.{
  ◌-◌, Text, codes, ◌++◌, reverse, length, length-append, take-append, true, ◌||◌, Bool-cases, none,
  some, ◌==◌, ==_iff, nat_eq, list_eq, starts_with, starts_with_iff, ends_with, ◌≡◌, refl, sym, ap,
  ◌∙◌, subst, ◌↔◌, ◌⊎◌, inl, inr, arith,
}
use weave_graph.Coupling.{strip_suffix, glob_matches}

ends_with_iff : (xs ps : Text) → (ends_with xs ps ≡ true) ↔ ((front : Text) × (xs ≡ front ++ ps))
ends_with_iff xs ps = (
  λ h.
      let (rest, e) = (starts_with_iff (reverse xs) (reverse ps)).0 h in
      (
        reverse rest,
        sym (reverse-reverse xs)
            ∙ ap reverse e
            ∙ reverse-append (reverse ps) rest
            ∙ ap (λ t. reverse rest ++ t) (reverse-reverse ps),
      ),
  λ (front, e).
      (starts_with_iff (reverse xs) (reverse ps)).1
        (reverse front, ap reverse e ∙ reverse-append front ps),
)

strip_suffix-append : (front suffix : Text) → strip_suffix (front ++ suffix) suffix ≡ some front
unfolding strip_suffix
strip_suffix-append front suffix =
    let found = (ends_with_iff (front ++ suffix) suffix).1 (front, refl) in
    let long : length (front ++ suffix) - length suffix ≡ length front =
      omega (arith, length-append front suffix) in
    rw (found, long) (ap some (take-append front suffix))

strip_suffix-none :
    (text suffix : Text)
    → ((front : Text) → ¬ (text ≡ front ++ suffix))
    → strip_suffix text suffix ≡ none
unfolding strip_suffix
strip_suffix-none text suffix h = elim (Bool-cases (ends_with text suffix)) [
  | inl e ↦ let (front, q) = (ends_with_iff text suffix).0 e in absurd (h front q)
  | inr e ↦ rw e refl
]

-- A pattern that ends in `/**` stands for the path before that and all below it, any other pattern
-- for itself.
abbrev pub GlobMatches : Text → Text → Type 0
GlobMatches pattern path =
    ((prefix : Text) × (pattern ≡ prefix ++ codes "/**")
      × ((path ≡ prefix) ⊎ ((rest : Text) × (path ≡ (prefix ++ codes "/") ++ rest))))
    ⊎ ((prefix : Text) → ¬ (pattern ≡ prefix ++ codes "/**")) × (path ≡ pattern)

below_iff :
    (path prefix : Text)
    → ((path == prefix || starts_with path (prefix ++ codes "/")) ≡ true)
      ↔ ((path ≡ prefix) ⊎ ((rest : Text) × (path ≡ (prefix ++ codes "/") ++ rest)))
below_iff path prefix =
    ground (arith, ==_iff path prefix, starts_with_iff path (prefix ++ codes "/"))

folder_iff :
    (prefix path : Text)
    → (glob_matches (prefix ++ codes "/**") path ≡ true)
      ↔ ((path ≡ prefix) ⊎ ((rest : Text) × (path ≡ (prefix ++ codes "/") ++ rest)))
unfolding glob_matches
folder_iff prefix path =
    rw (strip_suffix-append prefix (codes "/**"), glob_matches) (below_iff path prefix)

plain_iff :
    (pattern path : Text)
    → ((prefix : Text) → ¬ (pattern ≡ prefix ++ codes "/**"))
    → (glob_matches pattern path ≡ true) ↔ (path ≡ pattern)
unfolding glob_matches
plain_iff pattern path h =
    rw (strip_suffix-none pattern (codes "/**") h, glob_matches)
      (λ e. sym ((==_iff pattern path).0 e), λ e. (==_iff pattern path).1 (sym e))

pub glob_matches_iff :
    (pattern path : Text) → (glob_matches pattern path ≡ true) ↔ GlobMatches pattern path
glob_matches_iff pattern path = elim (Bool-cases (ends_with pattern (codes "/**"))) [
  | inl e ↦
      let (prefix, q) = (ends_with_iff pattern (codes "/**")).0 e in
      (
        λ h.
            inl
              (prefix, q, (folder_iff prefix path).0 (subst (λ p. glob_matches p path ≡ true) q h)),
        λ m. elim m [
          | inl (p, r, w) ↦
              subst (λ t. glob_matches t path ≡ true) (sym r) ((folder_iff p path).1 w)
          | inr (other, same) ↦ absurd (other prefix q)
        ],
      )
  | inr e ↦
      let other : (prefix : Text) → ¬ (pattern ≡ prefix ++ codes "/**") =
        λ prefix q. cc (e, (ends_with_iff pattern (codes "/**")).1 (prefix, q)) in
      (
        λ h. inr (other, (plain_iff pattern path other).0 h),
        λ m. elim m [
          | inl (p, r, w) ↦ absurd (other p r)
          | inr (_, same) ↦ (plain_iff pattern path other).1 same
        ],
      )
]
