-- ===== src/Language/Path.antt =====
-- The language of a file does not depend on the folder.
use weave_graph.Common.{
  ℕ, Text, codes, List, [], ◌∷◌, ◌++◌, none, some, Option-cases, Bool-cases, ◌>>=◌, ◌==◌, nat_eq,
  list_eq, if◌then◌else◌, ◌≡◌, refl, sym, ap, ◌∙◌, subst, inl, inr, arith,
}
use weave_graph.Language.{put_byte, segments, last_component, file_name, from_name, from_path}

first_segment : (path : Text) → (first : Text) × (rest : List Text) × (segments path ≡ first ∷ rest)
unfolding segments put_byte
first_segment [] = ([], [], refl)
first_segment (x ∷ path) =
    let (first, rest, e) = first_segment path in
    elim (Bool-cases (x == b'/')) [
      | inl slash ↦ ([], first ∷ rest, rw (e, slash) refl)
      | inr other ↦ (x ∷ first, rest, rw (e, other) refl)
    ]

put_byte-append :
    (byte : ℕ) (first : Text) (rest ys : List Text)
    → put_byte byte ((first ∷ rest) ++ ys) ≡ put_byte byte (first ∷ rest) ++ ys
unfolding put_byte
put_byte-append byte first rest ys = ground arith

segments-append : (a b : Text) → segments (a ++ b'/' ∷ b) ≡ segments a ++ segments b
unfolding segments
segments-append [] b = let (first, rest, e) = first_segment b in rw (e, put_byte) refl
segments-append (x ∷ a) b =
    let (first, rest, e) = first_segment a in
    ap (put_byte x) (segments-append a b)
    ∙ ap (λ s. put_byte x (s ++ segments b)) e
    ∙ put_byte-append x first rest (segments b)
    ∙ ap (λ s. put_byte x s ++ segments b) (sym e)

last_component-append :
    (xs ys : List Text) (name : Text)
    → last_component ys ≡ some name
    → last_component (xs ++ ys) ≡ some name
unfolding last_component
last_component-append [] ys name e = e
last_component-append (x ∷ xs) ys name e = rw (last_component-append xs ys name e) refl

file_name-folder :
    (folder path name : Text)
    → file_name path ≡ some name
    → file_name (folder ++ b'/' ∷ path) ≡ some name
unfolding file_name
file_name-folder folder path name e = elim (Option-cases (last_component (segments path))) [
  | inl n ↦ absurd (
      subst (λ c. ¬ ((c >>= λ n. if n == codes ".." then none else some n) ≡ some name)) (sym n)
        (λ h. cc h) e)
  | inr (found, f) ↦
      let last : last_component (segments (folder ++ b'/' ∷ path)) ≡ some found =
        ap last_component (segments-append folder path)
        ∙ last_component-append (segments folder) (segments path) found f in
      ap (λ c. c >>= λ n. if n == codes ".." then none else some n) (last ∙ sym f) ∙ e
]

-- A path with a last component has the language of that component's path alone: the folder that a
-- file lies in makes no difference.
pub from_path-folder :
    (folder path name : Text)
    → file_name path ≡ some name
    → from_path (folder ++ b'/' ∷ path) ≡ from_path path
unfolding from_path
from_path-folder folder path name e =
    ap (λ n. n >>= from_name) (file_name-folder folder path name e ∙ sym e)
