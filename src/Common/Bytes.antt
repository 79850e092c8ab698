-- ===== src/Common/Bytes.antt =====
-- Text as its list of UTF-8 bytes. Equality, order and prefixes of Rust's `str` are bytewise, and
-- the separators that the program looks for are ASCII, so no decoding is needed.
use Prim.Native.Nat.{ℕ, ◌+◌, compare, Ordering}
use Prim.Native.Char.{code}
use Prim.Native.String.{String}
use mathlib.Core.Path.{◌≡◌, refl}
use mathlib.Core.Logic.{◌↔◌}
use mathlib.Core.Bool.{Bool, true, false, ◌&&◌, ◌||◌}
use mathlib.Core.Option.{Option, none, some}
use mathlib.Core.List.{List, [], ◌∷◌, ◌++◌, map, reverse}
use native.Mathlib.Omega.{arith}
use weave_graph.Common.Tests.{if◌then◌else◌, leb}
use weave_graph.Common.Equality.{◌==◌, list_eq, nat_eq, ==_iff}

abbrev pub Text : Type 0
Text = List ℕ

-- The bytes of an ASCII literal.
abbrev pub codes : String → Text
codes String.[] = []
codes (String.◌∷◌ c s) = code c ∷ codes s

abbrev pub starts_with : Text → Text → Bool
starts_with xs [] = true
starts_with [] (p ∷ ps) = false
starts_with (x ∷ xs) (p ∷ ps) = (x == p) && starts_with xs ps

-- `str::strip_prefix`.
abbrev pub strip_prefix : Text → Text → Option Text
strip_prefix xs [] = some xs
strip_prefix [] (p ∷ ps) = none
strip_prefix (x ∷ xs) (p ∷ ps) = if x == p then strip_prefix xs ps else none

abbrev pub ends_with : Text → Text → Bool
ends_with xs ps = starts_with (reverse xs) (reverse ps)

-- `str::to_ascii_lowercase`.
abbrev pub lower_byte : ℕ → ℕ
lower_byte c = if leb b'A' c && leb c b'Z' then c + 32 else c

abbrev pub to_ascii_lowercase : Text → Text
to_ascii_lowercase = map lower_byte

-- Bytewise lexicographic `≤`, the order of `str`.
abbrev pub text_le : Text → Text → Bool
text_le [] ys = true
text_le (x ∷ xs) [] = false
text_le (x ∷ xs) (y ∷ ys) = elim (compare x y) [
  | Ordering.lt ↦ true
  | Ordering.eq ↦ text_le xs ys
  | Ordering.gt ↦ false
]

-- `str::split_once` and `str::rsplit_once` at an ASCII character.
abbrev pub split_once : ℕ → Text → Option (Text × Text)
split_once c [] = none
split_once c (x ∷ xs) =
    if x == c
    then some ([], xs)
    else elim (split_once c xs) [ none ↦ none | some parts ↦ some (x ∷ parts.0, parts.1) ]

abbrev pub rsplit_once : ℕ → Text → Option (Text × Text)
rsplit_once c [] = none
rsplit_once c (x ∷ xs) = elim (rsplit_once c xs) [
  | some parts ↦ some (x ∷ parts.0, parts.1)
  | none ↦ if x == c then some ([], xs) else none
]

-- `str::strip_suffix`.
abbrev pub without_suffix : Text → Text → Option Text
without_suffix [] suffix = if [] == suffix then some [] else none
without_suffix (x ∷ xs) suffix =
    if x ∷ xs == suffix
    then some []
    else elim (without_suffix xs suffix) [ none ↦ none | some text ↦ some (x ∷ text) ]

-- `str::trim` of an ASCII text.
abbrev pub is_white : ℕ → Bool
is_white c = (leb 9 c && leb c 13) || c == b' '

abbrev pub trim_start : Text → Text
trim_start [] = []
trim_start (x ∷ xs) = if is_white x then trim_start xs else x ∷ xs

abbrev pub trim_end : Text → Text
trim_end [] = []
trim_end (x ∷ xs) = elim (trim_end xs) [
  | [] ↦ if is_white x then [] else x ∷ []
  | y ∷ ys ↦ x ∷ y ∷ ys
]

abbrev pub trim : Text → Text
trim text = trim_end (trim_start text)

pub starts_with_iff :
    (xs ps : Text) → (starts_with xs ps ≡ true) ↔ ((rest : Text) × (xs ≡ ps ++ rest))
starts_with_iff xs [] = (λ _. (xs, refl), λ _. refl)
starts_with_iff [] (p ∷ ps) = (λ h. cc, λ h. cc (h.1))
starts_with_iff (x ∷ xs) (p ∷ ps) = (
  λ h.
      let (rest, e) = (starts_with_iff xs ps).0 (ground arith) in
      (rest, ground (arith, ==_iff x p)),
  λ (rest, e).
      let tails : xs ≡ ps ++ rest = cc e in
      ground (arith, ==_iff x p, (starts_with_iff xs ps).1 (rest, tails)),
)

pub text_le_refl : (xs : Text) → text_le xs xs ≡ true
text_le_refl [] = refl
text_le_refl (x ∷ xs) = ground (arith, text_le_refl xs)

pub text_le_total : (xs ys : Text) → text_le xs ys ≡ false → text_le ys xs ≡ true
text_le_total [] ys h = cc
text_le_total (x ∷ xs) [] h = refl
text_le_total (x ∷ xs) (y ∷ ys) h = ground (arith, text_le_total xs ys)

pub text_le_trans :
    (xs ys zs : Text) → text_le xs ys ≡ true → text_le ys zs ≡ true → text_le xs zs ≡ true
text_le_trans [] ys zs h k = refl
text_le_trans (x ∷ xs) [] zs h k = cc
text_le_trans (x ∷ xs) (y ∷ ys) [] h k = cc
text_le_trans (x ∷ xs) (y ∷ ys) (z ∷ zs) h k = ground (arith, text_le_trans xs ys zs)

pub text_le_antisymm : (xs ys : Text) → text_le xs ys ≡ true → text_le ys xs ≡ true → xs ≡ ys
text_le_antisymm [] [] h k = refl
text_le_antisymm [] (y ∷ ys) h k = cc
text_le_antisymm (x ∷ xs) [] h k = cc
text_le_antisymm (x ∷ xs) (y ∷ ys) h k = ground (arith, text_le_antisymm xs ys)

pub strip_prefix_iff : (xs ps rest : Text) → (strip_prefix xs ps ≡ some rest) ↔ (xs ≡ ps ++ rest)
strip_prefix_iff xs [] rest = (λ h. ground arith, λ h. ground arith)
strip_prefix_iff [] (p ∷ ps) rest = (λ h. cc, λ h. cc)
strip_prefix_iff (x ∷ xs) (p ∷ ps) rest = ground (arith, ==_iff x p, strip_prefix_iff xs ps rest)
