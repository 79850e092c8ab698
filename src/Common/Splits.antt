-- ===== src/Common/Splits.antt =====
-- Where a text is split that was put together at the same byte.
use Prim.Native.Nat.{ℕ}
use mathlib.Core.Path.{◌≡◌, refl, ap}
use mathlib.Core.Logic.{inl, inr}
use mathlib.Core.Bool.{false}
use mathlib.Core.Option.{none, some}
use mathlib.Core.List.{[], ◌∷◌, ◌++◌}
use native.Mathlib.Omega.{arith}
use weave_graph.Common.Equality.{◌==◌, nat_eq, list_eq, ==_iff, ==_refl}
use weave_graph.Common.Lists.{In, length, length-append}
use weave_graph.Common.Bytes.{
  Text, split_once, rsplit_once, without_suffix, is_white, trim_start, trim_end, trim,
}

pub split_once-append : (c : ℕ) (a b : Text) → (¬ In c a) → split_once c (a ++ c ∷ b) ≡ some (a, b)
split_once-append c [] b h = rw (==_refl c)
split_once-append c (x ∷ a) b h =
    let other : (x == c) ≡ false = ground (arith, ==_iff x c, h) in
    rw (other, split_once-append c a b (λ m. h (inr m)))

rsplit_once-none : (c : ℕ) (b : Text) → (¬ In c b) → rsplit_once c b ≡ none
rsplit_once-none c [] h = refl
rsplit_once-none c (x ∷ b) h =
    let other : (x == c) ≡ false = ground (arith, ==_iff x c, h) in
    rw (rsplit_once-none c b (λ m. h (inr m)), other)

pub rsplit_once-append :
    (c : ℕ) (a b : Text) → (¬ In c b) → rsplit_once c (a ++ c ∷ b) ≡ some (a, b)
rsplit_once-append c [] b h = rw (rsplit_once-none c b h, ==_refl c)
rsplit_once-append c (x ∷ a) b h = rw (rsplit_once-append c a b h)

pub without_suffix-append : (a s : Text) → without_suffix (a ++ s) s ≡ some a
without_suffix-append [] [] = refl
without_suffix-append [] (x ∷ s) = rw (==_refl (x ∷ s))
without_suffix-append (x ∷ a) s =
    let longer : (x ∷ (a ++ s) == s) ≡ false =
      ground (
        arith,
        ==_iff (x ∷ (a ++ s)) s,
        λ (e : x ∷ (a ++ s) ≡ s). ap length e,
        length-append a s,
      ) in
    rw (longer, without_suffix-append a s)

-- Nothing is trimmed off a text without white space.
trim_start-eq : (text : Text) → ((c : ℕ) → In c text → is_white c ≡ false) → trim_start text ≡ text
trim_start-eq [] h = refl
trim_start-eq (x ∷ text) h = rw (h x (inl refl))

trim_end-eq : (text : Text) → ((c : ℕ) → In c text → is_white c ≡ false) → trim_end text ≡ text
trim_end-eq [] h = refl
trim_end-eq (x ∷ []) h = rw (h x (inl refl))
trim_end-eq (x ∷ y ∷ text) h = rw (trim_end-eq (y ∷ text) (λ c m. h c (inr m)))

pub trim-eq : (text : Text) → ((c : ℕ) → In c text → is_white c ≡ false) → trim text ≡ text
trim-eq text h = rw (trim_start-eq text h) (trim_end-eq text h)
