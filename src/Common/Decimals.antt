-- ===== src/Common/Decimals.antt =====
-- Decimal numbers in texts: `{}` and `{:020}` of a number, and `str::parse::<u64>`.
use Prim.Native.Nat.{ℕ, zero, suc, ◌+◌, ◌-◌, ◌*◌, ◌/◌, ◌%◌, ◌^◌, ◌≤◌, ◌<◌}
use mathlib.Core.Path.{◌≡◌, refl, ◌∙◌}
use mathlib.Core.Logic.{inl, inr}
use mathlib.Core.Bool.{Bool, true, false, not, ◌&&◌, ◌||◌}
use mathlib.Core.Option.{Option, none, some}
use mathlib.Core.List.{[], ◌∷◌, ◌++◌}
use native.Mathlib.Omega.{arith}
use weave_graph.Common.Tests.{if◌then◌else◌, ltb, leb, Bool-cases}
use weave_graph.Common.Equality.{◌==◌, nat_eq}
use weave_graph.Common.Lists.{In, In-append, any, length, replicate, is_empty}
use weave_graph.Common.Bytes.{Text}

-- `{n}`: the decimal digits, on fuel that is at least the number.
unfoldable pub decimal_on : ℕ → ℕ → Text
decimal_on zero n = (48 + n) ∷ []
decimal_on (suc fuel) n =
    let above = decimal_on fuel (n / 10) in
    if ltb n 10 then (48 + n) ∷ [] else above ++ (48 + n % 10) ∷ []

unfoldable pub decimal : ℕ → Text
unfolding decimal_on
decimal n = decimal_on n n

-- `{n:020}`: padded with zeros to 20 digits.
unfoldable pub padded : ℕ → Text
padded n = replicate (20 - length (decimal n)) b'0' ++ decimal n

-- The number that a text of digits stands for, behind the digits read so far.
unfoldable pub number_from : ℕ → Text → ℕ
number_from n [] = n
number_from n (digit ∷ text) = number_from (n * 10 + (digit - 48)) text

pub number_from-append :
    (n : ℕ) (a b : Text) → number_from n (a ++ b) ≡ number_from (number_from n a) b
unfolding number_from
number_from-append n [] b = refl
number_from-append n (digit ∷ a) b = number_from-append (n * 10 + (digit - 48)) a b

pub number_from-decimal_on : (fuel n : ℕ) → n ≤ fuel → number_from 0 (decimal_on fuel n) ≡ n
unfolding number_from decimal_on
number_from-decimal_on zero n h = omega arith
number_from-decimal_on (suc fuel) n h = elim (Bool-cases (ltb n 10)) [
  | inl e ↦ rw e (omega arith)
  | inr e ↦
      let above = number_from-decimal_on fuel (n / 10) (ground arith) in
      rw (e, number_from-append 0 (decimal_on fuel (n / 10)) ((48 + n % 10) ∷ []), above)
        (omega arith)
]

pub digits_only : (fuel n c : ℕ) → In c (decimal_on fuel n) → 48 ≤ c
unfolding decimal_on
digits_only zero n c m = ground arith
digits_only (suc fuel) n c m = ground (
  arith,
  digits_only fuel (n / 10) c,
  In-append c (decimal_on fuel (n / 10)) ((48 + n % 10) ∷ []),
)

abbrev pub is_digit : ℕ → Bool
is_digit c = leb b'0' c && leb c b'9'

unfoldable pub parse_digits : Text → Option ℕ
unfolding number_from
parse_digits text =
    if is_empty text || any (λ c. not (is_digit c)) text
    then none
    else if ltb (number_from 0 text) (2 ^ 64)
    then some (number_from 0 text)
    else none

-- A leading plus sign is allowed.
unfoldable pub parse_u64 : Text → Option ℕ
unfolding parse_digits
parse_u64 [] = none
parse_u64 (c ∷ text) = if c == b'+' then parse_digits text else parse_digits (c ∷ text)

digits_bounded : (fuel n c : ℕ) → n ≤ fuel → In c (decimal_on fuel n) → c ≤ 57
unfolding decimal_on
digits_bounded zero n c h m = ground arith
digits_bounded (suc fuel) n c h m = ground (
  arith,
  digits_bounded fuel (n / 10) c,
  In-append c (decimal_on fuel (n / 10)) ((48 + n % 10) ∷ []),
)

In-replicate : (n a c : ℕ) → In c (replicate n a) → c ≡ a
In-replicate zero a c m = absurd m
In-replicate (suc n) a c (inl e) = e
In-replicate (suc n) a c (inr m) = In-replicate n a c m

-- Every byte of a padded number is a digit, and so of one without padding.
pub In-decimal : (n c : ℕ) → In c (decimal n) → is_digit c ≡ true
unfolding decimal
In-decimal n c m = ground (arith, digits_only n n c m, digits_bounded n n c (omega arith) m)

pub In-padded : (n c : ℕ) → In c (padded n) → is_digit c ≡ true
unfolding padded
In-padded n c m = ground (
  arith,
  In-append c (replicate (20 - length (decimal n)) b'0') (decimal n),
  In-replicate (20 - length (decimal n)) b'0' c,
  In-decimal n c,
)

number_from-zeros :
    (k : ℕ) (text : Text) → number_from 0 (replicate k b'0' ++ text) ≡ number_from 0 text
unfolding number_from
number_from-zeros zero text = refl
number_from-zeros (suc k) text = number_from-zeros k text

is_empty-append : (a b : Text) → is_empty b ≡ false → is_empty (a ++ b) ≡ false
is_empty-append [] b h = h
is_empty-append (x ∷ a) b h = refl

decimal_on-nonempty : (fuel n : ℕ) → is_empty (decimal_on fuel n) ≡ false
unfolding decimal_on
decimal_on-nonempty zero n = refl
decimal_on-nonempty (suc fuel) n = ground (
  arith,
  decimal_on-nonempty fuel (n / 10),
  is_empty-append (decimal_on fuel (n / 10)) ((48 + n % 10) ∷ []) refl,
)

decimal-nonempty : (n : ℕ) → is_empty (decimal n) ≡ false
unfolding decimal
decimal-nonempty n = decimal_on-nonempty n n

number_from-decimal : (n : ℕ) → number_from 0 (decimal n) ≡ n
unfolding decimal
number_from-decimal n = number_from-decimal_on n n (omega arith)

none_other :
    (text : Text)
    → ((c : ℕ) → In c text → is_digit c ≡ true)
    → any (λ c. not (is_digit c)) text ≡ false
none_other [] digits = refl
none_other (c ∷ text) digits =
    ground (arith, digits c (inl refl), none_other text (λ d m. digits d (inr m)))

-- A text of digits that is not empty, below the bound of the type, parses to its number.
pub parse_u64-digits :
    (text : Text) (n : ℕ)
    → ((c : ℕ) → In c text → is_digit c ≡ true)
    → is_empty text ≡ false
    → number_from 0 text ≡ n
    → n < 2 ^ 64
    → parse_u64 text ≡ some n
unfolding parse_u64 parse_digits
parse_u64-digits [] n digits full e h = cc
parse_u64-digits (c ∷ text) n digits full e h =
    let plain : any (λ c. not (is_digit c)) (c ∷ text) ≡ false = none_other (c ∷ text) digits in
    ground (arith, digits c (inl refl), plain, e)

pub parse_u64-padded : (n : ℕ) → n < 2 ^ 64 → parse_u64 (padded n) ≡ some n
unfolding padded
parse_u64-padded n h =
    parse_u64-digits (padded n) n (In-padded n)
      (is_empty-append (replicate (20 - length (decimal n)) b'0') (decimal n) (decimal-nonempty n))
      (number_from-zeros (20 - length (decimal n)) (decimal n) ∙ number_from-decimal n) h

pub parse_u64-decimal : (n : ℕ) → n < 2 ^ 64 → parse_u64 (decimal n) ≡ some n
parse_u64-decimal n h =
    parse_u64-digits (decimal n) n (In-decimal n) (decimal-nonempty n) (number_from-decimal n) h
