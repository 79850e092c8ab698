-- ===== src/Provenance/Hex.antt =====
-- The hexadecimal digits of a number determine it, and are bytes.
use weave_graph.Common.{
  ℕ, zero, suc, ◌+◌, ◌/◌, ◌%◌, ◌^◌, ◌<◌, Text, [], ◌∷◌, ◌++◌, ltb, if◌then◌else◌, ◌≡◌, inl, inr,
  refl, arith, In, In-append,
}
use weave_graph.Provenance.{hex}

abbrev digit : ℕ → ℕ
digit n = if ltb (n % 16) 10 then 48 + n % 16 else 87 + n % 16

digit_injective : (a b : ℕ) → digit a ≡ digit b → a % 16 ≡ b % 16
digit_injective a b e = ground arith

digit-small : (a : ℕ) → digit a < 256
digit-small a = ground arith

last_same : (a b : Text) (x y : ℕ) → a ++ x ∷ [] ≡ b ++ y ∷ [] → (a ≡ b) × (x ≡ y)
last_same [] [] x y e = (refl, cc e)
last_same [] (c ∷ []) x y e = absurd (cc e)
last_same [] (c ∷ d ∷ b) x y e = absurd (cc e)
last_same (c ∷ []) [] x y e = absurd (cc e)
last_same (c ∷ d ∷ a) [] x y e = absurd (cc e)
last_same (c ∷ a) (d ∷ b) x y e =
    let rest : a ++ x ∷ [] ≡ b ++ y ∷ [] = cc e in
    let first : c ≡ d = cc e in
    let (same, last) = last_same a b x y rest in (cc (first, same), last)

pub hex_injective :
    (width a b : ℕ) → a < 16 ^ width → b < 16 ^ width → hex width a ≡ hex width b → a ≡ b
unfolding hex
hex_injective zero a b h k e = omega arith
hex_injective (suc width) a b h k e =
    let (front, last) = last_same (hex width (a / 16)) (hex width (b / 16)) (digit a) (digit b) e in
    let high = hex_injective width (a / 16) (b / 16) (omega arith) (omega arith) front in
    let low = digit_injective a b last in omega (arith, high, low)

pub hex-small : (width n c : ℕ) → In c (hex width n) → c < 256
unfolding hex
hex-small zero n c m = absurd m
hex-small (suc width) n c m = elim ((In-append c (hex width (n / 16)) (digit n ∷ [])).0 m) [
  | inl m' ↦ hex-small width (n / 16) c m'
  | inr (inl e) ↦ omega (arith, e, digit-small n)
  | inr (inr m') ↦ absurd m'
]
