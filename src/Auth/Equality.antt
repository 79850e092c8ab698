-- ===== src/Auth/Equality.antt =====
-- `constant_time_eq` decides equality, and the bearer check accepts one header only.
use Prim.Native.Nat.{bit_xor, bit_or}
use weave_graph.Common.{
  ℕ, zero, suc, ◌≤◌, max, Text, codes, [], ◌∷◌, ◌++◌, length, true, Option, none, some, ◌≡◌, ◌↔◌,
  inl, inr, refl, ap, arith, bit_xor_zero_iff, bit_or_zero_iff, nat_beq_iff, strip_prefix,
  strip_prefix_iff, Option-cases, Bool, false,
}
use weave_graph.Auth.{differences, constant_time_eq, bearer_token_matches}

differences-zero : (n : ℕ) (left right : Text) (d : ℕ) → differences n left right d ≡ 0 → d ≡ 0
unfolding differences
differences-zero zero left right d h = h
differences-zero (suc n) [] [] d h = ((bit_or_zero_iff d _).0 (differences-zero n [] [] _ h)).0
differences-zero (suc n) [] (r ∷ rs) d h =
    ((bit_or_zero_iff d _).0 (differences-zero n [] rs _ h)).0
differences-zero (suc n) (l ∷ ls) [] d h =
    ((bit_or_zero_iff d _).0 (differences-zero n ls [] _ h)).0
differences-zero (suc n) (l ∷ ls) (r ∷ rs) d h =
    ((bit_or_zero_iff d _).0 (differences-zero n ls rs _ h)).0

differences_iff :
    (n : ℕ) (left right : Text) (d : ℕ)
    → length left ≡ length right
    → length left ≤ n
    → (differences n left right d ≡ 0) ↔ ((d ≡ 0) × (left ≡ right))
unfolding differences
differences_iff zero [] [] d e h = (λ z. (z, refl), λ p. p.0)
differences_iff zero [] (r ∷ rs) d e h = absurd (omega arith)
differences_iff zero (l ∷ ls) right d e h = absurd (omega arith)
differences_iff (suc n) [] [] d e h = (
  λ z. (differences-zero (suc n) [] [] d z, refl),
  λ p. (differences_iff n [] [] _ refl (omega arith)).1 ((bit_or_zero_iff d _).1 (p.0, refl), refl),
)
differences_iff (suc n) [] (r ∷ rs) d e h = absurd (omega arith)
differences_iff (suc n) (l ∷ ls) [] d e h = absurd (omega arith)
differences_iff (suc n) (l ∷ ls) (r ∷ rs) d e h = ground (
  arith,
  differences_iff n ls rs (bit_or d (bit_xor l r)),
  bit_or_zero_iff d (bit_xor l r),
  bit_xor_zero_iff l r,
)

-- Two secrets compare equal exactly when they are the same bytes, whatever their lengths.
pub constant_time_eq_iff :
    (left right : Text) → (constant_time_eq left right ≡ true) ↔ (left ≡ right)
unfolding constant_time_eq
constant_time_eq_iff left right = (
  λ h.
      let z = (nat_beq_iff _ 0).0 h in
      let same_length =
        (bit_xor_zero_iff (length left) (length right)).0
          (differences-zero (max (length left) (length right)) left right _ z) in
      ((differences_iff (max (length left) (length right)) left right _ same_length (omega arith)).0
        z).1,
  λ e. (nat_beq_iff _ 0).1 (
      (differences_iff (max (length left) (length right)) left right _ (ap length e)
          (omega arith)).1
        ((bit_xor_zero_iff _ _).1 (ap length e), e)),
)

accepts : Text → Text → Text → Bool
accepts scheme value expected = elim (strip_prefix value scheme) [
  | none ↦ false
  | some token ↦ constant_time_eq token expected
]

accepts_iff :
    (scheme value expected : Text)
    → (accepts scheme value expected ≡ true) ↔ (value ≡ scheme ++ expected)
unfolding accepts
accepts_iff scheme value expected = elim (Option-cases (strip_prefix value scheme)) [
  | inl e ↦ rw (e, accepts) (ground (arith, strip_prefix_iff value scheme expected))
  | inr (token, e) ↦
      rw (e, accepts)
        (ground (
          arith,
          constant_time_eq_iff token expected,
          strip_prefix_iff value scheme expected,
          strip_prefix_iff value scheme token,
        ))
]

-- A header is accepted exactly when it is `Bearer ` followed by the expected token.
pub bearer_token_matches_iff :
    (header : Option Text) (expected : Text)
    → (bearer_token_matches header expected ≡ true) ↔ (header ≡ some (codes "Bearer " ++ expected))
unfolding bearer_token_matches accepts
bearer_token_matches_iff none expected = (λ h. cc, λ h. cc)
bearer_token_matches_iff (some value) expected =
    ground (arith, accepts_iff (codes "Bearer ") value expected)
