-- ===== src/Provenance/Preimage.antt =====
-- The signed bytes determine the document and the commit.
use weave_graph.Common.{
  decimal, number_from, number_from-decimal_on, digits_only, ℕ, ◌≤◌, Text, [], ◌∷◌, ◌++◌, In, ◌≡◌,
  refl, sym, ap, ◌∙◌, inl, inr, arith,
}
use weave_graph.Provenance.{preimage}

first_eq : {x y : ℕ} {a b : Text} → x ∷ a ≡ y ∷ b → x ≡ y
first_eq e = cc e

rest_eq : {x y : ℕ} {a b : Text} → x ∷ a ≡ y ∷ b → a ≡ b
rest_eq e = cc e

-- Up to the first zero byte, two texts agree.
split_at_zero :
    (a b s t : Text)
    → ((c : ℕ) → In c a → 48 ≤ c)
    → ((c : ℕ) → In c b → 48 ≤ c)
    → a ++ 0 ∷ s ≡ b ++ 0 ∷ t
    → (a ≡ b) × (s ≡ t)
split_at_zero [] [] s t h k e = (refl, cc e)
split_at_zero [] (y ∷ b) s t h k e = absurd (omega (arith, k y (inl refl), first_eq e))
split_at_zero (x ∷ a) [] s t h k e = absurd (omega (arith, h x (inl refl), first_eq e))
split_at_zero (x ∷ a) (y ∷ b) s t h k e =
    let (same, rest) =
      split_at_zero a b s t (λ c m. h c (inr m)) (λ c m. k c (inr m)) (rest_eq e) in
    (cc (first_eq e, same), rest)

-- Records of different documents or commits sign different bytes: the zero byte ends the digits.
pub preimage_injective :
    (doc_id other : ℕ) (commit_hash another : Text)
    → preimage doc_id commit_hash ≡ preimage other another
    → (doc_id ≡ other) × (commit_hash ≡ another)
unfolding preimage decimal
preimage_injective d o c a e =
    let (digits, rest) =
      split_at_zero (decimal d) (decimal o) c a (digits_only d d) (digits_only o o) e in
    (
      sym (number_from-decimal_on d d (omega arith))
          ∙ ap (number_from 0) digits
          ∙ number_from-decimal_on o o (omega arith),
      rest,
    )
