-- ===== src/Common/Equality.antt =====
-- Decidable equality as an interface: what `PartialEq` gives the source's types.
use Prim.Native.Nat.{ℕ}
use mathlib.Core.Path.{◌≡◌, refl}
use mathlib.Core.Logic.{◌↔◌}
use mathlib.Core.Bool.{Bool, true, false, ◌&&◌}
use mathlib.Core.List.{List, [], ◌∷◌}
use native.Mathlib.Omega.{arith}
use weave_graph.Common.Tests.{nat_beq, nat_beq_iff}

-- `PartialEq`: a test, sound and complete for equality.
pub record Eq {ℓ} (K : Type ℓ) : Type ℓ where
  pub same : K → K → Bool
  pub same→eq : (k j : K) → same k j ≡ true → k ≡ j
  pub eq→same : (k j : K) → k ≡ j → same k j ≡ true

module _ {ℓ} {K : Type ℓ} ⦃o : Eq K⦄ where
  infix 50 ◌==◌
  abbrev pub ◌==◌ : K → K → Bool
  k == j = o.same k j

  pub ==_iff : (k j : K) → ((k == j) ≡ true) ↔ (k ≡ j)
  ==_iff k j = (o.same→eq k j, o.eq→same k j)

  pub ==_refl : (k : K) → (k == k) ≡ true
  ==_refl k = o.eq→same k k refl

instance abbrev pub nat_eq : Eq ℕ
nat_eq = record {
  same = nat_beq;
  same→eq = λ k j. (nat_beq_iff k j).0;
  eq→same = λ k j. (nat_beq_iff k j).1;
}

module _ {ℓ} {A : Type ℓ} ⦃o : Eq A⦄ where
  abbrev pub list_beq : List A → List A → Bool
  list_beq [] [] = true
  list_beq (x ∷ xs) (y ∷ ys) = (x == y) && list_beq xs ys
  list_beq _ _ = false

  pub list_beq_iff : (xs ys : List A) → (list_beq xs ys ≡ true) ↔ (xs ≡ ys)
  list_beq_iff [] [] = (λ _. refl, λ _. refl)
  list_beq_iff [] (y ∷ ys) = (λ h. cc, λ h. cc)
  list_beq_iff (x ∷ xs) [] = (λ h. cc, λ h. cc)
  list_beq_iff (x ∷ xs) (y ∷ ys) = ground (arith, ==_iff x y, list_beq_iff xs ys)

instance abbrev pub list_eq {ℓ} : {A : Type ℓ} ⦃o : Eq A⦄ → Eq (List A)
list_eq = record {
  same = list_beq;
  same→eq = λ k j. (list_beq_iff k j).0;
  eq→same = λ k j. (list_beq_iff k j).1;
}
