-- ===== src/Common/Keys.antt =====
-- The keys of an association list: no key twice, kept by writing and erasing.
use mathlib.Core.Path.{◌≡◌, sym, subst}
use mathlib.Core.Logic.{◌⊎◌, inl, inr}
use mathlib.Core.Option.{some}
use mathlib.Core.List.{List, [], ◌∷◌, map}
use native.Mathlib.Omega.{arith}
use weave_graph.Common.Tests.{Bool-cases}
use weave_graph.Common.Equality.{Eq, ◌==◌, ==_iff, ==_refl}
use weave_graph.Common.Lists.{In, Nodup}
use weave_graph.Common.Maps.{lookup, put, erase}

module _ {K V : Type 0} ⦃o : Eq K⦄ where
  abbrev pub keys : List (K × V) → List K
  keys m = map (λ entry. entry.0) m

  abbrev pub KeysDistinct : List (K × V) → Type 0
  KeysDistinct m = Nodup (keys m)

  In-keys-put :
      (m : List (K × V)) (k other : K) (v : V)
      → In other (keys (put m k v))
      → (other ≡ k) ⊎ In other (keys m)
  In-keys-put [] k other v h = h
  In-keys-put (entry ∷ m) k other v h = ground (arith, ==_iff k entry.0, In-keys-put m k other v)

  In-keys-erase : (m : List (K × V)) (k other : K) → In other (keys (erase m k)) → In other (keys m)
  In-keys-erase [] k other h = h
  In-keys-erase (entry ∷ m) k other h = ground (arith, In-keys-erase m k other)

  pub put-KeysDistinct :
      (m : List (K × V)) (k : K) (v : V) → KeysDistinct m → KeysDistinct (put m k v)
  put-KeysDistinct [] k v d = (λ h. h, tt)
  put-KeysDistinct (entry ∷ m) k v d = elim (Bool-cases (k == entry.0)) [
    | inl e ↦ rw e (subst (λ x. ¬ In x (keys m)) (sym ((==_iff k entry.0).0 e)) d.0, d.1)
    | inr e ↦ rw e (
      λ h. elim (In-keys-put m k entry.0 v h) [
        | inl same ↦ ground (arith, ==_iff k entry.0)
        | inr old ↦ d.0 old
      ],
      put-KeysDistinct m k v d.1,
    )
  ]

  pub erase-KeysDistinct : (m : List (K × V)) (k : K) → KeysDistinct m → KeysDistinct (erase m k)
  erase-KeysDistinct [] k d = tt
  erase-KeysDistinct (entry ∷ m) k d = elim (Bool-cases (k == entry.0)) [
    | inl e ↦ rw e (erase-KeysDistinct m k d.1)
    | inr e ↦ rw e (λ h. d.0 (In-keys-erase m k entry.0 h), erase-KeysDistinct m k d.1)
  ]

  pub lookup_of_In :
      (m : List (K × V)) (entry : K × V) → In entry m → (v : V) × (lookup m entry.0 ≡ some v)
  lookup_of_In [] entry h = absurd h
  lookup_of_In (first ∷ m) entry (inl e) = (first.1, rw e (rw (==_refl first.0)))
  lookup_of_In (first ∷ m) entry (inr h) = elim (Bool-cases (entry.0 == first.0)) [
    | inl e ↦ (first.1, rw e)
    | inr e ↦ let (v, q) = lookup_of_In m entry h in (v, rw e q)
  ]
