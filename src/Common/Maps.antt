-- ===== src/Common/Maps.antt =====
-- A `HashMap` or a `BTreeMap` as an association list with one entry for a key. Only lookups are
-- observed, so the order of the entries stays abstract.
use mathlib.Core.Path.{◌≡◌, refl}
use mathlib.Core.Option.{Option, none, some}
use mathlib.Core.List.{List, [], ◌∷◌}
use native.Mathlib.Omega.{arith}
use weave_graph.Common.Tests.{if◌then◌else◌}
use weave_graph.Common.Equality.{Eq, ◌==◌, ==_iff}
use weave_graph.Common.Lists.{In}

module _ {ℓ κ} {K : Type ℓ} {V : Type κ} ⦃o : Eq K⦄ where
  abbrev pub lookup : List (K × V) → K → Option V
  lookup [] key = none
  lookup (entry ∷ rest) key = if key == entry.0 then some entry.1 else lookup rest key

  -- Replaces the value of the key, or adds an entry for it.
  abbrev pub put : List (K × V) → K → V → List (K × V)
  put [] key value = (key, value) ∷ []
  put (entry ∷ rest) key value =
      if key == entry.0 then (key, value) ∷ rest else entry ∷ put rest key value

  pub lookup-put :
      (m : List (K × V)) (key other : K) (value : V)
      → lookup (put m key value) other ≡ (if other == key then some value else lookup m other)
  lookup-put [] key other value = refl
  lookup-put (entry ∷ rest) key other value = ground (
    arith,
    lookup-put rest key other value,
    ==_iff key entry.0,
    ==_iff other entry.0,
    ==_iff other key,
  )

  abbrev pub erase : List (K × V) → K → List (K × V)
  erase [] key = []
  erase (entry ∷ rest) key = if key == entry.0 then erase rest key else entry ∷ erase rest key

  pub lookup-erase :
      (m : List (K × V)) (key other : K)
      → lookup (erase m key) other ≡ (if other == key then none else lookup m other)
  lookup-erase [] key other = ground arith
  lookup-erase (entry ∷ rest) key other = ground (
    arith,
    lookup-erase rest key other,
    ==_iff key entry.0,
    ==_iff other entry.0,
    ==_iff other key,
  )

  abbrev pub erase_all : List (K × V) → List K → List (K × V)
  erase_all m [] = m
  erase_all m (key ∷ keys) = erase_all (erase m key) keys

  -- `.collect()` into a map: a later entry for a key replaces an earlier one.
  abbrev pub collect_from : List (K × V) → List (K × V) → List (K × V)
  collect_from m [] = m
  collect_from m (entry ∷ rest) = collect_from (put m entry.0 entry.1) rest

  abbrev pub collect : List (K × V) → List (K × V)
  collect = collect_from []

module _ {K V : Type 0} ⦃o : Eq K⦄ where
  pub In-lookup :
      (m : List (K × V)) (key : K) (value : V) → lookup m key ≡ some value → In (key, value) m
  In-lookup [] key value e = cc
  In-lookup (entry ∷ rest) key value e =
      ground (arith, In-lookup rest key value, ==_iff key entry.0)

  -- The list has one entry for a key at most, as the map that it stands for.
  abbrev pub IsMap : List (K × V) → Type 0
  IsMap m = (key : K) (value : V) → In (key, value) m → lookup m key ≡ some value
