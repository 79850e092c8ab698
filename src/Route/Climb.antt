-- ===== src/Route/Climb.antt =====
-- Following `predecessor` back from a visited node gives the way from the start to it.
use weave_graph.Common.{
  ℕ, zero, suc, ◌<◌, List, [], ◌∷◌, ◌++◌, reverse, false, none, some, ◌==◌, ==_iff, ==_refl, nat_eq,
  lookup, put, lookup-put, In, ◌≡◌, refl, arith,
}
use mathlib.Core.List.{reverse-append}
use weave_graph.Csr.{CompactCsr, neighbors_slice}
use weave_graph.Route.{climb}

-- A path from a node to `to`: each next node is a neighbour of the one before it.
pub data Way (csr : CompactCsr) (to : ℕ) : ℕ → List ℕ → Type 0 where
  arrived : Way csr to to (to ∷ [])
  hop :
      {u v : ℕ} {path : List ℕ}
      → In v (neighbors_slice csr u)
      → Way csr to v path
      → Way csr to u (u ∷ path)

module _ (csr : CompactCsr) (from : ℕ) where
  -- The node is the start, or its predecessor has an edge to it and is traced in fewer steps.
  pub data Traced (predecessor : List (ℕ × ℕ)) : ℕ → ℕ → Type 0 where
    begin : Traced predecessor 0 from
    back :
        {k u v : ℕ}
        → lookup predecessor v ≡ some u
        → In v (neighbors_slice csr u)
        → (v == from) ≡ false
        → Traced predecessor k u
        → Traced predecessor (suc k) v

  -- A new key leaves the traces as they are.
  pub Traced-put :
      (predecessor : List (ℕ × ℕ)) (n current : ℕ)
      → lookup predecessor n ≡ none
      → {k v : ℕ} → Traced predecessor k v
      → Traced (put predecessor n current) k v
  Traced-put p n current fresh begin = begin
  Traced-put p n current fresh (back {u = u} {v = v} e m d t) =
      back (ground (arith, lookup-put p n v current, ==_iff v n)) m d
        (Traced-put p n current fresh t)

  pub climb_lem :
      (predecessor : List (ℕ × ℕ)) (to k fuel cur child : ℕ) (path : List ℕ)
      → Traced predecessor k cur
      → k < fuel
      → In child (neighbors_slice csr cur)
      → Way csr to child (reverse path)
      → (walked : List ℕ) × (climb fuel predecessor from cur path ≡ some walked)
        × Way csr to from (reverse walked)
  unfolding climb
  climb_lem p to k zero cur child path t h m w = absurd (omega arith)
  climb_lem p to zero (suc fuel) cur child path begin h m w =
      (path ++ from ∷ [], rw (==_refl from) refl, rw (reverse-append path (from ∷ [])) (hop m w))
  climb_lem p to (suc k) (suc fuel) cur child path (back {u = u} e n d t) h m w =
      let (walked, f, r) =
        climb_lem p to k fuel u cur (path ++ cur ∷ []) t (omega arith) n
          (rw (reverse-append path (cur ∷ [])) (hop m w)) in
      (walked, rw (d, e) f, r)
