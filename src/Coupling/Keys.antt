-- ===== src/Coupling/Keys.antt =====
-- The key of a pair of files, and the pairs that an edge relates.
use weave_graph.Common.{
  Text, List, [], ◌∷◌, In, In-filter_map, filter_map-In, true, Bool-cases, Option, none, some,
  ◌>>=◌, ==_iff, nat_eq, list_eq, text_le, text_le_total, text_le_antisymm, lookup, ◌≡◌, ◌↔◌, ◌⊎◌,
  inl, inr, arith,
}
use weave_graph.Model.{Node, Edge}
use weave_graph.Policy.{path_of}
use weave_graph.Coupling.{key_of, text_pair_beq, declared, is_declared}
use weave_graph.Policy.Paths.{HasPath, path_of_iff}

is_declared_iff :
    (keys : List (Text × Text)) (key : Text × Text) → (is_declared keys key ≡ true) ↔ In key keys
unfolding is_declared text_pair_beq
is_declared_iff [] key = (λ h. cc, λ m. absurd m)
is_declared_iff (k ∷ keys) key =
    ground (arith, is_declared_iff keys key, ==_iff key.0 k.0, ==_iff key.1 k.1)

-- Two pairs of files have the same key just when they are the same up to order.
key_of_iff :
    (a b p q : Text) → (key_of a b ≡ key_of p q) ↔ (((a ≡ p) × (b ≡ q)) ⊎ ((a ≡ q) × (b ≡ p)))
unfolding key_of
key_of_iff a b p q =
    ground (arith, text_le_antisymm a b, text_le_antisymm p q, text_le_total a b, text_le_total p q)

pub key_of_ordered : (a b : Text) → text_le (key_of a b).0 (key_of a b).1 ≡ true
unfolding key_of
key_of_ordered a b = elim (Bool-cases (text_le a b)) [
  | inl e ↦ rw e e
  | inr e ↦ rw e (text_le_total a b e)
]

pub key_of_same :
    (a b p q : Text)
    → text_le p q ≡ true
    → ((p ≡ a) × (q ≡ b)) ⊎ ((p ≡ b) × (q ≡ a))
    → (p, q) ≡ key_of a b
unfolding key_of
key_of_same a b p q h m =
    ground (arith, text_le_antisymm a b, text_le_antisymm p q, text_le_total a b)

pub key_of_ends :
    (a b : Text)
    → (((key_of a b).0 ≡ a) × ((key_of a b).1 ≡ b)) ⊎ (((key_of a b).0 ≡ b) × ((key_of a b).1 ≡ a))
unfolding key_of
key_of_ends a b = ground arith

module _ {Weight : Type 0} (nodes : List Node) (edges : List (Edge Weight)) where
  -- An edge connects the two files, in one direction or the other.
  abbrev pub Related : Text → Text → Type 0
  Related a b =
      (e : Edge Weight) × In e edges
      × ((HasPath nodes e.source_id a × HasPath nodes e.target_id b)
          ⊎ (HasPath nodes e.source_id b × HasPath nodes e.target_id a))

  related_key :
      (s t : Option Text) (a b : Text)
      → ((s >>= λ p. t >>= λ q. some (key_of p q)) ≡ some (key_of a b))
        ↔ (((s ≡ some a) × (t ≡ some b)) ⊎ ((s ≡ some b) × (t ≡ some a)))
  related_key none t a b = ground arith
  related_key (some p) none a b = ground arith
  related_key (some p) (some q) a b = ground (arith, key_of_iff p q a b)

  ends_iff :
      (e : Edge Weight) (a b : Text)
      → (((lookup (path_of nodes) e.source_id ≡ some a)
            × (lookup (path_of nodes) e.target_id ≡ some b))
          ⊎ ((lookup (path_of nodes) e.source_id ≡ some b)
              × (lookup (path_of nodes) e.target_id ≡ some a)))
        ↔ ((HasPath nodes e.source_id a × HasPath nodes e.target_id b)
            ⊎ (HasPath nodes e.source_id b × HasPath nodes e.target_id a))
  ends_iff e a b =
      let (sa, sa') = path_of_iff nodes e.source_id a in
      let (sb, sb') = path_of_iff nodes e.source_id b in
      let (ta, ta') = path_of_iff nodes e.target_id a in
      let (tb, tb') = path_of_iff nodes e.target_id b in
      (
        λ h. elim h [ inl (x, y) ↦ inl (sa x, tb y) | inr (x, y) ↦ inr (sb x, ta y) ],
        λ h. elim h [ inl (x, y) ↦ inl (sa' x, tb' y) | inr (x, y) ↦ inr (sb' x, ta' y) ],
      )

  pub Related-iff :
      (a b : Text) → (is_declared (declared nodes edges) (key_of a b) ≡ true) ↔ Related a b
  unfolding declared
  Related-iff a b =
      let ends : Edge Weight → Option (Text × Text) = λ e.
        lookup (path_of nodes) e.source_id >>= λ p.
        lookup (path_of nodes) e.target_id >>= λ q. some (key_of p q) in
      (
        λ h.
            let (e, m, k) =
              In-filter_map ends edges (key_of a b) ((is_declared_iff _ (key_of a b)).0 h) in
            (e, m, (ends_iff e a b).0 ((related_key _ _ a b).0 k)),
        λ (e, m, k). (is_declared_iff _ (key_of a b)).1 (
            filter_map-In ends edges e (key_of a b) m
              ((related_key _ _ a b).1 ((ends_iff e a b).1 k))),
      )
