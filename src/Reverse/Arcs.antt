-- ===== src/Reverse/Arcs.antt =====
-- The loops of `build_reverse` as passes over the arcs of the graph.
use weave_graph.Common.{
  ℕ, zero, suc, ◌+◌, ◌-◌, ◌≤◌, ◌<◌, List, [], ◌∷◌, ◌++◌, length, get_or, set, take, drop, nat_eq,
  nat_beq_iff, leb, ◌≡◌, refl, sym, ap, ◌∙◌, arith, false, length-set, get_or-set, In, In-append,
  subst, ◌↔◌,
}
use weave_graph.Csr.{CompactCsr, neighbors_slice, node_count, slice}
use weave_graph.Csr.Neighbors.{IsWellFormed}
use weave_graph.Reverse.{in_degrees, prefix_sums, place, scatter}
use weave_graph.Reverse.Scatter.{into, base, base_suc, heads, place_arc, place_arcs}

abbrev pub out_arcs : ℕ → List ℕ → List (ℕ × ℕ)
out_arcs u [] = []
out_arcs u (v ∷ vs) = (u, v) ∷ out_arcs u vs

-- The arcs out of `rounds` nodes from `u` on, in the order of the loops.
abbrev pub arcs : CompactCsr → ℕ → ℕ → List (ℕ × ℕ)
arcs g zero u = []
arcs g (suc rounds) u = out_arcs u (neighbors_slice g u) ++ arcs g rounds (u + 1)

place_arcs-append :
    (state : List ℕ × List ℕ) (xs ys : List (ℕ × ℕ))
    → place_arcs state (xs ++ ys) ≡ place_arcs (place_arcs state xs) ys
unfolding place_arcs
place_arcs-append state [] ys = refl
place_arcs-append state (a ∷ xs) ys = place_arcs-append (place_arc state a) xs ys

place-eq :
    (u : ℕ) (state : List ℕ × List ℕ) (vs : List ℕ)
    → place u state vs ≡ place_arcs state (out_arcs u vs)
unfolding place place_arcs
place-eq u state [] = refl
place-eq u state (v ∷ vs) = place-eq u (place_arc state (u, v)) vs

pub scatter-eq :
    (g : CompactCsr) (rounds u : ℕ) (state : List ℕ × List ℕ)
    → scatter g rounds u state ≡ place_arcs state (arcs g rounds u)
unfolding scatter place_arcs
scatter-eq g zero u state = refl
scatter-eq g (suc rounds) u state =
    scatter-eq g rounds (u + 1) (place u state (neighbors_slice g u))
    ∙ ap (λ s. place_arcs s (arcs g rounds (u + 1))) (place-eq u state (neighbors_slice g u))
    ∙ sym (place_arcs-append state (out_arcs u (neighbors_slice g u)) (arcs g rounds (u + 1)))

heads-append : (xs ys : List (ℕ × ℕ)) → heads (xs ++ ys) ≡ heads xs ++ heads ys
heads-append [] ys = refl
heads-append (a ∷ xs) ys = ap (λ r. a.1 ∷ r) (heads-append xs ys)

heads-out_arcs : (u : ℕ) (vs : List ℕ) → heads (out_arcs u vs) ≡ vs
heads-out_arcs u [] = refl
heads-out_arcs u (v ∷ vs) = ap (λ r. v ∷ r) (heads-out_arcs u vs)

take_nil : (n : ℕ) → take {A = ℕ} n [] ≡ []
take_nil zero = refl
take_nil (suc n) = refl

-- Two slices that meet are one.
drop-slice : (xs : List ℕ) (a b : ℕ) → a ≤ b → slice xs a b ++ drop b xs ≡ drop a xs
drop-slice xs zero b h = let e : b - 0 ≡ b = omega arith in rw e (take-append-drop' b xs)
  where
    take-append-drop' : (n : ℕ) (ys : List ℕ) → take n ys ++ drop n ys ≡ ys
    take-append-drop' zero ys = refl
    take-append-drop' (suc n) [] = refl
    take-append-drop' (suc n) (y ∷ ys) = ap (λ r. y ∷ r) (take-append-drop' n ys)
drop-slice xs (suc a) zero h = absurd (omega arith)
drop-slice [] (suc a) (suc b) h = rw (take_nil (suc b - suc a))
drop-slice (x ∷ xs) (suc a) (suc b) h =
    let e : suc b - suc a ≡ b - a = omega arith in rw e (drop-slice xs a b (omega arith))

drop_all : (xs : List ℕ) → drop (length xs) xs ≡ []
drop_all [] = refl
drop_all (x ∷ xs) = drop_all xs

heads-arcs_from :
    (g : CompactCsr) (rounds u : ℕ)
    → IsWellFormed g
    → u + rounds + 1 ≡ length g.row_offsets
    → heads (arcs g rounds u) ≡ drop (get_or g.row_offsets u 0) g.column_indices
unfolding neighbors_slice
heads-arcs_from g zero u w h =
    let at_end : length g.row_offsets - 1 ≡ u = omega arith in
    let last : get_or g.row_offsets u 0 ≡ length g.column_indices =
      subst (λ i. get_or g.row_offsets i 0 ≡ length g.column_indices) at_end w.last in
    rw last (sym (drop_all g.column_indices))
heads-arcs_from g (suc rounds) u w h =
    let test : leb (length g.row_offsets) (u + 1) ≡ false = ground arith in
    heads-append (out_arcs u (neighbors_slice g u)) (arcs g rounds (u + 1))
    ∙ ap (λ r. r ++ heads (arcs g rounds (u + 1))) (heads-out_arcs u (neighbors_slice g u))
    ∙ rw test (
        ap
          (λ r.
            slice g.column_indices (get_or g.row_offsets u 0) (get_or g.row_offsets (u + 1) 0) ++ r)
          (heads-arcs_from g rounds (u + 1) w (omega arith))
        ∙ drop-slice g.column_indices _ _ (w.rising u (omega arith)))

-- The columns are the heads of the arcs.
pub heads-arcs :
    (g : CompactCsr) → IsWellFormed g → heads (arcs g (node_count g) 0) ≡ g.column_indices
unfolding node_count
heads-arcs g w =
    heads-arcs_from g (length g.row_offsets - 1) 0 w (omega (arith, w.rows)) ∙ (rw w.first)

In-out_arcs_of : (u : ℕ) (vs : List ℕ) (a : ℕ × ℕ) → In a (out_arcs u vs) ↔ ((a.0 ≡ u) × In a.1 vs)
In-out_arcs_of u [] a = (λ m. absurd m, λ p. absurd p.1)
In-out_arcs_of u (v ∷ vs) a = ground (arith, In-out_arcs_of u vs a)

In-out_arcs :
    (g : CompactCsr) (u : ℕ) (a : ℕ × ℕ)
    → In a (out_arcs u (neighbors_slice g u)) ↔ ((a.0 ≡ u) × In a.1 (neighbors_slice g a.0))
In-out_arcs g u a = (
  λ m.
      let (e, n) = (In-out_arcs_of u (neighbors_slice g u) a).0 m in
      (e, subst (λ x. In a.1 (neighbors_slice g x)) (sym e) n),
  λ (e, n).
      (In-out_arcs_of u (neighbors_slice g u) a).1
        (e, subst (λ x. In a.1 (neighbors_slice g x)) e n),
)

pub In-arcs :
    (g : CompactCsr) (rounds u : ℕ) (a : ℕ × ℕ)
    → In a (arcs g rounds u) ↔ ((u ≤ a.0) × (a.0 < u + rounds) × In a.1 (neighbors_slice g a.0))
In-arcs g zero u a = (λ m. absurd m, λ p. absurd (omega arith))
In-arcs g (suc rounds) u a = ground (
  arith,
  In-append a (out_arcs u (neighbors_slice g u)) (arcs g rounds (u + 1)),
  In-out_arcs g u a,
  In-arcs g rounds (u + 1) a,
)

pub length-in_degrees : (ds vs : List ℕ) → length (in_degrees ds vs) ≡ length ds
unfolding in_degrees
length-in_degrees ds [] = refl
length-in_degrees ds (v ∷ vs) =
    length-in_degrees (set ds v (get_or ds v 0 + 1)) vs ∙ length-set ds v (get_or ds v 0 + 1)

pub get_or-in_degrees :
    (ds : List ℕ) (pass : List (ℕ × ℕ)) (v : ℕ)
    → v < length ds
    → get_or (in_degrees ds (heads pass)) v 0 ≡ get_or ds v 0 + into v pass
unfolding in_degrees
get_or-in_degrees ds [] v h = omega arith
get_or-in_degrees ds (a ∷ pass) v h =
    let ds' = set ds a.1 (get_or ds a.1 0 + 1) in
    ground (
      arith,
      get_or-in_degrees ds' pass v,
      length-set ds a.1 (get_or ds a.1 0 + 1),
      get_or-set ds a.1 v (get_or ds a.1 0 + 1) 0,
      nat_beq_iff a.1 v,
    )

pub length-prefix_sums : (s : ℕ) (ds : List ℕ) → length (prefix_sums s ds) ≡ length ds + 1
unfolding prefix_sums
length-prefix_sums s [] = omega arith
length-prefix_sums s (d ∷ ds) = omega (arith, length-prefix_sums (s + d) ds)

prefix_sums_head : (s : ℕ) (ds : List ℕ) → get_or (prefix_sums s ds) 0 0 ≡ s
unfolding prefix_sums
prefix_sums_head s [] = refl
prefix_sums_head s (d ∷ ds) = refl

prefix_sums_step :
    (s : ℕ) (ds : List ℕ) (v : ℕ)
    → v < length ds
    → get_or (prefix_sums s ds) (suc v) 0 ≡ get_or (prefix_sums s ds) v 0 + get_or ds v 0
unfolding prefix_sums
prefix_sums_step s [] v h = absurd (omega arith)
prefix_sums_step s (d ∷ ds) zero h = prefix_sums_head (s + d) ds
prefix_sums_step s (d ∷ ds) (suc v) h = prefix_sums_step (s + d) ds v (omega arith)

-- With the in-degrees for its entries, a prefix sum is where a row starts.
pub prefix_sums-base :
    (ds : List ℕ) (all : List (ℕ × ℕ))
    → ((v : ℕ) → v < length ds → get_or ds v 0 ≡ into v all)
    → (v : ℕ) → v ≤ length ds
    → get_or (prefix_sums 0 ds) v 0 ≡ base v all
prefix_sums-base ds all degrees zero h = prefix_sums_head 0 ds ∙ sym (base_zero all)
  where
    base_zero : (xs : List (ℕ × ℕ)) → base 0 xs ≡ 0
    base_zero [] = refl
    base_zero (x ∷ xs) = ground (arith, base_zero xs)
prefix_sums-base ds all degrees (suc v) h =
    let e : suc v ≡ v + 1 = omega arith in
    let next : base (suc v) all ≡ base v all + into v all = rw e (base_suc v all) in
    omega (
      arith,
      prefix_sums_step 0 ds v (omega arith),
      prefix_sums-base ds all degrees v (omega arith),
      degrees v (omega arith),
      next,
    )
