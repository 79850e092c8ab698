-- ===== src/Reverse/Transpose.antt =====
-- `build_reverse` transposes the graph.
use weave_graph.Common.{
  ℕ, zero, suc, ◌+◌, ◌-◌, ◌≤◌, ◌<◌, List, [], ◌∷◌, length, get_or, set, take, drop, replicate,
  nat_eq, leb, ltb, ltb→lt, ◌≡◌, refl, sym, ap, ◌∙◌, arith, inl, inr, true, false, Bool-cases,
  length-replicate, In, subst, ◌↔◌, ◌⊎◌,
}
use weave_graph.Csr.{CompactCsr, neighbors_slice, node_count, edge_count}
use weave_graph.Csr.Neighbors.{IsWellFormed}
use weave_graph.Reverse.{in_degrees, prefix_sums, build_reverse}
use weave_graph.Reverse.Scatter.{
  sources, into, base, base_suc, base_mono, base-le, heads, place_arc, place_arcs, Placed,
  place_arcs-Placed, length-sources,
}
use weave_graph.Reverse.Arcs.{
  arcs, scatter-eq, heads-arcs, In-arcs, length-in_degrees, get_or-in_degrees, length-prefix_sums,
  prefix_sums-base,
}

-- A slice that agrees with a list at every place is that list.
slice-eq :
    (xs : List ℕ) (b : ℕ) (ys : List ℕ)
    → b + length ys ≤ length xs
    → ((k : ℕ) → k < length ys → get_or xs (b + k) 0 ≡ get_or ys k 0)
    → take (length ys) (drop b xs) ≡ ys
slice-eq xs zero [] h e = refl
slice-eq [] zero (y ∷ ys) h e = absurd (omega arith)
slice-eq (x ∷ xs) zero (y ∷ ys) h e =
    let head : x ≡ y = e 0 (omega arith) in
    rw (
      head,
      slice-eq xs 0 ys (omega arith) (λ k l.
          let at = e (suc k) (omega arith) in
          let z : 0 + suc k ≡ suc (0 + k) = omega arith in (rw z at at)),
    )
slice-eq [] (suc b) ys h e = absurd (omega arith)
slice-eq (x ∷ xs) (suc b) ys h e =
    slice-eq xs b ys (omega arith)
      (λ k l. let at = e k l in let z : suc b + k ≡ suc (b + k) = omega arith in (rw z at at))

sources-In : (v u : ℕ) (all : List (ℕ × ℕ)) → In u (sources v all) ↔ In (u, v) all
sources-In v u [] = (λ m. m, λ m. m)
sources-In v u (a ∷ all) = ground (arith, sources-In v u all)

heads_total :
    (n : ℕ) (all : List (ℕ × ℕ)) → ((v : ℕ) → In v (heads all) → v < n) → base n all ≡ length all
heads_total n [] h = refl
heads_total n (a ∷ all) h = ground (arith, heads_total n all (λ v m. h v (inr m)), h a.1 (inl refl))

In-heads : (a : ℕ × ℕ) (xs : List (ℕ × ℕ)) → In a xs → In a.1 (heads xs)
In-heads a [] m = absurd m
In-heads a (x ∷ xs) (inl e) = inl (ap (λ (p : ℕ × ℕ). p.1) e)
In-heads a (x ∷ xs) (inr m) = inr (In-heads a xs m)

base_zero : (xs : List (ℕ × ℕ)) → base 0 xs ≡ 0
base_zero [] = refl
base_zero (a ∷ xs) = ground (arith, base_zero xs)

high_le : (v n : ℕ) → ltb v n ≡ false → n ≤ v
high_le v n h = ground arith

In-set : (x : ℕ) (xs : List ℕ) (i v : ℕ) → In x (set xs i v) → (x ≡ v) ⊎ In x xs
In-set x [] i v m = absurd m
In-set x (y ∷ xs) zero v m = ground arith
In-set x (y ∷ xs) (suc i) v m = ground (arith, In-set x xs i v)

-- Only sources of arcs are written to the columns.
place_arcs-inside :
    (n : ℕ) (xs : List (ℕ × ℕ)) (state : List ℕ × List ℕ)
    → ((a : ℕ × ℕ) → In a xs → a.0 < n)
    → ((x : ℕ) → In x state.1 → x < n)
    → (x : ℕ) → In x (place_arcs state xs).1
    → x < n
unfolding place_arcs
place_arcs-inside n [] state h k x m = k x m
place_arcs-inside n (a ∷ xs) state h k x m =
    place_arcs-inside n xs (place_arc state a) (λ b j. h b (inr j))
      (λ y j. elim (In-set y state.1 (get_or state.0 a.1 0) a.0 j) [
        | inl e ↦ subst (λ z. z < n) (sym e) (h a (inl refl))
        | inr i ↦ k y i
      ])
      x m

In-zeros : (x : ℕ) (xs : List ℕ) → In x (replicate (length xs) 0) → (x ≡ 0) × (c : ℕ) × In c xs
In-zeros x [] m = absurd m
In-zeros x (y ∷ xs) (inl e) = (e, y, inl refl)
In-zeros x (y ∷ xs) (inr m) = let (e, c, i) = In-zeros x xs m in (e, c, inr i)

get_or-zeros : (n i : ℕ) → get_or {A = ℕ} (replicate n 0) i 0 ≡ 0
get_or-zeros zero i = refl
get_or-zeros (suc n) zero = refl
get_or-zeros (suc n) (suc i) = get_or-zeros n i

length-heads : (xs : List (ℕ × ℕ)) → length (heads xs) ≡ length xs
length-heads [] = refl
length-heads (a ∷ xs) = ap suc (length-heads xs)

module _ (g : CompactCsr) (w : IsWellFormed g) where
  abbrev all : List (ℕ × ℕ)
  all = arcs g (node_count g) 0

  abbrev starts : List ℕ
  starts = prefix_sums 0 (in_degrees (replicate (node_count g) 0) g.column_indices)

  columns_inside : (v : ℕ) → In v g.column_indices → v < node_count g
  unfolding node_count
  columns_inside v m = omega (arith, w.columns v m)

  inside : (v : ℕ) → In v (heads all) → v < node_count g
  inside v m = columns_inside v (subst (In v) (heads-arcs g w) m)

  length-degrees : length (in_degrees (replicate (node_count g) 0) g.column_indices) ≡ node_count g
  length-degrees = length-in_degrees _ g.column_indices ∙ length-replicate (node_count g) 0

  starts-base : (v : ℕ) → v ≤ node_count g → get_or starts v 0 ≡ base v all
  starts-base v h =
      prefix_sums-base (in_degrees (replicate (node_count g) 0) g.column_indices) all
        (λ x l.
          let low : x < length (replicate {A = ℕ} (node_count g) 0) =
            omega (arith, length-replicate {A = ℕ} (node_count g) 0, l, length-degrees) in
          let zero_there = get_or-zeros (node_count g) x in
          subst (λ cs. get_or (in_degrees (replicate (node_count g) 0) cs) x 0 ≡ into x all)
            (heads-arcs g w)
            (omega (arith, get_or-in_degrees (replicate (node_count g) 0) all x low, zero_there)))
        v (omega (arith, length-degrees))

  length-starts : length starts ≡ node_count g + 1
  length-starts = omega (arith, length-prefix_sums 0 _, length-degrees)

  abbrev final : List ℕ × List ℕ
  final = place_arcs (starts, replicate (edge_count g) 0) all

  final-Placed : Placed (node_count g) all all final
  unfolding edge_count
  final-Placed = place_arcs-Placed (node_count g) [] all _ inside (record {
    offsets = length-starts;
    slots = length-replicate _ 0 ∙ sym (ap length (heads-arcs g w)) ∙ length-heads all;
    current = λ v h. omega (arith, starts-base v (omega arith));
    filled = λ v k h l. absurd (omega arith);
  })

  reverse-eq : build_reverse g ≡ record { row_offsets = starts; column_indices = final.1 }
  unfolding build_reverse
  reverse-eq = rw (scatter-eq g (node_count g) 0 (starts, replicate (edge_count g) 0))

  reverse_slice : (v : ℕ) → v < node_count g → neighbors_slice (build_reverse g) v ≡ sources v all
  unfolding neighbors_slice
  reverse_slice v h =
      let test : leb (length starts) (v + 1) ≡ false = ground (arith, length-starts) in
      let room = base_suc v all in
      let size : base (v + 1) all - base v all ≡ length (sources v all) =
        omega (arith, base_suc v all, length-sources v all) in
      rw (reverse-eq, test, starts-base v (omega arith), starts-base (v + 1) (omega arith), size)
        (slice-eq final.1 (base v all) (sources v all)
          (omega
            (arith, final-Placed.slots, base-le (v + 1) all, base_suc v all, length-sources v all))
          (λ k l. final-Placed.filled v k h (omega (arith, length-sources v all))))

  reverse_outside : (v : ℕ) → node_count g ≤ v → neighbors_slice (build_reverse g) v ≡ []
  unfolding neighbors_slice
  reverse_outside v h =
      let test : leb (length starts) (v + 1) ≡ true = ground (arith, length-starts) in
      rw (reverse-eq, test)

  neighbors-lt : (u v : ℕ) → In v (neighbors_slice g u) → u < node_count g
  unfolding neighbors_slice node_count
  neighbors-lt u v m = elim (Bool-cases (leb (length g.row_offsets) (u + 1))) [
    | inl e ↦ absurd (rw (e, neighbors_slice) at m)
    | inr e ↦ ground arith
  ]

  arc : (u v : ℕ) → In v (neighbors_slice g u) → In (u, v) all
  arc u v m =
      (In-arcs g (node_count g) 0 (u, v)).1 (omega arith, omega (arith, neighbors-lt u v m), m)

  reverse_iff : (u v : ℕ) → In u (neighbors_slice (build_reverse g) v) ↔ In v (neighbors_slice g u)
  reverse_iff u v = elim (Bool-cases (ltb v (node_count g))) [
    | inl low ↦ rw (reverse_slice v (ground arith)) (
      λ m. ((In-arcs g (node_count g) 0 (u, v)).0 ((sources-In v u all).0 m)).2,
      λ m. (sources-In v u all).1 (arc u v m),
    )
    | inr high ↦ rw (reverse_outside v (ground arith)) (
      λ m. absurd m,
      λ m. absurd (
          omega (
            arith,
            inside v (In-heads (u, v) all (arc u v m)),
            ltb→lt v (node_count g),
            high_le v (node_count g) high,
          )),
    )
  ]

  reverse_nodes : node_count (build_reverse g) ≡ node_count g
  unfolding node_count
  reverse_nodes = rw reverse-eq (omega (arith, length-starts))

  final_inside : (v : ℕ) → In v final.1 → v < node_count g
  unfolding edge_count
  final_inside v m =
      place_arcs-inside (node_count g) all _
        (λ a n. omega (arith, (In-arcs g (node_count g) 0 a).0 n)) (λ x n. zeros_inside x n) v m
    where
      zeros_inside : (x : ℕ) → In x (replicate (edge_count g) 0) → x < node_count g
      zeros_inside x n =
          let (e, c, i) = In-zeros x g.column_indices n in omega (arith, columns_inside c i)

  reverse-IsWellFormed : IsWellFormed (build_reverse g)
  reverse-IsWellFormed = rw reverse-eq (record {
    rows = omega (arith, length-starts);
    first = starts-base 0 (omega arith) ∙ base_zero all;
    last =
        let e : length starts - 1 ≡ node_count g = omega (arith, length-starts) in
        rw e (
          omega (
            arith,
            starts-base (node_count g) (omega arith),
            heads_total (node_count g) all inside,
            final-Placed.slots,
          ));
    rising = λ u h. omega (
      arith,
      starts-base u (omega (arith, length-starts)),
      starts-base (u + 1) (omega (arith, length-starts)),
      base_mono u (u + 1) all (omega arith),
    );
    columns = λ v m. omega (arith, length-starts, final_inside v m);
  })

-- Transposing a well-formed structure gives a well-formed one with as many nodes, in which `u` is
-- a neighbour of `v` exactly when `v` was one of `u`. The row of a node lists the sources of its
-- arcs in the order of the outer loop, each as often as it has an arc there.
pub build_reverse_lem :
    (g : CompactCsr)
    → IsWellFormed g
    → IsWellFormed (build_reverse g)
      × (node_count (build_reverse g) ≡ node_count g)
      × ((u v : ℕ) → In u (neighbors_slice (build_reverse g) v) ↔ In v (neighbors_slice g u))
      × ((v : ℕ)
          → v < node_count g
          → neighbors_slice (build_reverse g) v ≡ sources v (arcs g (node_count g) 0))
build_reverse_lem g w =
    (reverse-IsWellFormed g w, reverse_nodes g w, reverse_iff g w, reverse_slice g w)
