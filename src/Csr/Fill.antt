-- ===== src/Csr/Fill.antt =====
-- `from_sorted_edges` against its rows: the offsets it writes, and what a neighbour slice holds.
use mathlib.Core.List.{append-nil, append_assoc}
use weave_graph.Common.{
  ℕ, zero, suc, ◌+◌, ◌-◌, ◌≤◌, ◌<◌, List, [], ◌∷◌, ◌++◌, length, filter, get_or, set, replicate,
  false, ◌&&◌, ◌||◌, if◌then◌else◌, ltb, leb, nat_eq, ◌≡◌, refl, sym, arith, ◌∙◌, ap, inl, inr,
  Bool-cases, length-append, length-set, length-replicate, length-map, get_or-set,
}
use weave_graph.Csr.{Filling, close_rows, add_edge, add_edges, start, fill}
use weave_graph.Csr.Rows.{Ordered, Ordered-weaken, below, in_range, targets, below-append}

-- What `close_rows` leaves: the offsets of the rounds' rows are the number of columns so far.
record Closed (rounds : ℕ) (s t : Filling) : Type 0 where
  current : t.current_node ≡ s.current_node + rounds
  columns : t.column_indices ≡ s.column_indices
  size : length t.row_offsets ≡ length s.row_offsets
  offsets :
      (j : ℕ)
      → get_or t.row_offsets j 0 ≡ (
          if ltb s.current_node j && leb j (s.current_node + rounds)
          then length s.column_indices
          else get_or s.row_offsets j 0)

close_rows-Closed :
    (rounds : ℕ) (s : Filling)
    → s.current_node + rounds < length s.row_offsets
    → Closed rounds s (close_rows rounds s)
unfolding close_rows
close_rows-Closed zero s h = record {
  current = omega arith;
  columns = refl;
  size = refl;
  offsets = λ j. ground arith;
}
close_rows-Closed (suc rounds) s h =
    let now = s.current_node + 1 in
    let columns = length s.column_indices in
    let s' : Filling = record {
      current_node = now;
      row_offsets = set s.row_offsets now columns;
      column_indices = s.column_indices;
    } in
    let rest = close_rows-Closed rounds s' (omega (arith, length-set s.row_offsets now columns)) in
    record {
      current = omega (arith, rest.current);
      columns = rest.columns;
      size = rest.size ∙ length-set s.row_offsets now columns;
      offsets = λ j. ground (arith, rest.offsets j, get_or-set s.row_offsets now j columns 0);
    }

-- The state after the edges `seen`, which are all in range.
pub record Filled (n : ℕ) (seen : List (ℕ × ℕ)) (s : Filling) : Type 0 where
  pub size : length s.row_offsets ≡ n + 1
  pub within : s.current_node ≤ n
  pub columns : s.column_indices ≡ targets seen
  pub offsets : (i : ℕ) → i ≤ s.current_node → get_or s.row_offsets i 0 ≡ below i seen
  pub full : (i : ℕ) → s.current_node < i → below i seen ≡ length seen

pub length-targets : (es : List (ℕ × ℕ)) → length (targets es) ≡ length es
unfolding targets
length-targets es = length-map (λ e. e.1) es

targets-append : (es fs : List (ℕ × ℕ)) → targets (es ++ fs) ≡ targets es ++ targets fs
unfolding targets
targets-append [] fs = refl
targets-append (e ∷ es) fs = ap (λ r. e.1 ∷ r) (targets-append es fs)

-- Closing rows keeps the invariant, and moves the current row.
close_rows-Filled :
    (n rounds : ℕ) (seen : List (ℕ × ℕ)) (s : Filling)
    → Filled n seen s
    → s.current_node + rounds ≤ n
    → Filled n seen (close_rows rounds s)
close_rows-Filled n rounds seen s f h =
    let c = close_rows-Closed rounds s (omega (arith, f.size)) in
    record {
      size = c.size ∙ f.size;
      within = omega (arith, c.current);
      columns = c.columns ∙ f.columns;
      offsets = λ i l. ground (
        arith,
        c.offsets i,
        f.offsets i,
        f.full i,
        length-targets seen,
        c.current,
        ap length f.columns,
      );
      full = λ i l. f.full i (omega (arith, c.current));
    }

add_edge-Filled :
    (n : ℕ) (seen : List (ℕ × ℕ)) (s : Filling) (u v : ℕ)
    → Filled n seen s
    → s.current_node ≤ u
    → u < n
    → v < n
    → Filled n (seen ++ (u, v) ∷ []) (add_edge n s (u, v))
      × ((add_edge n s (u, v)).current_node ≡ u)
unfolding add_edge targets
add_edge-Filled n seen s u v f h hu hv =
    let t = close_rows (u - s.current_node) s in
    let g = close_rows-Filled n (u - s.current_node) seen s f (omega arith) in
    let c = close_rows-Closed (u - s.current_node) s (omega (arith, f.size)) in
    let inside : (leb n u || leb n v) ≡ false = ground arith in
    rw inside (
      record {
        size = g.size;
        within = g.within;
        columns = ap (λ r. r ++ v ∷ []) g.columns ∙ sym (targets-append seen ((u, v) ∷ []));
        offsets = λ i l. ground (arith, g.offsets i, below-append i seen ((u, v) ∷ []), c.current);
        full = λ i l. ground (
          arith,
          g.full i,
          below-append i seen ((u, v) ∷ []),
          length-append seen ((u, v) ∷ []),
          c.current,
        );
      },
      omega (arith, c.current),
    )

add_edge-skip : (n : ℕ) (s : Filling) (e : ℕ × ℕ) → in_range n e ≡ false → add_edge n s e ≡ s
unfolding add_edge
add_edge-skip n s e h = ground arith

get_or-replicate : (n i x : ℕ) → get_or (replicate n x) i x ≡ x
get_or-replicate zero i x = refl
get_or-replicate (suc n) zero x = refl
get_or-replicate (suc n) (suc i) x = get_or-replicate n i x

add_edges-Filled :
    (n : ℕ) (seen rest : List (ℕ × ℕ)) (s : Filling)
    → Filled n seen s
    → Ordered s.current_node rest
    → Filled n (seen ++ filter (in_range n) rest) (add_edges n s rest)
unfolding add_edges
add_edges-Filled n seen [] s f o = rw append-nil f
add_edges-Filled n seen (e ∷ rest) s f o = elim (Bool-cases (in_range n e)) [
  | inl inside ↦
      let (f', now) = add_edge-Filled n seen s e.0 e.1 f o.0 (ground arith) (ground arith) in
      let done = add_edges-Filled n (seen ++ e ∷ []) rest (add_edge n s e) f' (rw now o.1) in
      rw inside (rw append_assoc at done)
  | inr outside ↦
      let skip : add_edge n s e ≡ s = add_edge-skip n s e outside in
      rw (outside, skip)
        (add_edges-Filled n seen rest s f (Ordered-weaken s.current_node e.0 rest o.0 o.1))
]

start-Filled : (n : ℕ) → Filled n [] (start n)
unfolding targets
start-Filled n = record {
  size = length-replicate (n + 1) 0;
  within = omega arith;
  columns = refl;
  offsets = λ i l. get_or-replicate (n + 1) i 0;
  full = λ i l. refl;
}

-- After the loops the offset of every row is the number of edges in range with a lower source.
pub fill-Filled :
    (n : ℕ) (edges : List (ℕ × ℕ))
    → Ordered 0 edges
    → (t : Filling) × Filled n (filter (in_range n) edges) t
      × (t.current_node ≡ n)
      × (fill edges n ≡ record { row_offsets = t.row_offsets; column_indices = t.column_indices })
unfolding fill
fill-Filled n edges o =
    let s = add_edges n (start n) edges in
    let f = add_edges-Filled n [] edges (start n) (start-Filled n) o in
    let c = close_rows-Closed (n - s.current_node) s (omega (arith, f.size, f.within)) in
    (
      close_rows (n - s.current_node) s,
      close_rows-Filled n (n - s.current_node) (filter (in_range n) edges) s f
          (omega (arith, f.within)),
      omega (arith, c.current, f.within),
      refl,
    )
