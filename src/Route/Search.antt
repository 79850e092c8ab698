-- ===== src/Route/Search.antt =====
-- The loop of the search: it returns within as many rounds as there are nodes, with a way to the
-- target, or nothing where there is none.
use weave_graph.Common.{
  ℕ, zero, suc, ◌<◌, ◌≤◌, List, [], ◌∷◌, length, List-cases, true, false, ◌==◌, ==_iff, ==_refl,
  nat_eq, In, ◌≡◌, refl, sym, ap, inl, inr, subst, arith,
}
use weave_graph.Bitmap.{Bitmap}
use weave_graph.Csr.{CompactCsr, neighbors_slice}
use weave_graph.Bfs
use weave_graph.Bfs.{Within}
use weave_graph.Route.{
  Answer, route, no_path, panic, out_of_fuel, Trail, Step, returned, searching, look, scan, search,
  start,
}
use weave_graph.Route.Climb.{Way, Traced, begin}
use weave_graph.Route.Scan.{unvisited, unvisited-insert, Sound, work, Goes, look_lem}

module _ (bitmap : Bitmap) (csr : CompactCsr) (n from to : ℕ)
    (low : (u v : ℕ) → In v (neighbors_slice csr u) → v < n) where
  open bitmap use {contains, insert, empty, contains-insert, contains-empty}

  -- A path leads from the start to the target, and without one no walk does.
  abbrev pub Found : Answer → Type 0
  Found (route path) = Way csr to from path
  Found no_path = (k : ℕ) → ¬ Within csr from k to
  Found panic = ⊥
  Found out_of_fuel = ⊥

  scan_lem :
      (current : ℕ) (rest : List ℕ) (budget : ℕ) (step : Step bitmap)
      → Goes bitmap csr n from to low current rest budget step
      → ((v : ℕ) → In v rest → In v (neighbors_slice csr current))
      → Goes bitmap csr n from to low current [] budget (scan bitmap from to current step rest)
  unfolding scan Goes
  scan_lem current rest budget (returned a) g sub = g
  scan_lem current [] budget (searching t) g sub = g
  scan_lem current (neighbor ∷ rest) budget (searching t) (s, c, e) sub =
      scan_lem current rest budget (look bitmap from to current t neighbor)
        (subst
          (λ b.
            Goes bitmap csr n from to low current rest b (look bitmap from to current t neighbor))
          e
          (look_lem bitmap csr n from to low current rest t neighbor s c (sub neighbor (inl refl))))
        (λ v m. sub v (inr m))

  -- Without a queue, the visited nodes are closed under edges.
  stays :
      (current : ℕ) (t : Trail bitmap)
      → Sound bitmap csr n from to low current [] t
      → t.queue ≡ []
      → (k w : ℕ) → Within csr from k w
      → contains t.visited w ≡ true
  stays current t s e k w Bfs.here = s.begun
  stays current t s e k w (Bfs.step {k = j} {u = u} p m) =
      elim (s.closed u w (stays current t s e j u p) m) [
        | inl a ↦ a
        | inr (inl b) ↦ absurd (subst (In u) e b)
        | inr (inr (_, c)) ↦ absurd c
      ]

  pop :
      (last : ℕ) (t : Trail bitmap) (current : ℕ) (queue : List ℕ)
      → Sound bitmap csr n from to low last [] t
      → t.queue ≡ current ∷ queue
      → Sound bitmap csr n from to low current
          (neighbors_slice csr current)
          (record t { queue = queue })
  pop last t current queue s e = record {
    traced = s.traced;
    fresh = s.fresh;
    begun = s.begun;
    away = s.away;
    queued = λ v m. s.queued v (rw e (inr m));
    closed = λ u w c m. elim (s.closed u w c m) [
      | inl a ↦ inl a
      | inr (inl b) ↦ elim (subst (In u) e b) [
        | inl same ↦ inr (inr (same, subst (λ x. In w (neighbors_slice csr x)) same m))
        | inr k ↦ inr (inl k)
      ]
      | inr (inr (_, k)) ↦ absurd k
    ];
  }

  no_queue : (queue : List ℕ) → length queue ≤ 0 → queue ≡ []
  no_queue [] h = refl
  no_queue (x ∷ queue) h = absurd (omega arith)

  search-empty :
      (fuel : ℕ) (t : Trail bitmap)
      → t.queue ≡ []
      → search bitmap fuel csr from to (searching t) ≡ no_path
  unfolding search
  search-empty zero t q = rw (q, search) refl
  search-empty (suc fuel) t q = rw (q, search) refl

  search-pop :
      (fuel : ℕ) (t : Trail bitmap) (current : ℕ) (queue : List ℕ)
      → t.queue ≡ current ∷ queue
      → search bitmap (suc fuel) csr from to (searching t)
        ≡ search bitmap fuel csr from to (
            scan bitmap from to current
              (searching (record t { queue = queue }))
              (neighbors_slice csr current))
  unfolding search
  search-pop fuel t current queue q = rw (q, search) refl

  search_lem :
      (fuel last budget : ℕ) (step : Step bitmap)
      → Goes bitmap csr n from to low last [] budget step
      → budget ≤ fuel
      → Found (search bitmap fuel csr from to step)
  unfolding search Goes work
  search_lem fuel last budget (returned a) (path, e, w) h = rw e w
  search_lem zero last budget (searching t) (s, c, e) h =
      subst Found (sym (search-empty zero t (no_queue t.queue (omega (arith, e)))))
        (λ k w. cc (s.away, stays last t s (no_queue t.queue (omega (arith, e))) k to w))
  search_lem (suc fuel) last budget (searching t) (s, c, e) h = elim (List-cases t.queue) [
    | inl q ↦
        subst Found (sym (search-empty (suc fuel) t q))
          (λ k w. cc (s.away, stays last t s q k to w))
    | inr (current, queue, q) ↦
        let popped : Trail bitmap = record t { queue = queue } in
        let budget_left = work bitmap csr n from to low popped in
        let next =
          scan_lem current (neighbors_slice csr current) budget_left (searching popped)
            (pop last t current queue s q, s.queued current (rw q (inl refl)), refl) (λ v m. m) in
        subst Found (sym (search-pop fuel t current queue q)) (
          search_lem fuel current budget_left
            (scan bitmap from to current (searching popped) (neighbors_slice csr current)) next
            (omega (arith, e, ap length q)))
  ]

  unvisited-le : (m : ℕ) (visited : bitmap.Bits) → unvisited bitmap m visited ≤ m
  unfolding unvisited
  unvisited-le zero visited = omega arith
  unvisited-le (suc m) visited = ground (arith, unvisited-le m visited)

  start-Sound : (from == to) ≡ false → Sound bitmap csr n from to low from [] (start bitmap from)
  unfolding start
  start-Sound d = record {
    traced = λ v h. (
      0,
      omega arith,
      subst (Traced csr from [] 0)
          (ground (arith, contains-insert empty from v, contains-empty v, ==_iff v from)) begin,
    );
    fresh = λ v h. refl;
    begun = ground (arith, contains-insert empty from from, ==_refl from);
    away =
        ground
          (arith, contains-insert empty from to, contains-empty to, ==_iff to from, ==_iff from to);
    queued = λ v m. ground (arith, contains-insert empty from v, ==_iff v from);
    closed = λ u w h m.
        inr (
          inl
            (inl (ground (arith, contains-insert empty from u, contains-empty u, ==_iff u from))));
  }

  -- As many rounds as there are nodes are enough: the search returns, with a way to the target or,
  -- where no walk leads there, with none.
  pub search_lem_start :
      from < n
      → (from == to) ≡ false
      → Found (search bitmap n csr from to (searching (start bitmap from)))
  unfolding start Goes work
  search_lem_start small d =
      let s = start-Sound d in
      let spare = unvisited-insert bitmap n from empty small (contains-empty from) in
      search_lem n from (work bitmap csr n from to low (start bitmap from))
        (searching (start bitmap from)) (s, s.begun, refl)
        (omega (arith, spare, unvisited-le n empty))
