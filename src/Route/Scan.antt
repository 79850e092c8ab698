-- ===== src/Route/Scan.antt =====
-- What the search keeps while it scans the neighbours of a node.
use weave_graph.Common.{
  ℕ, zero, suc, ◌+◌, ◌<◌, ◌≤◌, List, [], ◌∷◌, ◌++◌, length, length-append, true, false, Bool-cases,
  none, ◌==◌, ==_iff, ==_refl, nat_eq, if◌then◌else◌, lookup, put, lookup-put, In, In-append, ◌≡◌,
  refl, sym, ap, ◌⊎◌, inl, inr, subst, arith,
}
use weave_graph.Bitmap.{Bitmap}
use weave_graph.Csr.{CompactCsr, neighbors_slice}
use weave_graph.Route.{climb, finish, route, Trail, Step, returned, searching, look}
use weave_graph.Route.Climb.{Way, arrived, Traced, back, Traced-put, climb_lem}

length-put_new :
    (p : List (ℕ × ℕ)) (n c : ℕ) → lookup p n ≡ none → length (put p n c) ≡ suc (length p)
length-put_new [] n c h = refl
length-put_new (e ∷ p) n c h = ground (arith, length-put_new p n c)

module _ (bitmap : Bitmap) where
  open bitmap use {Bits, contains, insert, contains-insert}

  -- The numbers below `n` that the set lacks.
  unfoldable pub unvisited : ℕ → Bits → ℕ
  unvisited zero visited = 0
  unvisited (suc n) visited =
      let below = unvisited n visited in if contains visited n then below else suc below

  unvisited-beyond :
      (n x : ℕ) (visited : Bits) → n ≤ x → unvisited n (insert visited x).0 ≡ unvisited n visited
  unfolding unvisited
  unvisited-beyond zero x visited h = refl
  unvisited-beyond (suc n) x visited h =
      ground
        (arith, unvisited-beyond n x visited (omega arith), contains-insert visited x n, ==_iff n x)

  pub unvisited-insert :
      (n x : ℕ) (visited : Bits)
      → x < n
      → contains visited x ≡ false
      → suc (unvisited n (insert visited x).0) ≡ unvisited n visited
  unfolding unvisited
  unvisited-insert zero x visited h e = absurd (omega arith)
  unvisited-insert (suc n) x visited h e = elim (Bool-cases (n == x)) [
    | inl same ↦
        ground (arith, unvisited-beyond n x visited, contains-insert visited x n, ==_iff n x)
    | inr other ↦
        ground (arith, unvisited-insert n x visited, contains-insert visited x n, ==_iff n x)
  ]

  module _ (csr : CompactCsr) (n from to : ℕ)
      (low : (u v : ℕ) → In v (neighbors_slice csr u) → v < n) where
    -- While the neighbours `rest` of `current` are still to be looked at.
    pub record Sound (current : ℕ) (rest : List ℕ) (t : Trail bitmap) : Type 0 where
      pub traced :
          (v : ℕ)
          → contains t.visited v ≡ true
          → (k : ℕ) × (k ≤ length t.predecessor) × Traced csr from t.predecessor k v
      pub fresh : (v : ℕ) → contains t.visited v ≡ false → lookup t.predecessor v ≡ none
      pub begun : contains t.visited from ≡ true
      pub away : contains t.visited to ≡ false
      pub queued : (v : ℕ) → In v t.queue → contains t.visited v ≡ true
      pub closed :
          (u w : ℕ)
          → contains t.visited u ≡ true
          → In w (neighbors_slice csr u)
          → (contains t.visited w ≡ true) ⊎ In u t.queue ⊎ ((u ≡ current) × In w rest)

    unfoldable pub work : Trail bitmap → ℕ
    work t = unvisited n t.visited + length t.queue

    -- A search that went on, or one that returned a way to `to`.
    unfoldable pub Goes : ℕ → List ℕ → ℕ → Step bitmap → Type 0
    Goes current rest budget (returned a) =
        (path : List ℕ) × (a ≡ route path) × Way csr to from path
    Goes current rest budget (searching t) =
        Sound current rest t × (contains t.visited current ≡ true) × (work t ≡ budget)

    arrives :
        (current : ℕ) (rest : List ℕ) (t : Trail bitmap) (neighbor : ℕ)
        → Sound current (neighbor ∷ rest) t
        → contains t.visited current ≡ true
        → In neighbor (neighbors_slice csr current)
        → neighbor ≡ to
        → (path : List ℕ) × (finish (
              climb
                (length (put t.predecessor neighbor current) + 1)
                (put t.predecessor neighbor current)
                from
                current
                (to ∷ []))
            ≡ route path)
          × Way csr to from path
    unfolding finish
    arrives current rest t neighbor s c m e =
        let new : lookup t.predecessor neighbor ≡ none = s.fresh neighbor (rw e s.away) in
        let (k, small, trace) = s.traced current c in
        let (walked, f, w) =
          climb_lem csr from (put t.predecessor neighbor current) to k
            (length (put t.predecessor neighbor current) + 1) current to (to ∷ [])
            (Traced-put csr from t.predecessor neighbor current new trace)
            (omega (arith, length-put_new t.predecessor neighbor current new))
            (subst (λ x. In x (neighbors_slice csr current)) e m) arrived in
        (_, ap finish f, w)

    -- A neighbour that was visited before.
    passes :
        (current : ℕ) (rest : List ℕ) (t : Trail bitmap) (neighbor : ℕ)
        → Sound current (neighbor ∷ rest) t
        → contains t.visited neighbor ≡ true
        → Sound current rest t
    passes current rest t neighbor s seen = record {
      traced = s.traced;
      fresh = s.fresh;
      begun = s.begun;
      away = s.away;
      queued = s.queued;
      closed = λ u w c m. elim (s.closed u w c m) [
        | inl a ↦ inl a
        | inr (inl b) ↦ inr (inl b)
        | inr (inr (e, inl same)) ↦ inl (subst (λ x. contains t.visited x ≡ true) (sym same) seen)
        | inr (inr (e, inr k)) ↦ inr (inr (e, k))
      ];
    }

    abbrev advance : Trail bitmap → ℕ → ℕ → Trail bitmap
    advance t current neighbor = record {
      visited = (insert t.visited neighbor).0;
      predecessor = put t.predecessor neighbor current;
      queue = t.queue ++ neighbor ∷ [];
    }

    advance-Sound :
        (current : ℕ) (rest : List ℕ) (t : Trail bitmap) (neighbor : ℕ)
        → Sound current (neighbor ∷ rest) t
        → contains t.visited current ≡ true
        → In neighbor (neighbors_slice csr current)
        → contains t.visited neighbor ≡ false
        → (neighbor == to) ≡ false
        → Sound current rest (advance t current neighbor)
    advance-Sound current rest t neighbor s c m new far =
        let unset = s.fresh neighbor new in
        let grown = length-put_new t.predecessor neighbor current unset in
        record {
          traced = λ v h. elim (Bool-cases (v == neighbor)) [
            | inl e ↦
                let (k, small, trace) = s.traced current c in
                (
                  suc k,
                  omega arith,
                  rw ((==_iff v neighbor).0 e) (
                      back
                        (ground (
                          arith,
                          lookup-put t.predecessor neighbor neighbor current,
                          ==_refl neighbor,
                        ))
                        m (ground (arith, ==_iff neighbor from, s.begun))
                        (Traced-put csr from t.predecessor neighbor current unset trace)),
                )
            | inr e ↦
                let (k, small, trace) =
                  s.traced v (ground (arith, contains-insert t.visited neighbor v)) in
                (k, omega arith, Traced-put csr from t.predecessor neighbor current unset trace)
          ];
          fresh = λ v h. ground (
            arith,
            lookup-put t.predecessor neighbor v current,
            contains-insert t.visited neighbor v,
            s.fresh v,
          );
          begun = ground (arith, contains-insert t.visited neighbor from, s.begun);
          away = ground (
            arith,
            contains-insert t.visited neighbor to,
            s.away,
            ==_iff to neighbor,
            ==_iff neighbor to,
          );
          queued = λ v k. ground (
            arith,
            In-append v t.queue (neighbor ∷ []),
            s.queued v,
            contains-insert t.visited neighbor v,
            ==_iff v neighbor,
          );
          closed = λ u w h k. ground (
            arith,
            s.closed u w,
            contains-insert t.visited neighbor u,
            contains-insert t.visited neighbor w,
            ==_iff u neighbor,
            ==_iff w neighbor,
            In-append u t.queue (neighbor ∷ []),
          );
        }

    pub look_lem :
        (current : ℕ) (rest : List ℕ) (t : Trail bitmap) (neighbor : ℕ)
        → Sound current (neighbor ∷ rest) t
        → contains t.visited current ≡ true
        → In neighbor (neighbors_slice csr current)
        → Goes current rest (work t) (look bitmap from to current t neighbor)
    unfolding look Goes work
    look_lem current rest t neighbor s c m = elim (Bool-cases (contains t.visited neighbor)) [
      | inl seen ↦ rw seen (passes current rest t neighbor s seen, c, refl)
      | inr new ↦ elim (Bool-cases (neighbor == to)) [
        | inl e ↦ rw (new, e) (arrives current rest t neighbor s c m ((==_iff neighbor to).0 e))
        | inr far ↦
            rw (new, far)
              (
                advance-Sound current rest t neighbor s c m new far,
                ground (arith, contains-insert t.visited neighbor current),
                omega (
                  arith,
                  unvisited-insert n neighbor t.visited (low current neighbor m) new,
                  length-append t.queue (neighbor ∷ []),
                ),
              )
      ]
    ]
