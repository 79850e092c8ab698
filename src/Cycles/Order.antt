-- ===== src/Cycles/Order.antt =====
-- A search that finds no cycle puts the files in an order in which every file comes before its
-- targets, so that no walk ends where it begins.
use weave_graph.Common.{
  ℕ, zero, suc, Text, List, [], ◌∷◌, ◌++◌, In, Bool-cases, Option, none, some, ◌>>=◌, Option-cases,
  ◌≡◌, inl, inr, sym, ap, ◌∙◌, subst, arith, ◌==◌, ==_iff, nat_eq, list_eq, lookup-put,
}
use weave_graph.Cycles.{Search, color_of, ring, close, enter, leave, visit_all, dfs_cycle}
use weave_graph.Cycles.Walks.{IsWalk}

appended : {A : Type 0} → (xs : List A) (x : A) → ¬ (xs ++ x ∷ [] ≡ [])
appended [] x e = cc e
appended (y ∷ xs) x e = cc e

module _ (next : Text → List Text) where
  -- The targets of each file come after it.
  abbrev pub IsOrder : List Text → Type 0
  IsOrder [] = Unit
  IsOrder (file ∷ rest) = ((f : Text) → In f (next file) → In f rest) × IsOrder rest

  stays :
      (order : List Text) → IsOrder order → (a b : Text) → In a order → In b (next a) → In b order
  stays [] h a b m n = absurd m
  stays (file ∷ rest) h a b (inl e) n = inr (h.0 b (subst (λ x. In b (next x)) e n))
  stays (file ∷ rest) h a b (inr m) n = inr (stays rest h.1 a b m n)

  -- A walk that starts in an order ends in it.
  ends_in :
      (order : List Text) (a b : Text) (between : List Text)
      → IsOrder order
      → In a order
      → IsWalk next (a ∷ between ++ b ∷ [])
      → In b order
  ends_in order a b [] h m w = stays order h a b m w.0
  ends_in order a b (c ∷ between) h m w = ends_in order c b between h (stays order h a c m w.0) w.1

  -- From the first file of an order on, a walk stays in the rest of it.
  past_first :
      (file : Text) (rest : List Text) (b : Text) (between : List Text)
      → IsOrder (file ∷ rest)
      → IsWalk next (file ∷ between ++ b ∷ [])
      → In b rest
  past_first file rest b [] h w = h.0 b w.0
  past_first file rest b (c ∷ between) h w = ends_in rest c b between h.1 (h.0 c w.0) w.1

  pub no_ring :
      (order : List Text) (a : Text) (between : List Text)
      → IsOrder order
      → In a order
      → ¬ (IsWalk next (a ∷ between ++ a ∷ []))
  no_ring [] a between h m w = absurd m
  no_ring (file ∷ rest) a between h (inl e) w =
      let here = subst (λ x. IsWalk next (x ∷ between ++ x ∷ [])) e w in
      no_ring rest file between h.1 (past_first file rest file between h here) here
  no_ring (file ∷ rest) a between h (inr m) w = no_ring rest a between h.1 m w

  -- The done files are in the order.
  abbrev Ordered : Search → List Text → Type 0
  Ordered s order = IsOrder order × ((f : Text) → color_of s f ≡ 2 → In f order)

  -- Where no cycle was found, the order has grown by the given files.
  abbrev pub Orders : List Text → Search → Search → Type 0
  Orders files s after =
      after.found ≡ []
      → (s.found ≡ [])
        × ((order : List Text)
            → Ordered s order
            → (grown : List Text) × Ordered after grown
              × ((f : Text) → In f order → In f grown)
              × ((f : Text) → In f files → In f grown))

  visit_all-Orders :
      (visit : Text → Search → Option Search) (files : List Text) (s after : Search)
      → ((f : Text) (s after : Search) → visit f s ≡ some after → Orders (f ∷ []) s after)
      → visit_all visit files s ≡ some after
      → Orders files s after
  unfolding visit_all
  visit_all-Orders visit [] s after each e empty =
      let same : s ≡ after = cc e in
      subst
        (λ x.
          (s.found ≡ [])
          × ((order : List Text)
              → Ordered s order
              → (grown : List Text) × Ordered x grown
                × ((f : Text) → In f order → In f grown)
                × ((f : Text) → In f [] → In f grown)))
        same (ap (λ x. x.found) same ∙ empty, λ order h. (order, h, λ f m. m, λ f m. absurd m))
  visit_all-Orders visit (file ∷ files) s after each e empty = elim (Option-cases (visit file s)) [
    | inl n ↦
        let nothing : none ≡ some after = sym (ap (λ o. o >>= visit_all visit files) n) ∙ e in
        absurd (cc nothing)
    | inr (mid, n) ↦
        let (mid_empty, later) =
          visit_all-Orders visit files mid after each
            (sym (ap (λ o. o >>= visit_all visit files) n) ∙ e) empty in
        let (s_empty, first) = each file s mid n mid_empty in
        (
          s_empty,
          λ order h.
              let (grown, h', kept, new) = first order h in
              let (grown', h'', kept', new') = later grown h' in
              (
                grown',
                h'',
                λ f m. kept' f (kept f m),
                λ f m. elim m [ inl q ↦ kept' f (new f (inl q)) | inr k ↦ new' f k ],
              ),
        )
  ]

  enter-Ordered :
      (s : Search) (file : Text) (order : List Text)
      → Ordered s order
      → Ordered (enter file s) order
  enter-Ordered s file order h = (h.0, λ f c. ground (arith, lookup-put s.color file f 1, h.1 f))

  leave-Ordered :
      (s : Search) (file : Text) (order : List Text)
      → Ordered s order
      → ((f : Text) → In f (next file) → In f order)
      → Ordered (leave file s) (file ∷ order)
  leave-Ordered s file order h new =
      ((new, h.0), λ f c. ground (arith, lookup-put s.color file f 2, h.1 f, ==_iff f file))

  pub dfs_cycle-Orders :
      (fuel : ℕ) (file : Text) (s after : Search)
      → dfs_cycle next fuel file s ≡ some after
      → Orders (file ∷ []) s after
  unfolding dfs_cycle
  dfs_cycle-Orders zero file s after e = λ empty. absurd (cc e)
  dfs_cycle-Orders (suc fuel) file s after e = elim (Bool-cases (color_of s file == 1)) [
    | inl p ↦
        let closed : some (close file s) ≡ some after = rw p at e in
        let same : close file s ≡ after = cc closed in
        λ empty. absurd (appended s.found (ring file s.stack) (ap (λ x. x.found) same ∙ empty))
    | inr p ↦ elim (Bool-cases (color_of s file == 2)) [
      | inl q ↦
          let unchanged : some s ≡ some after = rw (p, q) at e in
          let same : s ≡ after = cc unchanged in
          subst (Orders (file ∷ []) s) same (λ empty. (
            empty,
            λ order h. (
              order,
              h,
              λ f m. m,
              λ f m. elim m [
                | inl r ↦
                    subst (λ x. In x order) (sym r) (h.1 file ((==_iff (color_of s file) 2).0 q))
                | inr none_left ↦ absurd none_left
              ],
            ),
          ))
      | inr q ↦ elim (Option-cases (visit_all (dfs_cycle next fuel) (next file) (enter file s))) [
        | inl n ↦ let nothing : none ≡ some after = rw (p, q, n) at e in absurd (cc nothing)
        | inr (mid, n) ↦
            let left : some (leave file mid) ≡ some after = rw (p, q, n) at e in
            let same : leave file mid ≡ after = cc left in
            subst (Orders (file ∷ []) s) same (λ empty.
              let (s_empty, later) =
                visit_all-Orders (dfs_cycle next fuel) (next file) (enter file s) mid
                  (dfs_cycle-Orders fuel) n empty in
              (
                s_empty,
                λ order h.
                    let (grown, h', kept, new) = later order (enter-Ordered s file order h) in
                    (
                      file ∷ grown,
                      leave-Ordered mid file grown h' new,
                      λ f m. inr (kept f m),
                      λ f m. elim m [ inl r ↦ inl r | inr none_left ↦ absurd none_left ],
                    ),
              ))
      ]
    ]
  ]

  -- A search that found nothing from all the starts leaves no ring through any of them.
  pub search-no_ring :
      (fuel : ℕ) (starts : List Text) (after : Search)
      → visit_all (dfs_cycle next fuel) starts (record { color = []; stack = []; found = [] })
        ≡ some after
      → after.found ≡ []
      → (a : Text) (between : List Text) → In a starts
      → ¬ (IsWalk next (a ∷ between ++ a ∷ []))
  search-no_ring fuel starts after e empty a between m w =
      let (start_empty, finds) =
        visit_all-Orders (dfs_cycle next fuel) starts
          (record { color = []; stack = []; found = [] }) after (dfs_cycle-Orders fuel) e empty in
      let (grown, h, kept, new) = finds [] (tt, λ f c. absurd (cc c)) in
      no_ring grown a between h.0 (new a m) w
