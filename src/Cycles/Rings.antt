-- ===== src/Cycles/Rings.antt =====
-- Every cycle that the search finds is a walk that ends where it begins.
use weave_graph.Common.{
  ℕ, zero, suc, Text, List, [], ◌∷◌, ◌++◌, In, In-append, false, Bool-cases, Option, none, some,
  Option-cases, ◌≡◌, inl, inr, refl, sym, ap, ◌∙◌, subst, arith, ◌==◌, ==_iff, nat_eq, list_eq,
  lookup-put,
}
use weave_graph.Cycles.{Search, color_of, ring, close, enter, pop, leave, visit_all, dfs_cycle}
use weave_graph.Cycles.Walks.{
  visit_all-keeps, pop-append, IsWalk, Leads, IsRing, append-IsWalk, append-Leads, ring-IsRing,
}

module _ (next : Text → List Text) where
  pub record IsSound (s : Search) : Type 0 where
    pub on_stack : (f : Text) → color_of s f ≡ 1 → In f s.stack
    pub walk : IsWalk next s.stack
    pub rings : (cycle : List Text) → In cycle s.found → IsRing next cycle

  close-IsSound :
      (s : Search) (file : Text)
      → IsSound s
      → Leads next s.stack file
      → color_of s file ≡ 1
      → IsSound (close file s)
  close-IsSound s file h l c = record {
    on_stack = h.on_stack;
    walk = h.walk;
    rings = λ cycle m. elim ((In-append cycle s.found (ring file s.stack ∷ [])).0 m) [
      | inl old ↦ h.rings cycle old
      | inr (inl e) ↦
          subst (IsRing next) (sym e) (ring-IsRing next s.stack file (h.on_stack file c) h.walk l)
      | inr (inr none_left) ↦ absurd none_left
    ];
  }

  enter-IsSound :
      (s : Search) (file : Text) → IsSound s → Leads next s.stack file → IsSound (enter file s)
  enter-IsSound s file h l = record {
    on_stack = λ f c. ground (
      arith,
      lookup-put s.color file f 1,
      In-append f s.stack (file ∷ []),
      h.on_stack f,
      ==_iff f file,
    );
    walk = append-IsWalk next s.stack file h.walk l;
    rings = h.rings;
  }

  still_on_stack :
      (s : Search) (file : Text) (stack : List Text)
      → IsSound s
      → s.stack ≡ stack ++ file ∷ []
      → (f : Text) → color_of (leave file s) f ≡ 1
      → In f stack
  still_on_stack s file stack h e f c =
      let old : color_of s f ≡ 1 = ground (arith, lookup-put s.color file f 2) in
      let other : (f == file) ≡ false = ground (arith, lookup-put s.color file f 2) in
      elim ((In-append f stack (file ∷ [])).0 (subst (In f) e (h.on_stack f old))) [
        | inl m ↦ m
        | inr (inl q) ↦ absurd (cc (other, (==_iff f file).1 q))
        | inr (inr none_left) ↦ absurd none_left
      ]

  -- Leaving a file gives back the stack from before it was entered.
  leave-IsSound :
      (s : Search) (file : Text) (stack : List Text)
      → IsSound s
      → IsWalk next stack
      → s.stack ≡ stack ++ file ∷ []
      → IsSound (leave file s) × ((leave file s).stack ≡ stack)
  leave-IsSound s file stack h w e =
      let popped : pop s.stack ≡ stack = ap pop e ∙ pop-append stack file in
      (
        record {
          on_stack = λ f c. subst (In f) (sym popped) (still_on_stack s file stack h e f c);
          walk = subst (IsWalk next) (sym popped) w;
          rings = h.rings;
        },
        popped,
      )

  -- Below a file, the loop over its targets.
  deeper-IsSound :
      (visit : Text → Search → Option Search) (file : Text) (s mid : Search)
      → ((f : Text) (s after : Search)
          → IsSound s
          → Leads next s.stack f
          → visit f s ≡ some after
          → IsSound after × (after.stack ≡ s.stack))
      → IsSound s
      → Leads next s.stack file
      → visit_all visit (next file) (enter file s) ≡ some mid
      → IsSound mid × (mid.stack ≡ s.stack ++ file ∷ [])
  deeper-IsSound visit file s mid keep h l e =
      visit_all-keeps (λ x. IsSound x × (x.stack ≡ s.stack ++ file ∷ [])) visit (next file)
        (enter file s) mid
        (λ f m x y p q.
          let there = subst (λ t. Leads next t f) (sym p.1) (append-Leads next s.stack file f m) in
          let (sound, same) = keep f x y p.0 there q in (sound, same ∙ p.1))
        (enter-IsSound s file h l, refl) e

  pub dfs_cycle-IsSound :
      (fuel : ℕ) (file : Text) (s after : Search)
      → IsSound s
      → Leads next s.stack file
      → dfs_cycle next fuel file s ≡ some after
      → IsSound after × (after.stack ≡ s.stack)
  unfolding dfs_cycle
  dfs_cycle-IsSound zero file s after h l e = absurd (cc e)
  dfs_cycle-IsSound (suc fuel) file s after h l e = elim (Bool-cases (color_of s file == 1)) [
    | inl p ↦
        let closed : some (close file s) ≡ some after = rw p at e in
        let same : close file s ≡ after = cc closed in
        subst (λ x. IsSound x × (x.stack ≡ s.stack)) same
          (close-IsSound s file h l ((==_iff (color_of s file) 1).0 p), refl)
    | inr p ↦ elim (Bool-cases (color_of s file == 2)) [
      | inl q ↦
          let unchanged : some s ≡ some after = rw (p, q) at e in
          let same : s ≡ after = cc unchanged in
          subst (λ x. IsSound x × (x.stack ≡ s.stack)) same (h, refl)
      | inr q ↦ elim (Option-cases (visit_all (dfs_cycle next fuel) (next file) (enter file s))) [
        | inl n ↦ let nothing : none ≡ some after = rw (p, q, n) at e in absurd (cc nothing)
        | inr (mid, n) ↦
            let left : some (leave file mid) ≡ some after = rw (p, q, n) at e in
            let same : leave file mid ≡ after = cc left in
            let (sound, stacked) =
              deeper-IsSound (dfs_cycle next fuel) file s mid (dfs_cycle-IsSound fuel) h l n in
            subst (λ x. IsSound x × (x.stack ≡ s.stack)) same
              (leave-IsSound mid file s.stack sound h.walk stacked)
      ]
    ]
  ]

  -- The search from every start, each with nothing on the stack.
  pub search-IsSound :
      (fuel : ℕ) (starts : List Text) (after : Search)
      → visit_all (dfs_cycle next fuel) starts (record { color = []; stack = []; found = [] })
        ≡ some after
      → IsSound after
  search-IsSound fuel starts after e =
      (visit_all-keeps (λ x. IsSound x × (x.stack ≡ [])) (dfs_cycle next fuel) starts
        (record { color = []; stack = []; found = [] }) after
        (λ f m x y p q.
          let (sound, same) =
            dfs_cycle-IsSound fuel f x y p.0 (subst (λ t. Leads next t f) (sym p.1) tt) q in
          (sound, same ∙ p.1))
        (record { on_stack = λ f c. absurd (cc c); walk = tt; rings = λ cycle m. absurd m }, refl)
        e).0
