-- ===== src/Cycles/Walks.antt =====
-- Walks along the arcs of a file graph, on the stack of the search too.
use weave_graph.Common.{
  Text, List, [], ◌∷◌, ◌++◌, In, Bool-cases, Option, none, some, ◌>>=◌, Option-cases, ◌≡◌, inl, inr,
  refl, sym, ap, ◌∙◌, subst, arith, ◌==◌, ==_iff, nat_eq, list_eq,
}
use weave_graph.Cycles.{Search, visit_all, from_file, ring, pop}

-- What each visit of the listed files keeps, the whole loop keeps.
pub visit_all-keeps :
    (P : Search → Type 0) (visit : Text → Search → Option Search) (files : List Text)
    (s after : Search)
    → ((f : Text) → In f files → (s after : Search) → P s → visit f s ≡ some after → P after)
    → P s
    → visit_all visit files s ≡ some after
    → P after
unfolding visit_all
visit_all-keeps P visit [] s after keep p e = let same : s ≡ after = cc e in subst P same p
visit_all-keeps P visit (file ∷ files) s after keep p e = elim (Option-cases (visit file s)) [
  | inl n ↦
      let nothing : none ≡ some after = sym (ap (λ o. o >>= visit_all visit files) n) ∙ e in cc
  | inr (mid, n) ↦
      visit_all-keeps P visit files mid after (λ f m. keep f (inr m))
        (keep file (inl refl) s mid p n) (sym (ap (λ o. o >>= visit_all visit files) n) ∙ e)
]

pub pop-append : (stack : List Text) (file : Text) → pop (stack ++ file ∷ []) ≡ stack
pop-append [] file = refl
pop-append (f ∷ []) file = refl
pop-append (f ∷ g ∷ stack) file = ap (λ t. f ∷ t) (pop-append (g ∷ stack) file)

module _ (next : Text → List Text) where
  -- Each file has an arc to the one after it.
  abbrev pub IsWalk : List Text → Type 0
  IsWalk [] = Unit
  IsWalk (x ∷ []) = Unit
  IsWalk (x ∷ y ∷ rest) = In y (next x) × IsWalk (y ∷ rest)

  -- The last file, if any, has an arc to the given one.
  abbrev pub Leads : List Text → Text → Type 0
  Leads [] file = Unit
  Leads (x ∷ []) file = In file (next x)
  Leads (x ∷ y ∷ rest) file = Leads (y ∷ rest) file

  -- A walk that ends where it begins.
  abbrev pub IsRing : List Text → Type 0
  IsRing cycle =
      (file : Text) × (between : List Text) × (cycle ≡ file ∷ between ++ file ∷ []) × IsWalk cycle

  pub append-IsWalk :
      (stack : List Text) (file : Text)
      → IsWalk stack
      → Leads stack file
      → IsWalk (stack ++ file ∷ [])
  append-IsWalk [] file w l = tt
  append-IsWalk (x ∷ []) file w l = (l, tt)
  append-IsWalk (x ∷ y ∷ rest) file w l = (w.0, append-IsWalk (y ∷ rest) file w.1 l)

  pub append-Leads :
      (stack : List Text) (file other : Text)
      → In other (next file)
      → Leads (stack ++ file ∷ []) other
  append-Leads [] file other m = m
  append-Leads (x ∷ []) file other m = m
  append-Leads (x ∷ y ∷ rest) file other m = append-Leads (y ∷ rest) file other m

  tail-IsWalk : (x : Text) (rest : List Text) → IsWalk (x ∷ rest) → IsWalk rest
  tail-IsWalk x [] w = tt
  tail-IsWalk x (y ∷ rest) w = w.1

  shorter :
      (x : Text) (stack : List Text) (file : Text)
      → In file stack
      → Leads (x ∷ stack) file
      → Leads stack file
  shorter x [] file m l = absurd m
  shorter x (y ∷ stack) file m l = l

  -- The stack from a file of it on.
  from_file-IsWalk :
      (stack : List Text) (file : Text)
      → In file stack
      → IsWalk stack
      → Leads stack file
      → (rest : List Text) × (from_file file stack ≡ file ∷ rest)
        × IsWalk (file ∷ rest)
        × Leads (file ∷ rest) file
  from_file-IsWalk [] file m w l = absurd m
  from_file-IsWalk (x ∷ stack) file m w l = elim (Bool-cases (x == file)) [
    | inl e ↦
        let same = (==_iff x file).0 e in
        (
          stack,
          rw e (ap (λ t. t ∷ stack) same),
          subst (λ t. IsWalk (t ∷ stack)) same w,
          subst (λ t. Leads (t ∷ stack) file) same l,
        )
    | inr e ↦
        let below : In file stack = ground (arith, ==_iff x file) in
        let (rest, q, v, k) =
          from_file-IsWalk stack file below (tail-IsWalk x stack w)
            (shorter x stack file below l) in
        (rest, rw e q, v, k)
  ]

  -- A file that closes a cycle with the stack makes a ring.
  pub ring-IsRing :
      (stack : List Text) (file : Text)
      → In file stack
      → IsWalk stack
      → Leads stack file
      → IsRing (ring file stack)
  ring-IsRing stack file m w l =
      let (rest, e, v, k) = from_file-IsWalk stack file m w l in
      (file, rest, rw (e, ring), rw (e, ring) (append-IsWalk (file ∷ rest) file v k))
