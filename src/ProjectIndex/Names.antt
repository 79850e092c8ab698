-- ===== src/ProjectIndex/Names.antt =====
-- Lists of ids and the texts that they stand for.
use weave_graph.Common.{
  ℕ, Text, List, [], ◌∷◌, ◌++◌, map, filter, Bool, Bool-cases, some, ◌≡◌, refl, inl, inr,
}
use weave_graph.Interner.{Interner}

module _ (interner : Interner) where
  open interner use {State, intern, get_id, resolve, get_id-intern, get_id_kept, resolve-get_id}

  -- Id by id, the table has the text under the id.
  abbrev pub Named : State → List ℕ → List Text → Type 0
  Named t [] [] = Unit
  Named t [] (text ∷ texts) = ⊥
  Named t (id ∷ ids) [] = ⊥
  Named t (id ∷ ids) (text ∷ texts) = (get_id t text ≡ some id) × Named t ids texts

  pub Named-intern :
      (t : State) (s : Text) (ids : List ℕ) (texts : List Text)
      → Named t ids texts
      → Named (intern t s).0 ids texts
  Named-intern t s [] [] n = tt
  Named-intern t s [] (text ∷ texts) n = absurd n
  Named-intern t s (id ∷ ids) [] n = absurd n
  Named-intern t s (id ∷ ids) (text ∷ texts) (e, n) =
      (get_id_kept t s text id e, Named-intern t s ids texts n)

  pub Named-append :
      (t : State) (ids : List ℕ) (texts : List Text) (id : ℕ) (text : Text)
      → Named t ids texts
      → get_id t text ≡ some id
      → Named t (ids ++ id ∷ []) (texts ++ text ∷ [])
  Named-append t [] [] id text n e = (e, tt)
  Named-append t [] (x ∷ texts) id text n e = absurd n
  Named-append t (i ∷ ids) [] id text n e = absurd n
  Named-append t (i ∷ ids) (x ∷ texts) id text (k, n) e = (k, Named-append t ids texts id text n e)

  pub Named-map :
      {A : Type 0} (t : State) (f : Text → A) (ids : List ℕ) (texts : List Text)
      → Named t ids texts
      → map (λ id. f (resolve t id)) ids ≡ map f texts
  Named-map t f [] [] n = refl
  Named-map t f [] (text ∷ texts) n = absurd n
  Named-map t f (id ∷ ids) [] n = absurd n
  Named-map t f (id ∷ ids) (text ∷ texts) (e, n) =
      rw (resolve-get_id t text id e, Named-map t f ids texts n) refl

  pub Named-filter :
      (t : State) (p : Text → Bool) (ids : List ℕ) (texts : List Text)
      → Named t ids texts
      → Named t (filter (λ id. p (resolve t id)) ids) (filter p texts)
  Named-filter t p [] [] n = tt
  Named-filter t p [] (text ∷ texts) n = absurd n
  Named-filter t p (id ∷ ids) [] n = absurd n
  Named-filter t p (id ∷ ids) (text ∷ texts) (e, n) = elim (Bool-cases (p text)) [
    | inl h ↦ rw (resolve-get_id t text id e, h) (e, Named-filter t p ids texts n)
    | inr h ↦ rw (resolve-get_id t text id e, h) (Named-filter t p ids texts n)
  ]
