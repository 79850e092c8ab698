-- ===== src/CrossRepo/Files.antt =====
-- The index after `add_file`.
use mathlib.Core.List.{append-nil, append_assoc}
use weave_graph.Common.{
  ℕ, Text, List, [], ◌∷◌, ◌++◌, map, none, some, Bool-cases, ◌==◌, ==_iff, nat_eq, ◌≡◌, ◌⊎◌, inl,
  inr, refl, sym, ap, ◌∙◌, subst,
}
use weave_graph.Interner.{Interner}
use weave_graph.ProjectIndex.{ProjectIndex, new, add_symbol}
use weave_graph.ProjectIndex.Candidates.{Indexes, new-Indexes, add_symbol-Indexes}
use weave_graph.FileEdges.{WiringCard, ParsedFile, flat_map}
use weave_graph.CrossRepo.{after_first, after_last, short_name_of, add_cards, add_file}

-- The moniker and the short name of each symbol of a file.
abbrev pub named_symbols : ParsedFile → List (Text × Text)
named_symbols file = map (λ card. (card.moniker, short_name_of card.symbol)) file.symbols

abbrev pub add_files :
    (interner : Interner) → ProjectIndex interner → List ParsedFile → ProjectIndex interner
add_files interner index [] = index
add_files interner index (file ∷ files) = add_files interner (add_file interner index file) files

abbrev pub HasColons : Text → Type 0
HasColons text = (front : Text) × (back : Text) × (text ≡ front ++ (b':' ∷ b':' ∷ back))

-- The name is what follows the last `::` of the symbol, or the whole of it if it has none.
abbrev pub IsShortName : Text → Text → Type 0
IsShortName symbol name =
    ((¬ HasColons symbol) × (name ≡ symbol))
    ⊎ (front : Text) × (symbol ≡ front ++ (b':' ∷ b':' ∷ name)) × (¬ HasColons (b':' ∷ name))

after_first-cases :
    (text : Text)
    → ((after_first text ≡ none) × ((back : Text) → ¬ (text ≡ b':' ∷ b':' ∷ back)))
      ⊎ (back : Text) × (after_first text ≡ some back) × (text ≡ b':' ∷ b':' ∷ back)
after_first-cases [] = inl (refl, λ back e. cc e)
after_first-cases (c ∷ []) = inl (refl, λ back e. cc e)
after_first-cases (c ∷ d ∷ text) = elim (Bool-cases (c == b':')) [
  | inr e ↦ inl (rw e refl, λ back q. let head : c ≡ b':' = cc q in cc (e, (==_iff c b':').1 head))
  | inl e ↦ elim (Bool-cases (d == b':')) [
    | inr f ↦
        inl (
          rw (e, f) refl,
          λ back q. let second : d ≡ b':' = cc q in cc (f, (==_iff d b':').1 second),
        )
    | inl f ↦ inr (
      text,
      rw (e, f) refl,
      ap (λ x. x ∷ d ∷ text) ((==_iff c b':').0 e)
          ∙ ap (λ y. b':' ∷ y ∷ text) ((==_iff d b':').0 f),
    )
  ]
]

-- Where there is no `::` in the rest and none at the start, there is none.
cons_HasColons :
    (c : ℕ) (text : Text)
    → (¬ HasColons text)
    → ((back : Text) → ¬ (c ∷ text ≡ b':' ∷ b':' ∷ back))
    → ¬ HasColons (c ∷ text)
cons_HasColons c text h k ([], back, e) = k back e
cons_HasColons c text h k (x ∷ front, back, e) = h (front, back, cc e)

empty-HasColons : ¬ HasColons []
empty-HasColons ([], back, e) = cc e
empty-HasColons (x ∷ front, back, e) = cc e

after_last-cases :
    (text : Text)
    → ((after_last text ≡ none) × (¬ HasColons text))
      ⊎ (name : Text) × (after_last text ≡ some name)
        × ((front : Text) × (text ≡ front ++ (b':' ∷ b':' ∷ name)) × (¬ HasColons (b':' ∷ name)))
after_last-cases [] = inl (refl, empty-HasColons)
after_last-cases (c ∷ text) = elim (after_last-cases text) [
  | inr (name, e, (front, q, h)) ↦ inr (name, rw e refl, (c ∷ front, ap (λ t. c ∷ t) q, h))
  | inl (e, h) ↦ elim (after_first-cases (c ∷ text)) [
    | inl (f, k) ↦ inl (rw (e, f) refl, cons_HasColons c text h k)
    | inr (name, f, q) ↦
        let rest : text ≡ b':' ∷ name = cc q in
        inr (name, rw (e, f) refl, ([], q, subst (λ t. ¬ HasColons t) rest h))
  ]
]

pub short_name_of-IsShortName : (symbol : Text) → IsShortName symbol (short_name_of symbol)
unfolding short_name_of
short_name_of-IsShortName symbol = elim (after_last-cases symbol) [
  | inl (e, h) ↦ rw (e, short_name_of) (inl (h, refl))
  | inr (name, e, (front, q, h)) ↦ rw (e, short_name_of) (inr (front, q, h))
]

module _ (interner : Interner) where
  add_cards-Indexes :
      (index : ProjectIndex interner) (symbols : List (Text × Text)) (cards : List WiringCard)
      → Indexes interner index symbols
      → Indexes interner
          (add_cards interner index cards)
          (symbols ++ map (λ card. (card.moniker, short_name_of card.symbol)) cards)
  unfolding add_cards
  add_cards-Indexes index symbols [] h = subst (Indexes interner index) (sym (append-nil symbols)) h
  add_cards-Indexes index symbols (card ∷ cards) h =
      let name = short_name_of card.symbol in
      let added = (add_symbol interner index card.moniker name).0 in
      let rest = map (λ card. (card.moniker, short_name_of card.symbol)) cards in
      subst (Indexes interner (add_cards interner added cards))
        (append_assoc symbols ((card.moniker, name) ∷ []) rest)
        (add_cards-Indexes added (symbols ++ (card.moniker, name) ∷ []) cards
          (add_symbol-Indexes interner index symbols card.moniker name h))

  pub add_file-Indexes :
      (index : ProjectIndex interner) (symbols : List (Text × Text)) (file : ParsedFile)
      → Indexes interner index symbols
      → Indexes interner (add_file interner index file) (symbols ++ named_symbols file)
  unfolding add_file
  add_file-Indexes index symbols file h = add_cards-Indexes index symbols file.symbols h

  add_files_onto :
      (index : ProjectIndex interner) (symbols : List (Text × Text)) (files : List ParsedFile)
      → Indexes interner index symbols
      → Indexes interner (add_files interner index files) (symbols ++ flat_map named_symbols files)
  add_files_onto index symbols [] h = subst (Indexes interner index) (sym (append-nil symbols)) h
  add_files_onto index symbols (file ∷ files) h =
      let added = add_file interner index file in
      subst (Indexes interner (add_files interner added files))
        (append_assoc symbols (named_symbols file) (flat_map named_symbols files))
        (add_files_onto added (symbols ++ named_symbols file) files
          (add_file-Indexes index symbols file h))

  -- An index to which files were added, one after the other, holds the symbols of all of them in that
  -- order, each under the part of its name after the last `::`.
  pub add_files-Indexes :
      (files : List ParsedFile)
      → Indexes interner (add_files interner (new interner) files) (flat_map named_symbols files)
        × ((symbol : Text) → IsShortName symbol (short_name_of symbol))
  add_files-Indexes files =
      (add_files_onto (new interner) [] files (new-Indexes interner), short_name_of-IsShortName)
