-- ===== src/Worker/Blobs.antt =====
-- The names of the files in a store, how many of them are snapshots, and what replacing one changes.
use mathlib.Core.List.{reverse-append, reverse-reverse}
use weave_graph.Common.{
  ℕ, suc, ◌≤◌, Text, codes, [], ◌∷◌, ◌++◌, In, filter, length, any, reverse, is_empty, Bool, true,
  false, not, Bool-cases, some, ◌≡◌, inl, inr, refl, sym, ap, ◌∙◌, arith, ◌==◌, ==_iff, ==_refl,
  nat_eq, list_eq, lookup, put, erase, lookup-put, lookup-erase, if◌then◌else◌, ends_with,
  starts_with_iff, is_white, any_of_In,
}
use weave_graph.Disk.{File, Dir, replace_file}
use weave_graph.Spool.{is_safe_path_component, is_safe_byte}
use weave_graph.Spool.Count.{last_of, last_of-append}
use weave_graph.Worker.{is_blob}

module _ (p : Text → Bool) where
  abbrev pub count_named : Dir → ℕ
  count_named dir = length (filter (λ entry. p entry.0) dir)

  pub count_named-put :
      (dir : Dir) (name : Text) (file : File)
      → (count_named (put dir name file) ≤ suc (count_named dir))
        × (p name ≡ false → count_named (put dir name file) ≤ count_named dir)
  count_named-put [] name file = ground arith
  count_named-put (entry ∷ dir) name file = elim (Bool-cases (name == entry.0)) [
    | inl e ↦ rw e (ground (arith, ap p ((==_iff name entry.0).0 e)))
    | inr e ↦ rw e (ground (arith, count_named-put dir name file))
  ]

  pub count_named-erase : (dir : Dir) (name : Text) → count_named (erase dir name) ≤ count_named dir
  count_named-erase [] name = omega arith
  count_named-erase (entry ∷ dir) name = elim (Bool-cases (name == entry.0)) [
    | inl e ↦ rw e (ground (arith, count_named-erase dir name))
    | inr e ↦ rw e (ground (arith, count_named-erase dir name))
  ]

-- How many snapshots the store holds.
abbrev pub count_blobs : Dir → ℕ
count_blobs store = count_named is_blob store

pub last_apart :
    (a b : Text) (x y : ℕ) → last_of 0 a ≡ x → last_of 0 b ≡ y → ¬ (x ≡ y) → (a == b) ≡ false
last_apart a b x y e f other = ground (arith, ==_iff a b, λ (same : a ≡ b). ap (last_of 0) same)

pub lookup-replace_file :
    (now : ℕ) (dir : Dir) (tmp name bytes other : Text)
    → (other == tmp) ≡ false
    → lookup (replace_file now dir tmp name bytes) other ≡ (
        if other == name then some (record { bytes = bytes; modified = now }) else lookup dir other)
lookup-replace_file now dir tmp name bytes other apart =
    lookup-put (erase dir tmp) name other (record { bytes = bytes; modified = now })
    ∙ ap (λ o. if other == name then some (record { bytes = bytes; modified = now }) else o)
        (lookup-erase dir tmp other ∙ rw apart)

pub is_blob-last : (name : Text) → is_blob name ≡ true → last_of 0 name ≡ b't'
is_blob-last name h =
    let zst : ends_with name (codes ".zst") ≡ true = ground arith in
    let (rest, e) = (starts_with_iff (reverse name) (codes "tsz.")).0 zst in
    let whole : name ≡ reverse rest ++ codes ".zst" =
      sym (reverse-reverse name) ∙ ap reverse e ∙ reverse-append (codes "tsz.") rest in
    ap (last_of 0) whole ∙ last_of-append 0 b'.' (reverse rest) (codes "zst")

pub not_blob : (name : Text) (x : ℕ) → last_of 0 name ≡ x → ¬ (x ≡ b't') → is_blob name ≡ false
not_blob name x e other = elim (Bool-cases (is_blob name)) [
  | inl h ↦ absurd (other (sym e ∙ is_blob-last name h))
  | inr h ↦ h
]

pub safe_bytes :
    (sha : Text) → is_safe_path_component sha ≡ true → any (λ c. not (is_safe_byte c)) sha ≡ false
unfolding is_safe_path_component
safe_bytes sha safe = ground arith

pub safe_plain :
    (sha : Text) → is_safe_path_component sha ≡ true → (c : ℕ) → In c sha → is_white c ≡ false
unfolding is_safe_path_component
safe_plain sha safe c m = elim (Bool-cases (is_safe_byte c)) [
  | inl e ↦ ground arith
  | inr e ↦
      let bad = any_of_In (λ b. not (is_safe_byte b)) sha c m (rw e refl) in
      cc (safe_bytes sha safe, bad)
]

pub safe_full : (sha : Text) → is_safe_path_component sha ≡ true → is_empty sha ≡ false
unfolding is_safe_path_component
safe_full [] safe = cc
safe_full (x ∷ sha) safe = refl

module _ (now : ℕ) (dir : Dir) (tmp name bytes : Text) (temporary : last_of 0 tmp ≡ b'p') where
  pub replace-other :
      (other : Text) (x y : ℕ)
      → last_of 0 name ≡ y
      → last_of 0 other ≡ x
      → ¬ (x ≡ b'p')
      → ¬ (x ≡ y)
      → lookup (replace_file now dir tmp name bytes) other ≡ lookup dir other
  replace-other other x y e f plain apart =
      lookup-replace_file now dir tmp name bytes other
        (last_apart other tmp x b'p' f temporary plain)
      ∙ rw (last_apart other name x y f e apart)

  pub replace_self :
      (y : ℕ)
      → last_of 0 name ≡ y
      → ¬ (y ≡ b'p')
      → lookup (replace_file now dir tmp name bytes) name
        ≡ some (record { bytes = bytes; modified = now })
  replace_self y e plain =
      lookup-replace_file now dir tmp name bytes name (last_apart name tmp y b'p' e temporary plain)
      ∙ rw (==_refl name)

  pub replace-count :
      (count_blobs (replace_file now dir tmp name bytes) ≤ suc (count_blobs dir))
      × (is_blob name ≡ false → count_blobs (replace_file now dir tmp name bytes) ≤ count_blobs dir)
  replace-count =
      let less = count_named-erase is_blob dir tmp in
      let (more, same) =
        count_named-put is_blob (erase dir tmp) name (record { bytes = bytes; modified = now }) in
      (omega (arith, less, more), λ h. omega (arith, less, same h))
