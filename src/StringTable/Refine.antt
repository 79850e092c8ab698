-- ===== src/StringTable/Refine.antt =====
-- The interner against the list of its strings in the order of their ids.
use weave_graph.Common.{
  ℕ, suc, ◌+◌, ◌≤◌, ◌<◌, max, false, Bool-cases, Text, List, [], ◌∷◌, ◌++◌, length, length-append,
  get_or, get_or-append_left, is_empty, none, some, ◌>>=◌, Option-cases, ◌≡◌, inl, inr, refl, sym,
  ap, ◌∙◌, subst, arith, ◌==◌, ==_iff, nat_eq, list_eq,
}
use weave_graph.Interner.Listed.{
  position, position-at, adds, adds_self, adds-kept, position-append_old, position-append_self,
}
use weave_graph.StringTable.{
  StringInterner, default, empty_slot, to_u32, get, put_id, push_string, find_id, with_capacity,
  add_new, intern, get_id, resolve,
}
use weave_graph.StringTable.Placed.{Placed, put_id-Placed}
use weave_graph.StringTable.Lookup.{Distinct, position-lt, find_from-position}
use weave_graph.StringTable.Arena.{concat, ends_from, concat-append, ends_from-append, get_lem}
use weave_graph.StringTable.Grow.{Holds, same-Placed, reserve_buckets-Holds, counted}

List-empty : (xs : List ℕ) → 1 ≤ length xs → is_empty xs ≡ false
List-empty [] h = absurd (omega arith)
List-empty (x ∷ xs) h = refl

get_or-append_last : (xs : List Text) (s : Text) → get_or (xs ++ s ∷ []) (length xs) [] ≡ s
get_or-append_last [] s = refl
get_or-append_last (x ∷ xs) s = get_or-append_last xs s

append-Distinct :
    (xs : List Text) (s : Text) → position xs s ≡ none → Distinct xs → Distinct (xs ++ s ∷ [])
append-Distinct xs s e h i l = elim (Bool-cases (i == length xs)) [
  | inl t ↦
      let last = (==_iff i (length xs)).0 t in
      subst (λ j. position (xs ++ s ∷ []) (get_or (xs ++ s ∷ []) j []) ≡ some j) (sym last)
        (ap (position (xs ++ s ∷ [])) (get_or-append_last xs s) ∙ position-append_self xs s e)
  | inr t ↦
      let before : i < length xs =
        ground (arith, length-append xs (s ∷ []), ==_iff i (length xs)) in
      ap (position (xs ++ s ∷ [])) (get_or-append_left xs (s ∷ []) i [] before)
      ∙ position-append_old xs (s ∷ []) (get_or xs i []) i (h i before)
]

module _ (hash : Text → ℕ) (xs : List Text) (t : StringInterner) (h : Holds hash xs t) where
  pub find_id_lem : (s : Text) → length xs < empty_slot → find_id hash t s ≡ some (position xs s)
  unfolding find_id position
  find_id_lem s small = elim h.index [
    | inl (bare, none_yet) ↦ rw (bare, none_yet) refl
    | inr (placed, loose) ↦ rw (List-empty t.buckets (omega arith)) (
        find_from-position hash (get t) xs t.buckets (get_lem t xs h.joined h.cut) h.distinct placed
          loose small s)
  ]

  -- In a table that holds fewer than 2^32 - 1 strings, a lookup ends and gives the place of the string
  -- among them, or none if it is not there, whatever the hash function.
  pub get_id_lem : (s : Text) → length xs < empty_slot → get_id hash t s ≡ some (position xs s)
  unfolding get_id
  get_id_lem s small = find_id_lem s small

  -- An id gives the string at its place.
  pub resolve_lem : (id : ℕ) → id < length xs → resolve t id ≡ get_or xs id []
  unfolding resolve
  resolve_lem id l = get_lem t xs h.joined h.cut id l

  add_new-Holds :
      (s : Text)
      → position xs s ≡ none
      → Placed (λ i. hash (get_or xs i [])) (length xs) t.buckets
      → length xs + 1 < length t.buckets
      → length xs < empty_slot
      → length (concat xs) + length s < 4294967296
      → (after : StringInterner) × (add_new hash s t ≡ some (after, length xs))
        × Holds hash (xs ++ s ∷ []) after
  unfolding add_new
  add_new-Holds s new placed room small short =
      let longer = xs ++ s ∷ [] in
      let size : length (xs ++ s ∷ []) ≡ suc (length xs) =
        omega (arith, length-append xs (s ∷ [])) in
      let hash_of = λ (i : ℕ). hash (get_or (xs ++ s ∷ []) i []) in
      let kept : to_u32 (length t.ends) ≡ length xs = omega (arith, counted hash xs t h) in
      let moved =
        same-Placed (λ i. hash (get_or xs i [])) hash_of (length xs) t.buckets
          (λ i l. ap hash (sym (get_or-append_left xs (s ∷ []) i [] l))) placed in
      let (buckets, e, placed', long) =
        put_id-Placed hash_of (length xs) t.buckets moved (omega arith) small in
      let stored : put_id (hash s) (length xs) t.buckets ≡ some buckets =
        subst (λ x. put_id (hash x) (length xs) t.buckets ≡ some buckets) (get_or-append_last xs s)
          e in
      let last : to_u32 (length (t.arena ++ s)) ≡ 0 + length (concat xs) + length s =
        omega (arith, length-append t.arena s, ap length h.joined) in
      (
        push_string s buckets t,
        subst
            (λ n.
              ◌>>=◌ {B = StringInterner × ℕ} (put_id (hash s) n t.buckets)
                (λ b. some (push_string s b t, n))
              ≡ some (push_string s buckets t, length xs))
            (sym kept)
            (ap (λ o. ◌>>=◌ {B = StringInterner × ℕ} o (λ b. some (push_string s b t, length xs)))
              stored),
        record {
          joined = ap (λ a. a ++ s) h.joined ∙ sym (concat-append xs s);
          cut =
              ap (λ ends. ends ++ to_u32 (length (t.arena ++ s)) ∷ []) h.cut
              ∙ ap (λ end. ends_from 0 xs ++ end ∷ []) last
              ∙ sym (ends_from-append 0 xs s);
          distinct = append-Distinct xs s new h.distinct;
          index =
              inr (
                subst (λ n. Placed hash_of n buckets) (sym size) placed',
                omega (arith, size, long),
              );
        },
      )

-- While there are fewer than 2^32 - 1 strings, and fewer than 2^32 bytes with the new one, interning
-- ends, gives the id
-- that the string has in the list of the strings, or the next one if it is new, and the table then
-- holds that list with the string.
pub intern_lem :
    (hash : Text → ℕ) (xs : List Text) (t : StringInterner) (s : Text)
    → Holds hash xs t
    → length xs < empty_slot
    → length (concat xs) + length s < 4294967296
    → (after : StringInterner) × (intern hash t s ≡ some (after, (adds xs s).1))
      × Holds hash (adds xs s).0 after
unfolding intern adds
intern_lem hash xs t s h small short =
    let looked : find_id hash t s ≡ some (position xs s) = find_id_lem hash xs t h s small in
    elim (Option-cases (position xs s)) [
      | inl n ↦
          let (grown, e, h', placed, room) =
            reserve_buckets-Holds hash xs t h 1 (omega arith) small in
          let (after, e', h'') = add_new-Holds hash xs grown h' s n placed room small short in
          rw (looked, n, adds) (after, ap (λ o. o >>= add_new hash s) e ∙ e', h'')
      | inr (id, n) ↦ rw (looked, n, adds) (t, refl, h)
    ]

-- A table with any capacity holds no string.
pub with_capacity_lem :
    (hash : Text → ℕ) (capacity : ℕ)
    → (t : StringInterner) × (with_capacity hash capacity ≡ some t) × Holds hash [] t
unfolding with_capacity
with_capacity_lem hash capacity =
    let bare : Holds hash [] default = record {
      joined = refl;
      cut = refl;
      distinct = λ i l. absurd (omega arith);
      index = inl (refl, refl);
    } in
    let (t, e, h, placed, room) =
      reserve_buckets-Holds hash [] default bare (max capacity 1) (omega arith) (omega arith) in
    (t, e, h)

length-adds : (xs : List Text) (s : Text) → length (adds xs s).0 ≤ suc (length xs)
unfolding adds
length-adds xs s = elim (Option-cases (position xs s)) [
  | inl n ↦ rw (n, adds) (omega (arith, length-append xs (s ∷ [])))
  | inr (id, n) ↦ rw (n, adds) (omega arith)
]

-- Within the same bounds, less one string, interning a string gives an id from which the table
-- resolves the string and under which it finds the string, and every string that it found before it
-- finds under the same id.
pub intern-resolve :
    (hash : Text → ℕ) (xs : List Text) (t : StringInterner) (s : Text)
    → Holds hash xs t
    → suc (length xs) < empty_slot
    → length (concat xs) + length s < 4294967296
    → (after : StringInterner) × (id : ℕ) × (intern hash t s ≡ some (after, id))
      × (resolve after id ≡ s)
      × (get_id hash after s ≡ some (some id))
      × ((other : Text) (old : ℕ)
          → get_id hash t other ≡ some (some old)
          → get_id hash after other ≡ some (some old))
intern-resolve hash xs t s h small short =
    let (after, e, h') = intern_lem hash xs t s h (omega arith) short in
    let more = length-adds xs s in
    let found = adds_self xs s in
    let find =
      λ (other : Text). get_id_lem hash (adds xs s).0 after h' other (omega (arith, more)) in
    (
      after,
      (adds xs s).1,
      e,
      resolve_lem hash (adds xs s).0 after h' (adds xs s).1
            (position-lt (adds xs s).0 s (adds xs s).1 found)
          ∙ position-at (adds xs s).0 s (adds xs s).1 found,
      find s ∙ ap some found,
      λ other old q.
          let both : some (position xs other) ≡ some (some old) =
            sym (get_id_lem hash xs t h other (omega arith)) ∙ q in
          find other ∙ ap some (adds-kept xs s other old (cc both)),
    )
