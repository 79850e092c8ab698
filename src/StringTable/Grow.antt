-- ===== src/StringTable/Grow.antt =====
-- Growing the index: the ids are placed again, one by one, in a larger table without entries.
use Prim.Native.Nat.{bit_and}
use weave_graph.Common.{
  ℕ, zero, suc, ◌+◌, ◌-◌, ◌*◌, ◌/◌, ◌≤◌, ◌<◌, leb, Bool-cases, Text, List, [], length, get_or,
  replicate, length-replicate, In, some, ◌>>=◌, ◌≡◌, ◌⊎◌, inl, inr, refl, sym, ap, ◌∙◌, subst,
  arith, nat_eq,
}
use weave_graph.StringTable.{
  StringInterner, empty_slot, to_u32, get, rehash, slots_for, reserve_buckets,
}
use weave_graph.StringTable.Masks.{power, slots_for_lem}
use weave_graph.StringTable.Placed.{Meets, Placed, vacancies, put_id-Placed}
use weave_graph.StringTable.Lookup.{Distinct}
use weave_graph.StringTable.Arena.{concat, ends_from, length-ends_from, get_lem}

-- What only the strings of the ids decide.
pub same-Placed :
    (hash_of other : ℕ → ℕ) (count : ℕ) (buckets : List ℕ)
    → ((i : ℕ) → i < count → hash_of i ≡ other i)
    → Placed hash_of count buckets
    → Placed other count buckets
same-Placed hash_of other count buckets same h = record {
  size = h.size;
  room = h.room;
  valid = h.valid;
  met = λ id l.
      subst (λ x. (fuel : ℕ) × Meets buckets id fuel (bit_and x (length buckets - 1))) (same id l)
        (h.met id l);
}

vacancies-replicate : (n : ℕ) → vacancies (replicate n empty_slot) ≡ n
vacancies-replicate zero = refl
vacancies-replicate (suc n) = ap suc (vacancies-replicate n)

In-replicate : (n a x : ℕ) → In x (replicate n a) → x ≡ a
In-replicate zero a x m = absurd m
In-replicate (suc n) a x (inl e) = e
In-replicate (suc n) a x (inr m) = In-replicate n a x m

empty-Placed : (hash_of : ℕ → ℕ) (n k : ℕ) → n ≡ power k → Placed hash_of 0 (replicate n empty_slot)
empty-Placed hash_of n k e = record {
  size = (k, length-replicate n empty_slot ∙ e);
  room = omega (arith, vacancies-replicate n, length-replicate n empty_slot);
  valid = λ id m. inl (In-replicate n empty_slot id m);
  met = λ id l. absurd (omega arith);
}

rehash-Placed :
    (hash_of : ℕ → ℕ) (todo id : ℕ) (buckets : List ℕ)
    → Placed hash_of id buckets
    → id + todo < length buckets
    → id + todo < empty_slot
    → (after : List ℕ) × (rehash hash_of todo id buckets ≡ some after)
      × Placed hash_of (id + todo) after
      × (length after ≡ length buckets)
unfolding rehash
rehash-Placed hash_of zero id buckets h l small =
    let same : id ≡ id + zero = omega arith in
    (buckets, refl, subst (λ n. Placed hash_of n buckets) same h, refl)
rehash-Placed hash_of (suc todo) id buckets h l small =
    let (mid, e, h', long) = put_id-Placed hash_of id buckets h (omega arith) (omega arith) in
    let next : suc id ≡ id + 1 = omega arith in
    let (after, e', h'', long') =
      rehash-Placed hash_of todo (id + 1) mid (subst (λ n. Placed hash_of n mid) next h')
        (omega (arith, long)) (omega arith) in
    let total : id + 1 + todo ≡ id + suc todo = omega arith in
    (
      after,
      ap (λ o. o >>= rehash hash_of todo (id + 1)) e ∙ e',
      subst (λ n. Placed hash_of n after) total h'',
      long' ∙ long,
    )

-- The table has the strings, each once, with the ids in their order, and its index is not full.
pub record Holds (hash : Text → ℕ) (xs : List Text) (t : StringInterner) : Type 0 where
  pub joined : t.arena ≡ concat xs
  pub cut : t.ends ≡ ends_from 0 xs
  pub distinct : Distinct xs
  pub index :
      (t.buckets ≡ []) × (xs ≡ [])
      ⊎ Placed (λ i. hash (get_or xs i [])) (length xs) t.buckets × (length xs < length t.buckets)

module _ (hash : Text → ℕ) (xs : List Text) (t : StringInterner) (h : Holds hash xs t) where
  pub counted : length t.ends ≡ length xs
  counted = ap length h.cut ∙ length-ends_from 0 xs

  regrown :
      (needed : ℕ)
      → length xs < needed
      → length xs < empty_slot
      → (buckets : List ℕ) × (rehash
            (λ id. hash (get t id))
            (to_u32 (length t.ends))
            0
            (replicate (slots_for needed) empty_slot)
          ≡ some buckets)
        × Placed (λ i. hash (get_or xs i [])) (length xs) buckets
        × (needed ≤ length buckets)
  regrown needed l small =
      let (k, e, enough) = slots_for_lem needed in
      let hash_of = λ (id : ℕ). hash (get t id) in
      let fresh = length-replicate (slots_for needed) empty_slot in
      let (after, q, placed, long) =
        rehash-Placed hash_of (length xs) 0 (replicate (slots_for needed) empty_slot)
          (empty-Placed hash_of (slots_for needed) k e) (omega (arith, fresh, enough))
          (omega arith) in
      let kept : to_u32 (length t.ends) ≡ length xs = omega (arith, counted) in
      let total : 0 + length xs ≡ length xs = omega arith in
      (
        after,
        subst (λ n. rehash hash_of n 0 (replicate (slots_for needed) empty_slot) ≡ some after)
            (sym kept) q,
        same-Placed hash_of (λ i. hash (get_or xs i [])) (length xs) after
            (λ i m. ap hash (get_lem t xs h.joined h.cut i m))
            (subst (λ n. Placed hash_of n after) total placed),
        omega (arith, long, fresh, enough),
      )

  -- After a reservation the table holds the same strings, with room for the additional ones.
  pub reserve_buckets-Holds :
      (additional : ℕ)
      → 1 ≤ additional
      → length xs < empty_slot
      → (grown : StringInterner) × (reserve_buckets hash additional t ≡ some grown)
        × Holds hash xs grown
        × Placed (λ i. hash (get_or xs i [])) (length xs) grown.buckets
        × (length xs + additional < length grown.buckets)
  unfolding reserve_buckets
  reserve_buckets-Holds additional more small =
      let needed = (length t.ends + additional) * 10 / 7 + 1 in
      let ample : length xs + additional < (length t.ends + additional) * 10 / 7 + 1 =
        omega (arith, counted) in
      elim (Bool-cases (leb ((length t.ends + additional) * 10 / 7 + 1) (length t.buckets))) [
        | inl e ↦
            let fits : (length t.ends + additional) * 10 / 7 + 1 ≤ length t.buckets =
              ground arith in
            elim h.index [
              | inl (bare, none_yet) ↦
                  let no_slots : length t.buckets ≡ 0 = ap length bare in
                  absurd (omega (arith, fits, no_slots))
              | inr (placed, loose) ↦ (t, rw e refl, h, placed, omega (arith, ample, fits))
            ]
        | inr e ↦
            let (buckets, q, placed, long) = regrown needed (omega arith) small in
            (
              record t { buckets = buckets },
              rw e (ap (λ o. o >>= λ b. some (record t { buckets = b })) q),
              record {
                joined = h.joined;
                cut = h.cut;
                distinct = h.distinct;
                index = inr (placed, omega (arith, long));
              },
              placed,
              omega (arith, long, ample),
            )
      ]
