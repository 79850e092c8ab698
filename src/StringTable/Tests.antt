-- ===== src/StringTable/Tests.antt =====
-- A table in which every string has the same hash, and the theorems at it.
use Prim.Native.Nat.{bit_and}
use weave_graph.Common.{
  ℕ, zero, suc, ◌<◌, Text, codes, List, [], ◌∷◌, length, set, replicate, In, Option, some, ◌>>=◌,
  ◌≡◌, ◌⊎◌, inl, inr, refl, map, arith, nat_eq, list_eq,
}
use weave_graph.Interner.Listed.{position, adds}
use weave_graph.StringTable.{StringInterner, empty_slot, with_capacity, intern, get_id, resolve}
use weave_graph.StringTable.Placed.{Meets}
use weave_graph.StringTable.Lookup.{Distinct}
use weave_graph.StringTable.Grow.{Holds}
use weave_graph.StringTable.Refine.{get_id_lem, intern_lem, intern-resolve}

abbrev collide : Text → ℕ
collide s = 19

abbrev table : StringInterner
table = record { arena = codes "ab"; ends = 2 ∷ []; buckets = set (replicate 16 empty_slot) 3 0 }

abbrev fill : List Text → StringInterner → Option StringInterner
fill [] t = some t
fill (s ∷ strings) t = intern collide t s >>= λ r. fill strings r.0

-- A string by its id, and the id by the string.
abbrev ask : Option StringInterner → Text → ℕ → Option (Option ℕ × Text)
ask o s id = o >>= λ t. get_id collide t s >>= λ found. some (found, resolve t id)

runs :
    (fill (codes "ab" ∷ []) (record { arena = []; ends = []; buckets = [] }) ≡ some table)
    × (ask
          (fill (map (λ n. n ∷ []) (1 ∷ 2 ∷ 3 ∷ 4 ∷ 5 ∷ 6 ∷ 7 ∷ 8 ∷ 9 ∷ 10 ∷ 11 ∷ 12 ∷ [])) table)
          (12 ∷ [])
          4
        ≡ some (some 12, 4 ∷ []))
    × (ask (fill (codes "b" ∷ codes "" ∷ codes "ab" ∷ []) table) (codes "") 1
        ≡ some (some 2, codes "b"))
    × ((with_capacity collide 12 >>= λ t. some (length t.buckets)) ≡ some 32)
unfolding intern get_id resolve with_capacity
runs = (refl, refl, refl, refl)

one_Distinct : Distinct (codes "ab" ∷ [])
unfolding position
one_Distinct zero l = refl
one_Distinct (suc i) l = absurd (omega arith)

one_Meets : (id : ℕ) → id < 1 → (fuel : ℕ) × Meets table.buckets id fuel (bit_and 19 15)
one_Meets zero l = (1, inl refl)
one_Meets (suc id) l = absurd (omega arith)

one_valid : (id : ℕ) → In id table.buckets → (id ≡ empty_slot) ⊎ (id < 1)
one_valid id m = ground arith

table-Holds : Holds collide (codes "ab" ∷ []) table
table-Holds = record {
  joined = refl;
  cut = refl;
  distinct = one_Distinct;
  index =
      inr
        (record { size = (4, refl); room = refl; valid = one_valid; met = one_Meets }, omega arith);
}

intern_lem_example :
    (after : StringInterner) × (intern collide table (codes "b")
      ≡ some (after, (adds (codes "ab" ∷ []) (codes "b")).1))
    × Holds collide (adds (codes "ab" ∷ []) (codes "b")).0 after
intern_lem_example =
    intern_lem collide (codes "ab" ∷ []) table (codes "b") table-Holds (omega arith) (omega arith)

get_id_lem_example :
    get_id collide table (codes "ab") ≡ some (position (codes "ab" ∷ []) (codes "ab"))
get_id_lem_example =
    get_id_lem collide (codes "ab" ∷ []) table table-Holds (codes "ab") (omega arith)

intern-resolve_example :
    (after : StringInterner) × (id : ℕ) × (intern collide table (codes "b") ≡ some (after, id))
    × (resolve after id ≡ codes "b")
    × (get_id collide after (codes "b") ≡ some (some id))
    × ((other : Text) (old : ℕ)
        → get_id collide table other ≡ some (some old)
        → get_id collide after other ≡ some (some old))
intern-resolve_example =
    intern-resolve collide (codes "ab" ∷ []) table (codes "b") table-Holds (omega arith)
      (omega arith)
