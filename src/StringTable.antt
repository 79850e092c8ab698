-- ===== src/StringTable.antt =====
-- crates/weave-graph-parse/src/resolve.rs: `StringInterner`, an arena of strings with an index by
-- open addressing. The hash function of its `RandomState` is a parameter. A `usize` is a number
-- without bound, since the capacities that are asked for first would be refused; a `u32` wraps. A
-- read of `ends` outside its bounds, which stops the program, gives 0: no id of a table is outside.
-- The probe loops run on fuel, the number of slots.
pub mod Masks
pub mod Probes
pub mod Placed
pub mod Lookup
pub mod Arena
pub mod Grow
pub mod Refine
mod Tests
use Prim.Native.Nat.{bit_and}
use weave_graph.Common.{
  ℕ, zero, suc, ◌+◌, ◌-◌, ◌*◌, ◌/◌, ◌%◌, ◌^◌, max, leb, Text, List, [], ◌∷◌, ◌++◌, length, get_or,
  get_elem?, set, take, drop, replicate, is_empty, Option, none, some, ◌>>=◌, ◌==◌, nat_eq, list_eq,
  if◌then◌else◌,
}

pub record StringInterner : Type 0 where
  pub arena : Text
  pub ends : List ℕ
  pub buckets : List ℕ

abbrev pub empty_slot : ℕ
empty_slot = 4294967295

-- `as u32`.
abbrev pub to_u32 : ℕ → ℕ
to_u32 n = n % 4294967296

-- The derived `Default`.
abbrev pub default : StringInterner
default = record { arena = []; ends = []; buckets = [] }

abbrev pub span_start : List ℕ → ℕ → ℕ
span_start ends zero = 0
span_start ends (suc prev) = get_or ends prev 0

unfoldable pub get : StringInterner → ℕ → Text
get t id =
    let start = span_start t.ends id in take (get_or t.ends id 0 - start) (drop start t.arena)

-- The next empty slot from the given one on.
unfoldable pub free_slot : List ℕ → ℕ → ℕ → ℕ → Option ℕ
free_slot buckets mask zero slot = none
free_slot buckets mask (suc fuel) slot = elim (get_elem? buckets slot) [
  | none ↦ none
  | some id ↦
      let rest = free_slot buckets mask fuel (bit_and (slot + 1) mask) in
      if id == empty_slot then some slot else rest
]

unfoldable pub put_id : ℕ → ℕ → List ℕ → Option (List ℕ)
unfolding free_slot
put_id hash id buckets =
    let mask = length buckets - 1 in
    free_slot buckets mask (length buckets) (bit_and hash mask) >>= λ slot.
    some (set buckets slot id)

unfoldable pub rehash : (ℕ → ℕ) → ℕ → ℕ → List ℕ → Option (List ℕ)
unfolding put_id
rehash hash_of zero id buckets = some buckets
rehash hash_of (suc todo) id buckets =
    put_id (hash_of id) id buckets >>= rehash hash_of todo (id + 1)

-- `usize::next_power_of_two`.
abbrev pub power_from : ℕ → ℕ → ℕ → ℕ
power_from n zero p = p
power_from n (suc fuel) p = if leb n p then p else power_from n fuel (2 * p)

abbrev pub next_power_of_two : ℕ → ℕ
next_power_of_two n = power_from n n 1

abbrev pub slots_for : ℕ → ℕ
slots_for needed = max (next_power_of_two needed) 16

unfoldable pub reserve_buckets : (Text → ℕ) → ℕ → StringInterner → Option StringInterner
unfolding rehash get
reserve_buckets hash additional t =
    let needed = (length t.ends + additional) * 10 / 7 + 1 in
    if leb needed (length t.buckets)
    then some t
    else (rehash (λ id. hash (get t id)) (to_u32 (length t.ends)) 0
          (replicate (slots_for needed) empty_slot)
        >>= λ buckets. some (record t { buckets = buckets }))

unfoldable pub with_capacity : (Text → ℕ) → ℕ → Option StringInterner
unfolding reserve_buckets
with_capacity hash capacity = reserve_buckets hash (max capacity 1) default

unfoldable pub find_from : (ℕ → Text) → Text → List ℕ → ℕ → ℕ → ℕ → Option (Option ℕ)
find_from string_of s buckets mask zero slot = none
find_from string_of s buckets mask (suc fuel) slot = elim (get_elem? buckets slot) [
  | none ↦ none
  | some id ↦
      let rest = find_from string_of s buckets mask fuel (bit_and (slot + 1) mask) in
      if id == empty_slot then some none else if string_of id == s then some (some id) else rest
]

unfoldable pub find_id : (Text → ℕ) → StringInterner → Text → Option (Option ℕ)
unfolding find_from get
find_id hash t s =
    let mask = length t.buckets - 1 in
    if is_empty t.buckets
    then some none
    else find_from (get t) s t.buckets mask (length t.buckets) (bit_and (hash s) mask)

abbrev pub push_string : Text → List ℕ → StringInterner → StringInterner
push_string s buckets t = record {
  arena = t.arena ++ s;
  ends = t.ends ++ to_u32 (length (t.arena ++ s)) ∷ [];
  buckets = buckets;
}

unfoldable pub add_new : (Text → ℕ) → Text → StringInterner → Option (StringInterner × ℕ)
unfolding put_id
add_new hash s t =
    let id = to_u32 (length t.ends) in
    put_id (hash s) id t.buckets >>= λ buckets. some (push_string s buckets t, id)

unfoldable pub intern : (Text → ℕ) → StringInterner → Text → Option (StringInterner × ℕ)
unfolding find_id reserve_buckets add_new
intern hash t s = find_id hash t s >>= λ found. elim found [
  | some id ↦ some (t, id)
  | none ↦ reserve_buckets hash 1 t >>= add_new hash s
]

unfoldable pub get_id : (Text → ℕ) → StringInterner → Text → Option (Option ℕ)
unfolding find_id
get_id hash t s = find_id hash t s

unfoldable pub resolve : StringInterner → ℕ → Text
unfolding get
resolve t id = get t id
