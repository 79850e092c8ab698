-- ===== src/Spool.antt =====
-- crates/weave-graph-hub/src/registry.rs: the names that become parts of file paths, signatures in
-- hexadecimal, and the spooled jobs with the names that carry their fields.
pub mod Jobs
pub mod Count
pub mod Leftover
mod Tests
use weave_graph.Common.{
  ℕ, ◌+◌, ◌-◌, ◌*◌, ◌<◌, Text, codes, List, [], ◌∷◌, ◌++◌, any, filter_map, length, is_empty, Bool,
  true, false, not, ◌&&◌, ◌||◌, Option, none, some, ◌>>=◌, ◌==◌, nat_eq, list_eq, leb,
  if◌then◌else◌, padded, decimal, parse_u64, split_once, rsplit_once, without_suffix, sort,
}
use weave_graph.Disk.{File, Dir}

abbrev pub is_alphanumeric : ℕ → Bool
is_alphanumeric c =
    (leb b'0' c && leb c b'9') || (leb b'A' c && leb c b'Z') || (leb b'a' c && leb c b'z')

abbrev pub is_safe_byte : ℕ → Bool
is_safe_byte c = is_alphanumeric c || c == b'-' || c == b'_' || c == b'.'

unfoldable pub is_safe_path_component : Text → Bool
is_safe_path_component s =
    not (is_empty s)
    && leb (length s) 128
    && not (s == codes ".")
    && not (s == codes "..")
    && not (any (λ c. not (is_safe_byte c)) s)

-- `u8::from_str_radix(pair, 16)`: one sign `+` may stand before the digits.
abbrev pub hex_digit : ℕ → Option ℕ
hex_digit c =
    if leb b'0' c && leb c b'9'
    then some (c - b'0')
    else if leb b'a' c && leb c b'f'
    then some (c - 87)
    else if leb b'A' c && leb c b'F'
    then some (c - 55)
    else none

unfoldable pub hex_pair : ℕ → ℕ → Option ℕ
hex_pair a b =
    if a == b'+'
    then hex_digit b
    else hex_digit a >>= λ high. hex_digit b >>= λ low. some (high * 16 + low)

-- Headers are ASCII: a slice of two bytes never splits a character.
unfoldable pub decode_hex : Text → Option Text
unfolding hex_pair
decode_hex [] = some []
decode_hex (a ∷ []) = none
decode_hex (a ∷ b ∷ rest) =
    hex_pair a b >>= λ byte. decode_hex rest >>= λ bytes. some (byte ∷ bytes)

-- The path of a job is the name of its file in the spool directory of the repository.
pub record SpoolJob : Type 0 where
  pub seq : ℕ
  pub sha : Text
  pub retention : ℕ
  pub path : Text

abbrev pub job_stem : ℕ → Text → ℕ → Text
job_stem seq sha retention = padded seq ++ b'_' ∷ (sha ++ b'_' ∷ decimal retention)

unfoldable pub job_filename : ℕ → Text → ℕ → Text
unfolding padded decimal
job_filename seq sha retention = job_stem seq sha retention ++ codes ".tar.zst"

-- The signature beside a job.
unfoldable pub job_signature : ℕ → Text → ℕ → Text
unfolding padded decimal
job_signature seq sha retention = job_stem seq sha retention ++ codes ".sig"

unfoldable pub parse_job_filename : Text → Option (ℕ × Text × ℕ)
unfolding parse_u64
parse_job_filename stem = split_once b'_' stem >>= λ (seq_str, rest).
    rsplit_once b'_' rest >>= λ (sha, retention_str).
    parse_u64 seq_str >>= λ seq. parse_u64 retention_str >>= λ retention. some (seq, sha, retention)

unfoldable pub job_of : Text × File → Option SpoolJob
job_of (name, file) = without_suffix name (codes ".tar.zst") >>= λ stem.
    parse_job_filename stem >>= λ (seq, sha, retention).
    some (record { seq = seq; sha = sha; retention = retention; path = name })

abbrev pub earlier : SpoolJob → SpoolJob → Bool
earlier a b = leb a.seq b.seq

unfoldable pub leftover_jobs : Dir → List SpoolJob
unfolding job_of sort
leftover_jobs spool_dir = sort earlier (filter_map job_of spool_dir)
