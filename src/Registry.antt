-- ===== src/Registry.antt =====
-- crates/weave-graph-hub/src/registry.rs: the requests to the registry, with the feature
-- `hub-provenance`. The state is that of one repository: a safe id is one path component, so that
-- the directories of two repositories are apart.
use weave_graph.Common.{
  ℕ, ◌+◌, ◌-◌, Text, codes, List, [], ◌∷◌, ◌++◌, map, filter, length, is_empty, Bool, true, false,
  not, ◌||◌, Option, none, some, ◌>>=◌, ◌==◌, nat_eq, list_eq, leb, max, if◌then◌else◌, lookup, put,
  erase, erase_all, trim,
}
use weave_graph.Disk.{Dir, read, remove_file}
use weave_graph.Spool.{is_safe_path_component, SpoolJob, leftover_jobs}

-- `std::io::Error` by its kind; `not_found` is that of a missing file.
pub data IoError : Type 0 where
  invalid_input : IoError
  invalid_data : IoError
  not_found : IoError

pub data IoResult (A : Type 0) : Type 0 where
  ok : A → IoResult A
  err : IoError → IoResult A

pub record RegistryConfig : Type 0 where
  pub max_queue_depth_per_repo : ℕ
  pub max_pushes_per_minute_per_repo : ℕ
  pub max_snapshot_bytes : ℕ
  -- `verify_snapshot(repo_id, target_sha, payload, signature).is_ok()` of the verifier, if any.
  pub provenance_verifier : Option (Text → Text → Text → Text → Bool)

pub data PushDecision : Type 0 where
  accepted : PushDecision
  conflict : PushDecision
  rate_limited : ℕ → PushDecision
  signature_invalid : PushDecision

pub data PullResult : Type 0 where
  found : Text → Option Text → PullResult
  nothing_found : PullResult

-- Instants are seconds.
pub record RateWindow : Type 0 where
  pub window_start : ℕ
  pub count : ℕ

pub record RepoHead : Type 0 where
  pub sha : Option Text
  pub next_seq : ℕ
  pub pending : ℕ
  pub uploads : List (Text × ℕ)

pub record RepoState : Type 0 where
  pub head : RepoHead
  pub rate : RateWindow

-- The two directories of a repository, its state in `Registry::repos` while its worker lives, and
-- the jobs that the worker has read and not yet done.
pub record Repo : Type 0 where
  pub store : Dir
  pub spool : Dir
  pub state : Option RepoState
  pub jobs : List SpoolJob

abbrev pub upload_reservation_ttl : ℕ
upload_reservation_ttl = 900

abbrev pub upload_name : Text → Text
upload_name target_sha = target_sha ++ codes ".tmp"

abbrev pub snapshot_name : Text → Text
snapshot_name sha = sha ++ codes ".tar.zst"

abbrev pub signature_name : Text → Text
signature_name sha = sha ++ codes ".sig"

unfoldable pub read_persisted_head : Dir → Option Text
read_persisted_head store =
    read store (codes "HEAD") >>= λ s. if is_empty (trim s) then none else some (trim s)

abbrev pub seq_after : List SpoolJob → ℕ
seq_after [] = 0
seq_after (job ∷ jobs) = max (job.seq + 1) (seq_after jobs)

-- What `repo_state` makes for a repository that has no state: it recovers from the disk.
unfoldable pub recover : ℕ → Repo → RepoState
unfolding read_persisted_head
recover now repo = record {
  head = record {
    sha = read_persisted_head repo.store;
    next_seq = seq_after (leftover_jobs repo.spool);
    pending = length (leftover_jobs repo.spool);
    uploads = [];
  };
  rate = record { window_start = now; count = 0 };
}

unfoldable pub repo_state : ℕ → Repo → RepoState
repo_state now repo = elim repo.state [ some state ↦ state | none ↦ recover now repo ]

abbrev pub upload_len : Dir → Text → ℕ
upload_len spool target_sha = elim (read spool (upload_name target_sha)) [
  | none ↦ 0
  | some bytes ↦ length bytes
]

unfoldable pub get_spool_offset : Text → Text → Repo → ℕ
get_spool_offset repo_id target_sha repo =
    if not (is_safe_path_component repo_id) || not (is_safe_path_component target_sha)
    then 0
    else upload_len repo.spool target_sha

abbrev pub expired : ℕ → List (Text × ℕ) → List Text
expired now uploads = map (λ u. u.0) (filter (λ u. leb upload_reservation_ttl (now - u.1)) uploads)

abbrev pub drop_uploads : List Text → RepoState → RepoState
drop_uploads shas state = record state {
  head = record state.head { uploads = erase_all state.head.uploads shas };
}

-- The state without the expired reservations; their files go too.
unfoldable pub expire_uploads : ℕ → RepoState → Dir → RepoState × Dir
expire_uploads now state spool =
    let gone = expired now state.head.uploads in
    (drop_uploads gone state, erase_all spool (map upload_name gone))

unfoldable pub is_full : RegistryConfig → RepoHead → Bool
is_full config head = leb config.max_queue_depth_per_repo (head.pending + length head.uploads)

-- The base is given, and the head is another commit.
unfoldable pub is_conflict : Option Text → RepoHead → Bool
is_conflict none head = false
is_conflict (some base) head = elim head.sha [ none ↦ false | some sha ↦ not (sha == base) ]

unfoldable pub refresh_window : ℕ → RateWindow → RateWindow
refresh_window now rate =
    if leb 60 (now - rate.window_start) then record { window_start = now; count = 0 } else rate

-- The rate lock: `none` if the window is used up, with the window as it is left.
unfoldable pub take_rate : RegistryConfig → ℕ → RateWindow → Bool × RateWindow
unfolding refresh_window
take_rate config now rate =
    let window = refresh_window now rate in
    if leb config.max_pushes_per_minute_per_repo window.count
    then (false, window)
    else (true, record window { count = window.count + 1 })

-- The second section under the head lock.
unfoldable pub reserve :
    RegistryConfig → ℕ → Text → Option Text → RepoState → PushDecision × RepoState
unfolding is_full is_conflict
reserve config now target_sha base_sha state =
    if is_full config state.head
    then (rate_limited 5, state)
    else if is_conflict base_sha state.head
    then (conflict, state)
    else (
      accepted,
      record state { head = record state.head { uploads = put state.head.uploads target_sha now } },
    )

-- The first section under the head lock, the rate lock, and `reserve`.
unfoldable pub admit :
    RegistryConfig → ℕ → Text → Option Text → RepoState → PushDecision × RepoState
unfolding is_full is_conflict take_rate reserve
admit config now target_sha base_sha state = elim (lookup state.head.uploads target_sha) [
  | some started ↦ (accepted, state)
  | none ↦
      if is_full config state.head
      then (rate_limited 5, state)
      else if is_conflict base_sha state.head
      then (conflict, state)
      else let (free, window) = take_rate config now state.rate in
        if free
        then reserve config now target_sha base_sha (record state { rate = window })
        else (rate_limited 60, record state { rate = window })
]

unfoldable pub begin_upload :
    RegistryConfig → ℕ → Text → Text → Option Text → Repo → IoResult PushDecision × Repo
unfolding repo_state expire_uploads admit
begin_upload config now repo_id target_sha base_sha repo =
    if not (is_safe_path_component repo_id) || not (is_safe_path_component target_sha)
    then (err invalid_input, repo)
    else let (state, spool) = expire_uploads now (repo_state now repo) repo.spool in
      let (decision, state') = admit config now target_sha base_sha state in
      (ok decision, record repo { state = some state'; spool = spool })

abbrev pub without_upload : Text → RepoState → RepoState
without_upload target_sha state = record state {
  head = record state.head { uploads = erase state.head.uploads target_sha };
}

unfoldable pub abandon_upload : Text → Text → Repo → Repo
abandon_upload repo_id target_sha repo =
    if not (is_safe_path_component repo_id) || not (is_safe_path_component target_sha)
    then repo
    else record repo {
      state = elim repo.state [ none ↦ none | some state ↦ some (without_upload target_sha state) ];
      spool = remove_file repo.spool (upload_name target_sha);
    }

unfoldable pub take_upload_reservation : Text → Repo → Bool × Repo
take_upload_reservation target_sha repo = elim repo.state [
  | none ↦ (false, repo)
  | some state ↦ elim (lookup state.head.uploads target_sha) [
    | none ↦ (false, repo)
    | some started ↦ (true, record repo { state = some (without_upload target_sha state) })
  ]
]
