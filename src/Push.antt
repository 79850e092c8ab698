-- ===== src/Push.antt =====
-- crates/weave-graph-hub/src/registry.rs: the chunks of an upload, its completion, and `pull`, with
-- the features `hub-provenance` and `hub-webhooks`.
pub mod Chunks
mod Tests
use weave_graph.Common.{
  ℕ, ◌+◌, ◌^◌, Text, codes, List, [], ◌∷◌, ◌++◌, length, is_empty, Bool, true, false, not, ◌&&◌,
  ◌||◌, Option, none, some, ◌>>=◌, ◌==◌, nat_eq, list_eq, leb, ltb, if◌then◌else◌, trim,
}
use weave_graph.Disk.{Dir, read, write, remove_file, rename, replace_file}
use weave_graph.Spool.{is_safe_path_component, decode_hex, job_filename, job_signature}
use weave_graph.Registry.{
  IoError, invalid_input, invalid_data, not_found, IoResult, ok, err, RegistryConfig, PushDecision,
  accepted, conflict, rate_limited, signature_invalid, PullResult, found, nothing_found, RepoHead,
  RepoState, Repo, upload_name, snapshot_name, signature_name, read_persisted_head, repo_state,
  upload_len, is_conflict, take_rate, begin_upload, abandon_upload, take_upload_reservation,
}

-- `set_len(0)` for a chunk at the start; then the chunk goes to the end.
abbrev pub chunk_onto : ℕ → Option Text → Text → Text
chunk_onto start_offset none chunk = chunk
chunk_onto start_offset (some bytes) chunk = if start_offset == 0 then chunk else bytes ++ chunk

unfoldable pub spool_chunk : RegistryConfig → ℕ → Text → Text → ℕ → Text → Repo → IoResult ℕ × Repo
spool_chunk config now repo_id target_sha start_offset chunk repo =
    let tmp = upload_name target_sha in
    let bytes = chunk_onto start_offset (read repo.spool tmp) chunk in
    if not (is_safe_path_component repo_id) || not (is_safe_path_component target_sha)
    then (err invalid_input, repo)
    else if not (start_offset == 0) && not (upload_len repo.spool target_sha == start_offset)
    then (err invalid_data, repo)
    else if leb (2 ^ 64) (start_offset + length chunk)
    then (err invalid_input, repo)
    else if ltb config.max_snapshot_bytes (start_offset + length chunk)
    then (err invalid_input, repo)
    else (ok (length bytes), record repo { spool = write now repo.spool tmp bytes })

-- The verdict on a signature: `none` where the spooled payload is missing.
unfoldable pub signature_holds : RegistryConfig → Text → Text → Option Text → Dir → Option Bool
unfolding decode_hex
signature_holds config repo_id target_sha signature spool = elim config.provenance_verifier [
  | none ↦ some true
  | some verify_snapshot ↦ read spool (upload_name target_sha) >>= λ payload.
      elim (signature >>= decode_hex) [
        | none ↦ some false
        | some sig ↦ some (verify_snapshot repo_id target_sha payload sig)
      ]
]

-- The section under the head lock: the sequence number of the new job, or the refusal.
pub data Slot : Type 0 where
  slot : ℕ → RepoHead → Slot
  refused : PushDecision → Slot

unfoldable pub advance : RegistryConfig → Text → Option Text → RepoHead → Slot
unfolding is_conflict
advance config target_sha base_sha head =
    if leb config.max_queue_depth_per_repo head.pending
    then refused (rate_limited 5)
    else if is_conflict base_sha head
    then refused conflict
    else slot head.next_seq (record head {
      next_seq = head.next_seq + 1;
      pending = head.pending + 1;
      sha = some target_sha;
    })

-- The signature is written beside the job, and the upload becomes the job.
unfoldable pub commit_spool : ℕ → ℕ → Text → ℕ → Option Text → Dir → Option Dir × Dir
unfolding job_filename job_signature
commit_spool now seq target_sha retention signature spool =
    let signed : Dir = elim signature [
      | none ↦ spool
      | some sig ↦ write now spool (job_signature seq target_sha retention) sig
    ] in
    (rename signed (upload_name target_sha) (job_filename seq target_sha retention), signed)

unfoldable pub enqueue :
    RegistryConfig
    → ℕ
    → Text
    → Option Text
    → ℕ
    → Option Text
    → RepoState
    → Repo
    → IoResult PushDecision × Repo
enqueue config now target_sha base_sha retention signature state repo =
    elim (advance config target_sha base_sha state.head) [
      | refused decision ↦ (ok decision, record repo { state = some state })
      | slot seq head ↦
          let (renamed, signed) = commit_spool now seq target_sha retention signature repo.spool in
          let state' = record state { head = head } in
          elim renamed [
            | none ↦ (err not_found, record repo { state = some state'; spool = signed })
            | some spool ↦ (ok accepted, record repo { state = some state'; spool = spool })
          ]
    ]

unfoldable pub finish_upload :
    RegistryConfig
    → ℕ
    → Text
    → Text
    → Option Text
    → ℕ
    → Option Text
    → Bool
    → Repo
    → IoResult PushDecision × Repo
finish_upload config now repo_id target_sha base_sha retention signature reserved repo =
    if not (is_safe_path_component repo_id) || not (is_safe_path_component target_sha)
    then (err invalid_input, repo)
    else elim (signature_holds config repo_id target_sha signature repo.spool) [
      | none ↦ (err not_found, repo)
      | some false ↦ (ok signature_invalid, repo)
      | some true ↦
          let state = repo_state now repo in
          if reserved
          then enqueue config now target_sha base_sha retention signature state repo
          else let (free, window) = take_rate config now state.rate in
            let state' = record state { rate = window } in
            if free
            then enqueue config now target_sha base_sha retention signature state' repo
            else (ok (rate_limited 60), record repo { state = some state' })
    ]

abbrev pub is_accepted : IoResult PushDecision → Bool
is_accepted (ok accepted) = true
is_accepted _ = false

unfoldable pub push_complete :
    RegistryConfig
    → ℕ
    → Text
    → Text
    → Option Text
    → ℕ
    → Option Text
    → Repo
    → IoResult PushDecision × Repo
push_complete config now repo_id target_sha base_sha retention signature repo =
    let (reserved, repo1) = take_upload_reservation target_sha repo in
    let (result, repo2) =
      finish_upload config now repo_id target_sha base_sha retention signature reserved repo1 in
    (result, if is_accepted result then repo2 else abandon_upload repo_id target_sha repo2)

-- All steps read the clock as one: `now`.
unfoldable pub push :
    RegistryConfig
    → ℕ
    → Text
    → Text
    → Option Text
    → ℕ
    → Option Text
    → Text
    → Repo
    → IoResult PushDecision × Repo
push config now repo_id target_sha base_sha retention signature payload repo =
    let (begun, repo1) = begin_upload config now repo_id target_sha base_sha repo in
    let (spooled, repo2) = spool_chunk config now repo_id target_sha 0 payload repo1 in
    let (completed, repo3) =
      push_complete config now repo_id target_sha base_sha retention signature repo2 in
    if not (is_accepted begun) then (begun, repo1) else elim spooled [
      | err e ↦ (err e, abandon_upload repo_id target_sha repo2)
      | ok len ↦ (completed, repo3)
    ]

unfoldable pub pull : Text → Text → Repo → PullResult
unfolding read_persisted_head
pull repo_id commit_sha repo =
    if not (is_safe_path_component repo_id)
      || (not (commit_sha == codes "latest") && not (is_safe_path_component commit_sha))
    then nothing_found
    else elim (if commit_sha == codes "latest"
        then read_persisted_head repo.store
        else some commit_sha) [
          | none ↦ nothing_found
          | some sha ↦ elim (read repo.store (snapshot_name sha)) [
            | none ↦ nothing_found
            | some bytes ↦ found bytes (read repo.store (signature_name sha))
          ]
        ]

unfoldable pub pending_jobs : ℕ → Repo → ℕ × Repo
unfolding repo_state
pending_jobs now repo =
    let state = repo_state now repo in (state.head.pending, record repo { state = some state })
