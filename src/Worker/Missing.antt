-- ===== src/Worker/Missing.antt =====
-- The completion of an upload whose file is gone.
use weave_graph.Common.{
  inl, inr, ℕ, suc, ◌+◌, ◌≤◌, ◌<◌, Text, codes, length, true, false, Option, none, some,
  Option-cases, ◌≡◌, ◌∙◌, refl, sym, ap, arith, lookup, lookup-put, ◌==◌, ==_iff, erase, nat_eq,
  list_eq,
}
use weave_graph.Disk.{Dir, read, rename}
use weave_graph.Spool.{is_safe_path_component, job_stem, job_signature, job_filename, leftover_jobs}
use weave_graph.Spool.Count.{last_of, last_of-append}
use weave_graph.Spool.Leftover.{length-leftover_jobs}
use weave_graph.Registry.{
  RegistryConfig, Repo, RepoHead, RepoState, err, not_found, upload_name, repo_state, is_conflict,
  take_upload_reservation, abandon_upload, without_upload,
}
use weave_graph.Push.{push_complete, finish_upload, enqueue, advance, commit_spool, signature_holds}
use weave_graph.Worker.Queue.{Kept-trans, Kept-erase, upload_name-plain, plain_file}
use weave_graph.Worker.Complete.{signed-Kept, commit_spool-rename}

upload_name-job_signature :
    (seq retention : ℕ) (sha : Text) → ¬ (upload_name sha ≡ job_signature seq sha retention)
unfolding job_signature
upload_name-job_signature seq retention sha e = omega (
  arith,
  last_of-append 0 b'.' sha (codes "tmp"),
  last_of-append 0 b'.' (job_stem seq sha retention) (codes "sig"),
  ap (last_of 0) e,
)

-- The signature is another file than the upload.
pub lookup-signed :
    (now seq : ℕ) (sha : Text) (retention : ℕ) (signature : Option Text) (spool : Dir)
    → lookup (commit_spool now seq sha retention signature spool).1 (upload_name sha)
      ≡ lookup spool (upload_name sha)
unfolding commit_spool
lookup-signed now seq sha retention none spool = refl
lookup-signed now seq sha retention (some sig) spool =
    let apart : (upload_name sha == job_signature seq sha retention) ≡ false = ground (
      arith,
      ==_iff (upload_name sha) (job_signature seq sha retention),
      upload_name-job_signature seq retention sha,
    ) in
    lookup-put spool (job_signature seq sha retention) (upload_name sha)
      (record { bytes = sig; modified = now })
    ∙ rw apart

lookup_of_read : (dir : Dir) (name : Text) → read dir name ≡ none → lookup dir name ≡ none
lookup_of_read dir name e = elim (Option-cases (lookup dir name)) [
  | inl h ↦ h
  | inr (file, h) ↦ let some_file : some file.bytes ≡ none = sym (rw (h, read)) ∙ e in cc
]

rename-none : (dir : Dir) (from to : Text) → lookup dir from ≡ none → rename dir from to ≡ none
rename-none dir from to e = rw (e, rename)

is_conflict-without :
    (base : Option Text) (sha : Text) (state : RepoState)
    → is_conflict base (without_upload sha state).head ≡ is_conflict base state.head
unfolding is_conflict
is_conflict-without none sha state = refl
is_conflict-without (some base) sha state = refl

module _ (config : RegistryConfig) (now : ℕ) (repo_id target_sha : Text) (base_sha : Option Text)
    (retention : ℕ) (signature : Option Text) where
  abbrev next_head : RepoState → RepoHead
  next_head state = record state.head {
    next_seq = state.head.next_seq + 1;
    pending = state.head.pending + 1;
    sha = some target_sha;
  }

  abbrev signed : RepoState → Repo → Dir
  signed state repo =
      (commit_spool now state.head.next_seq target_sha retention signature repo.spool).1

  -- The upload's file is not there after the signature is written either.
  enqueue-missing :
      (state : RepoState) (repo : Repo)
      → state.head.pending < config.max_queue_depth_per_repo
      → is_conflict base_sha state.head ≡ false
      → (commit_spool now state.head.next_seq target_sha retention signature repo.spool).0 ≡ none
      → enqueue config now target_sha base_sha retention signature state repo ≡ (
        err not_found,
        record repo {
          state = some (record state { head = next_head state });
          spool = signed state repo;
        },
      )
  unfolding enqueue advance
  enqueue-missing state repo room free gone = ground arith

  finish_upload-reserved :
      (repo : Repo) (state : RepoState)
      → is_safe_path_component repo_id ≡ true
      → is_safe_path_component target_sha ≡ true
      → config.provenance_verifier ≡ none
      → repo.state ≡ some state
      → finish_upload config now repo_id target_sha base_sha retention signature true repo
        ≡ enqueue config now target_sha base_sha retention signature state repo
  unfolding finish_upload signature_holds repo_state
  finish_upload-reserved repo state safe fine unsigned there = ground arith

  abbrev reserved_state : RepoState → RepoState
  reserved_state state = without_upload target_sha state

  abbrev left : RepoState → Repo → Repo
  left state repo = record repo {
    state = some (
        without_upload target_sha
          (record (reserved_state state) { head = next_head (reserved_state state) }));
    spool = erase (signed state repo) (upload_name target_sha);
  }

  commit_spool-missing :
      (seq : ℕ) (spool : Dir)
      → read spool (upload_name target_sha) ≡ none
      → (commit_spool now seq target_sha retention signature spool).0 ≡ none
  commit_spool-missing seq spool gone =
      commit_spool-rename now seq target_sha retention signature spool
      ∙ rename-none (commit_spool now seq target_sha retention signature spool).1
          (upload_name target_sha) (job_filename seq target_sha retention)
          (lookup-signed now seq target_sha retention signature spool
            ∙ lookup_of_read spool (upload_name target_sha) gone)

  push_complete-left :
      (repo : Repo) (state : RepoState) (started : ℕ)
      → is_safe_path_component repo_id ≡ true
      → is_safe_path_component target_sha ≡ true
      → config.provenance_verifier ≡ none
      → repo.state ≡ some state
      → lookup state.head.uploads target_sha ≡ some started
      → state.head.pending < config.max_queue_depth_per_repo
      → is_conflict base_sha state.head ≡ false
      → read repo.spool (upload_name target_sha) ≡ none
      → push_complete config now repo_id target_sha base_sha retention signature repo
        ≡ (err not_found, left state repo)
  unfolding push_complete take_upload_reservation abandon_upload is_conflict
  push_complete-left repo state started safe fine unsigned there reserved room free gone =
      let calm = is_conflict-without base_sha target_sha state ∙ free in
      let repo1 : Repo = record repo { state = some (reserved_state state) } in
      let finished =
        finish_upload-reserved repo1 (reserved_state state) safe fine unsigned refl
        ∙ enqueue-missing (reserved_state state) repo1 room calm
            (commit_spool-missing state.head.next_seq repo.spool gone) in
      rw (
        there, reserved, take_upload_reservation, push_complete, finished, safe, fine,
        abandon_upload,
      )

  -- A reserved upload whose file is not there, as when no chunk of it was sent: the completion fails,
  -- yet the head is then its commit and one more push is pending, while the store and the queue of
  -- jobs are as before and the spool holds no more jobs than before.
  pub push_complete-missing :
      (repo : Repo) (state : RepoState) (started : ℕ)
      → is_safe_path_component repo_id ≡ true
      → is_safe_path_component target_sha ≡ true
      → config.provenance_verifier ≡ none
      → repo.state ≡ some state
      → lookup state.head.uploads target_sha ≡ some started
      → state.head.pending < config.max_queue_depth_per_repo
      → is_conflict base_sha state.head ≡ false
      → read repo.spool (upload_name target_sha) ≡ none
      → ((push_complete config now repo_id target_sha base_sha retention signature repo).0
          ≡ err not_found)
        × ((after : RepoState) × ((push_complete config now repo_id target_sha base_sha retention
                signature repo).1.state
              ≡ some after)
            × (after.head.sha ≡ some target_sha)
            × (after.head.pending ≡ suc state.head.pending))
        × (length (
              leftover_jobs
                (push_complete config now repo_id target_sha base_sha retention signature
                  repo).1.spool)
            ≤ length (leftover_jobs repo.spool))
        × ((push_complete config now repo_id target_sha base_sha retention signature repo).1.store
            ≡ repo.store)
        × ((push_complete config now repo_id target_sha base_sha retention signature repo).1.jobs
            ≡ repo.jobs)
  push_complete-missing repo state started safe fine unsigned there reserved room free gone =
      let whole =
        push_complete-left repo state started safe fine unsigned there reserved room free gone in
      let kept =
        Kept-trans (signed-Kept now state.head.next_seq target_sha retention signature repo.spool) (
          Kept-erase (signed state repo) (upload_name target_sha)
            (upload_name-plain target_sha plain_file)) in
      rw whole (
        refl,
        (
          without_upload target_sha
              (record (reserved_state state) { head = next_head (reserved_state state) }),
          refl,
          refl,
          omega arith,
        ),
        omega (
          arith,
          kept.fewer,
          length-leftover_jobs repo.spool,
          length-leftover_jobs (erase (signed state repo) (upload_name target_sha)),
        ),
        refl,
        refl,
      )
