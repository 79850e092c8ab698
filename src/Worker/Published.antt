-- ===== src/Worker/Published.antt =====
-- A completed upload is a job of the spool that the worker commits and `pull` returns.
use weave_graph.Common.{
  ℕ, ◌<◌, ◌^◌, Text, codes, [], ◌∷◌, Option, some, ◌≡◌, ap, ◌∙◌, arith, nat_eq, list_eq,
}
use weave_graph.Disk.{Dir, read}
use weave_graph.Spool.{SpoolJob, leftover_jobs}
use weave_graph.Registry.{
  RegistryConfig, RepoState, Repo, ok, accepted, found, upload_name, repo_state,
}
use weave_graph.Push.{push_complete, is_accepted, pull}
use weave_graph.Worker.{work_off, worker_turn, commit_job}
use weave_graph.Worker.Blobs.{count_blobs}
use weave_graph.Worker.Commit.{commit_job-written, pull-written}
use weave_graph.Worker.Queued.{
  read-file, job_at, spooled_at, leftover_jobs-spooled_at, read-job, read-signature,
  push_complete-queued,
}

module _ (config : RegistryConfig) (now : ℕ) (target_sha : Text) (base_sha : Option Text)
    (retention : ℕ) (sig : Text) where
  -- The worker reads the one job, and then does it.
  two_turns :
      (repo : Repo) (after : RepoState) (spool : Dir) (job : SpoolJob) (later last : ℕ)
      → repo.jobs ≡ []
      → leftover_jobs spool ≡ job ∷ []
      → (worker_turn last
          (worker_turn later (record repo { state = some after; spool = spool }))).store
        ≡ (commit_job last repo.store spool job).1
  unfolding worker_turn work_off
  two_turns repo after spool job later last idle waiting = ground arith

  -- An upload that lies in the spool of an idle repository, and whose completion with a signature is
  -- accepted: after two turns of the worker, `pull` of the latest commit returns its bytes and the
  -- signature, if the store holds fewer snapshots than the upload's retention and the numbers are
  -- 64 bits wide.
  pub pull-push_complete :
      (repo_id : Text) (repo : Repo) (payload : Text) (later last : ℕ)
      → leftover_jobs repo.spool ≡ []
      → repo.jobs ≡ []
      → read repo.spool (upload_name target_sha) ≡ some payload
      → (repo_state now repo).head.next_seq < 2 ^ 64
      → retention < 2 ^ 64
      → count_blobs repo.store < retention
      → (push_complete config now repo_id target_sha base_sha retention (some sig) repo).0
        ≡ ok accepted
      → pull repo_id (codes "latest") (
          worker_turn last (
            worker_turn later
              (push_complete config now repo_id target_sha base_sha retention (some sig) repo).1))
        ≡ found payload (some sig)
  pull-push_complete repo_id repo payload later last idle quiet there small kept room e =
      let (file, lies, bytes) = read-file repo.spool (upload_name target_sha) payload there in
      let (safe, fine, (after, queued_up)) =
        push_complete-queued config now target_sha base_sha retention sig repo_id repo file lies
          (ap is_accepted e) in
      let seq = (repo_state now repo).head.next_seq in
      let spool = spooled_at config now target_sha base_sha retention sig seq repo.spool file in
      let committed =
        commit_job-written last repo.store spool
          (job_at config now target_sha base_sha retention sig seq) file.bytes sig
          (read-job config now target_sha base_sha retention sig seq repo.spool file)
          (read-signature config now target_sha base_sha retention sig seq repo.spool file) room in
      let turned =
        two_turns repo after spool (job_at config now target_sha base_sha retention sig seq) later
          last quiet
          (leftover_jobs-spooled_at config now target_sha base_sha retention sig seq repo.spool file
            idle small kept) in
      let done =
        worker_turn last (worker_turn later (record repo { state = some after; spool = spool })) in
      let published =
        pull-written last repo.store repo_id target_sha file.bytes sig done safe fine
          (turned ∙ ap (λ r. r.1) committed) in
      rw queued_up (published ∙ ap (λ b. found b (some sig)) bytes)
