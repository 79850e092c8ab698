-- ===== src/Worker/Bounds.antt =====
-- Every step keeps the count of the spool within `pending`, and `pending` within its bound.
use weave_graph.Common.{
  ℕ, ◌≤◌, Text, List, [], ◌∷◌, map, not, ◌||◌, Bool-cases, Option, none, some, Option-cases,
  List-cases, ◌≡◌, inl, inr, refl, subst, arith, put, erase, erase_all, nat_eq, list_eq,
  erase-KeysDistinct,
}
use weave_graph.Disk.{File, Dir, read}
use weave_graph.Spool.{SpoolJob, leftover_jobs, is_safe_path_component}
use weave_graph.Spool.Count.{count_jobs, count_jobs-erase_job}
use weave_graph.Spool.Leftover.{Owned, leftover_jobs-Owned, Spooled-erase}
use weave_graph.Registry.{
  RegistryConfig, RepoState, Repo, upload_name, repo_state, expired, drop_uploads, expire_uploads,
  admit, begin_upload, abandon_upload, without_upload,
}
use weave_graph.Push.{spool_chunk, pending_jobs, chunk_onto}
use weave_graph.Worker.{work_off, worker_turn, retire, signature_of}
use weave_graph.Worker.Queue.{
  Counted, IsQueued, Kept, Kept-refl, Kept-erase, Kept-put, Kept-erase_uploads, Owned-Kept,
  repo_state-Counted, upload_name-plain, job_signature-plain, plain_file,
}

pub Counted-Kept :
    (bound : ℕ) (state : Option RepoState) {before after : Dir}
    → Kept before after
    → Counted bound before state
    → Counted bound after state
Counted-Kept bound none k c = omega (arith, k.fewer)
Counted-Kept bound (some state) k c = omega (arith, k.fewer)

pub Counted-bound :
    (bound : ℕ) (spool : Dir) (state : Option RepoState)
    → Counted bound spool state
    → count_jobs spool ≤ bound
Counted-bound bound spool none c = c
Counted-bound bound spool (some state) c = omega arith

module _ (config : RegistryConfig) where
  -- A step that leaves the jobs, keeps the spool, and has a state that is counted.
  pub IsQueued-Kept :
      (repo : Repo) (spool : Dir) (state : RepoState)
      → Kept repo.spool spool
      → IsQueued config repo
      → Counted config.max_queue_depth_per_repo repo.spool (some state)
      → IsQueued config (record repo { spool = spool; state = some state })
  IsQueued-Kept repo spool state k q c = record {
    distinct = k.keys_kept q.distinct;
    counted = Counted-Kept config.max_queue_depth_per_repo (some state) k c;
    owned = Owned-Kept repo.jobs k q.owned;
    asleep = λ e. cc;
  }

  admit-pending :
      (now : ℕ) (sha : Text) (base : Option Text) (state : RepoState)
      → (admit config now sha base state).1.head.pending ≡ state.head.pending
  unfolding admit
  admit-pending now sha base state = ground arith

  pub begin-IsQueued :
      (now : ℕ) (id sha : Text) (base : Option Text) (repo : Repo)
      → IsQueued config repo
      → IsQueued config (begin_upload config now id sha base repo).1
  unfolding begin_upload expire_uploads
  begin-IsQueued now id sha base repo q =
      elim (Bool-cases (not (is_safe_path_component id) || not (is_safe_path_component sha))) [
        | inl e ↦ rw e q
        | inr e ↦
            let state = repo_state now repo in
            let gone = expired now state.head.uploads in
            let c = repo_state-Counted config.max_queue_depth_per_repo now repo q.counted in
            rw e (
              IsQueued-Kept repo (erase_all repo.spool (map upload_name gone))
                (admit config now sha base (drop_uploads gone state)).1
                (Kept-erase_uploads repo.spool gone) q
                (omega (arith, admit-pending now sha base (drop_uploads gone state))))
      ]

  pub chunk-IsQueued :
      (now : ℕ) (id sha : Text) (start : ℕ) (bytes : Text) (repo : Repo)
      → IsQueued config repo
      → IsQueued config (spool_chunk config now id sha start bytes repo).1
  unfolding spool_chunk
  chunk-IsQueued now id sha start bytes repo q =
      let file : File = record {
        bytes = chunk_onto start (read repo.spool (upload_name sha)) bytes;
        modified = now;
      } in
      let kept = Kept-put repo.spool (upload_name sha) file (upload_name-plain sha file) in
      let written : IsQueued config
          (record repo { spool = put repo.spool (upload_name sha) file }) =
        record {
          distinct = kept.keys_kept q.distinct;
          counted = Counted-Kept config.max_queue_depth_per_repo repo.state kept q.counted;
          owned = Owned-Kept repo.jobs kept q.owned;
          asleep = q.asleep;
        } in
      ground arith

  pub abandon-IsQueued :
      (id sha : Text) (repo : Repo)
      → IsQueued config repo
      → IsQueued config (abandon_upload id sha repo)
  unfolding abandon_upload
  abandon-IsQueued id sha repo q =
      elim (Bool-cases (not (is_safe_path_component id) || not (is_safe_path_component sha))) [
        | inl e ↦ rw e q
        | inr e ↦
            let kept = Kept-erase repo.spool (upload_name sha) (upload_name-plain sha plain_file) in
            elim (Option-cases repo.state) [
              | inl asleep ↦
                  rw (e, asleep)
                    (record {
                      distinct = kept.keys_kept q.distinct;
                      counted = Counted-Kept config.max_queue_depth_per_repo none kept (
                          subst (Counted config.max_queue_depth_per_repo repo.spool) asleep
                            q.counted);
                      owned = Owned-Kept repo.jobs kept q.owned;
                      asleep = λ _. q.asleep asleep;
                    })
              | inr (state, awake) ↦
                  rw (e, awake)
                    (IsQueued-Kept repo (erase repo.spool (upload_name sha))
                      (without_upload sha state) kept q
                      (subst (Counted config.max_queue_depth_per_repo repo.spool) awake q.counted))
            ]
      ]

  pub count-IsQueued :
      (now : ℕ) (repo : Repo) → IsQueued config repo → IsQueued config (pending_jobs now repo).1
  unfolding pending_jobs
  count-IsQueued now repo q =
      IsQueued-Kept repo repo.spool (repo_state now repo) (Kept-refl repo.spool) q
        (repo_state-Counted config.max_queue_depth_per_repo now repo q.counted)

  pub restart-IsQueued :
      (repo : Repo)
      → IsQueued config repo
      → IsQueued config (record repo { state = none; jobs = [] })
  restart-IsQueued repo q = record {
    distinct = q.distinct;
    counted = Counted-bound config.max_queue_depth_per_repo repo.spool repo.state q.counted;
    owned = (λ job m. absurd m, tt);
    asleep = λ e. refl;
  }

  pub idle-IsQueued : (repo : Repo) → IsQueued config repo → IsQueued config (retire repo)
  unfolding retire
  idle-IsQueued repo q = elim (List-cases repo.jobs) [
    | inl none_left ↦ elim (List-cases (leftover_jobs repo.spool)) [
      | inl empty ↦
          rw (none_left, empty, retire)
            (record {
              distinct = q.distinct;
              counted =
                  Counted-bound config.max_queue_depth_per_repo repo.spool repo.state q.counted;
              owned = q.owned;
              asleep = λ _. none_left;
            })
      | inr (job, rest, e) ↦ rw (none_left, e, retire) q
    ]
    | inr (job, rest, e) ↦ rw (e, retire) q
  ]

  pub scan-IsQueued :
      (repo : Repo) (state : RepoState)
      → IsQueued config repo
      → repo.state ≡ some state
      → IsQueued config (record repo { jobs = leftover_jobs repo.spool })
  scan-IsQueued repo state q e = record {
    distinct = q.distinct;
    counted = q.counted;
    owned = leftover_jobs-Owned repo.spool q.distinct;
    asleep = λ n. cc;
  }

  pub work-IsQueued :
      (now : ℕ) (repo : Repo) (job : SpoolJob) (rest : List SpoolJob) (state : RepoState)
      → IsQueued config repo
      → repo.state ≡ some state
      → repo.jobs ≡ job ∷ rest
      → IsQueued config (record (work_off now job repo).1 { jobs = rest })
  unfolding work_off
  work-IsQueued now repo job rest state q e busy =
      let owned = subst (Owned repo.spool) busy q.owned in
      let (file, there, named) = owned.0 job (inl refl) in
      let without = erase repo.spool job.path in
      let kept =
        Kept-erase without (signature_of job)
          (job_signature-plain job.seq job.retention job.sha plain_file) in
      let counted = subst (Counted config.max_queue_depth_per_repo repo.spool) e q.counted in
      rw e (record {
        distinct = kept.keys_kept (erase-KeysDistinct repo.spool job.path q.distinct);
        counted = omega (
          arith,
          kept.fewer,
          count_jobs-erase_job repo.spool job.path file job there named,
          counted,
        );
        owned = (
          λ other m.
              kept.spooled other (
                Spooled-erase repo.spool job.path other (owned.1.0 other m)
                  (owned.0 other (inr m))),
          owned.1.1,
        );
        asleep = λ n. cc;
      })

  pub turn-IsQueued :
      (now : ℕ) (repo : Repo) → IsQueued config repo → IsQueued config (worker_turn now repo)
  unfolding worker_turn
  turn-IsQueued now repo q = elim (Option-cases repo.state) [
    | inl e ↦ rw (e, worker_turn) q
    | inr (state, e) ↦ elim (List-cases repo.jobs) [
      | inl idle ↦ rw (e, idle, worker_turn) (scan-IsQueued repo state q e)
      | inr (job, rest, busy) ↦
          rw (e, busy, worker_turn) (work-IsQueued now repo job rest state q e busy)
    ]
  ]
