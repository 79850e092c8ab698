-- ===== src/Worker/Complete.antt =====
-- The completion of an upload keeps the count of the spool within `pending`.
use weave_graph.Common.{
  ℕ, suc, ◌≤◌, ◌<◌, Text, Bool, Option, none, some, Option-cases, ◌≡◌, ◌⊎◌, inl, inr, refl, sym,
  ◌∙◌, subst, arith, put, erase, lookup, nat_eq, list_eq, KeysDistinct, put-KeysDistinct,
}
use weave_graph.Disk.{Dir, rename}
use weave_graph.Spool.{SpoolJob, job_filename, job_signature}
use weave_graph.Spool.Count.{count_jobs, count_jobs-put}
use weave_graph.Spool.Leftover.{Spooled, Spooled-put}
use weave_graph.Registry.{
  RegistryConfig, RepoHead, RepoState, Repo, PushDecision, upload_name, repo_state, take_rate,
  take_upload_reservation, without_upload,
}
use weave_graph.Push.{
  advance, Slot, slot, refused, commit_spool, enqueue, finish_upload, push_complete,
}
use weave_graph.Worker.Queue.{
  Counted, IsQueued, Kept, Kept-refl, Kept-erase, Kept-put, repo_state-Counted, upload_name-plain,
  job_signature-plain, plain_file,
}
use weave_graph.Worker.Bounds.{IsQueued-Kept, abandon-IsQueued}

-- A directory with one job more at most.
record Grown (before after : Dir) : Type 0 where
  keys_kept : KeysDistinct before → KeysDistinct after
  one_more : count_jobs after ≤ suc (count_jobs before)
  spooled : (job : SpoolJob) → Spooled before job → Spooled after job

pub signed-Kept :
    (now seq : ℕ) (sha : Text) (retention : ℕ) (signature : Option Text) (spool : Dir)
    → Kept spool (commit_spool now seq sha retention signature spool).1
unfolding commit_spool
signed-Kept now seq sha retention none spool = Kept-refl spool
signed-Kept now seq sha retention (some sig) spool =
    Kept-put spool (job_signature seq sha retention) (record { bytes = sig; modified = now })
      (job_signature-plain seq retention sha (record { bytes = sig; modified = now }))

pub commit_spool-rename :
    (now seq : ℕ) (sha : Text) (retention : ℕ) (signature : Option Text) (spool : Dir)
    → (commit_spool now seq sha retention signature spool).0
      ≡ rename
          (commit_spool now seq sha retention signature spool).1
          (upload_name sha)
          (job_filename seq sha retention)
unfolding commit_spool
commit_spool-rename now seq sha retention signature spool = refl

Grown-Kept : {before after : Dir} → Kept before after → Grown before after
Grown-Kept k = record {
  keys_kept = k.keys_kept;
  one_more = omega (arith, k.fewer);
  spooled = k.spooled;
}

renamed-Grown :
    (before after : Dir) (sha name : Text)
    → rename before (upload_name sha) name ≡ some after
    → Grown before after
renamed-Grown before after sha name e = elim (Option-cases (lookup before (upload_name sha))) [
  | inl missing ↦ let nothing : none ≡ some after = sym (rw (missing, rename)) ∙ e in cc
  | inr (file, there) ↦
      let kept = Kept-erase before (upload_name sha) (upload_name-plain sha plain_file) in
      let whole : some (put (erase before (upload_name sha)) name file) ≡ some after =
        sym (rw (there, rename)) ∙ e in
      let same : put (erase before (upload_name sha)) name file ≡ after = cc whole in
      subst (Grown before) same (record {
        keys_kept =
            λ d. put-KeysDistinct (erase before (upload_name sha)) name file (kept.keys_kept d);
        one_more =
            omega
              (arith, (count_jobs-put (erase before (upload_name sha)) name file).0, kept.fewer);
        spooled = λ job s.
            Spooled-put (erase before (upload_name sha)) name file job (kept.spooled job s);
      })
]

renamed-commit :
    (now seq : ℕ) (sha : Text) (retention : ℕ) (signature : Option Text) (spool after : Dir)
    → (commit_spool now seq sha retention signature spool).0 ≡ some after
    → Grown spool after
renamed-commit now seq sha retention signature spool after e =
    let kept = signed-Kept now seq sha retention signature spool in
    let g =
      renamed-Grown (commit_spool now seq sha retention signature spool).1 after sha
        (job_filename seq sha retention)
        (sym (commit_spool-rename now seq sha retention signature spool) ∙ e) in
    record {
      keys_kept = λ d. g.keys_kept (kept.keys_kept d);
      one_more = omega (arith, g.one_more, kept.fewer);
      spooled = λ job s. g.spooled job (kept.spooled job s);
    }

pub Slot-cases :
    (s : Slot)
    → ((d : PushDecision) × (s ≡ refused d)) ⊎ ((seq : ℕ) × (head : RepoHead) × (s ≡ slot seq head))
Slot-cases (refused d) = inl (d, refl)
Slot-cases (slot seq head) = inr (seq, head, refl)

module _ (config : RegistryConfig) where
  advance-slot :
      (sha : Text) (base : Option Text) (head after : RepoHead) (seq : ℕ)
      → advance config sha base head ≡ slot seq after
      → (after.pending ≡ suc head.pending) × (head.pending < config.max_queue_depth_per_repo)
  unfolding advance
  advance-slot sha base head after seq e = ground arith

  IsQueued-Grown :
      (repo : Repo) (spool : Dir) (state next : RepoState)
      → Grown repo.spool spool
      → IsQueued config repo
      → Counted config.max_queue_depth_per_repo repo.spool (some state)
      → next.head.pending ≡ suc state.head.pending
      → state.head.pending < config.max_queue_depth_per_repo
      → IsQueued config (record repo { spool = spool; state = some next })
  IsQueued-Grown repo spool state next g q c e room = record {
    distinct = g.keys_kept q.distinct;
    counted = omega (arith, g.one_more);
    owned = (λ job m. g.spooled job (q.owned.0 job m), q.owned.1);
    asleep = λ n. cc;
  }

  enqueue-IsQueued :
      (now : ℕ) (sha : Text) (base : Option Text) (retention : ℕ) (signature : Option Text)
      (state : RepoState) (repo : Repo)
      → IsQueued config repo
      → Counted config.max_queue_depth_per_repo repo.spool (some state)
      → IsQueued config (enqueue config now sha base retention signature state repo).1
  unfolding enqueue
  enqueue-IsQueued now sha base retention signature state repo q c =
      elim (Slot-cases (advance config sha base state.head)) [
        | inl (decision, e) ↦
            rw (e, enqueue) (IsQueued-Kept config repo repo.spool state (Kept-refl repo.spool) q c)
        | inr (seq, head, e) ↦
            let (counted, room) = advance-slot sha base state.head head seq e in
            let signed = (commit_spool now seq sha retention signature repo.spool).1 in
            let kept = signed-Kept now seq sha retention signature repo.spool in
            let next : RepoState = record state { head = head } in
            elim (Option-cases (commit_spool now seq sha retention signature repo.spool).0) [
              | inl missing ↦
                  rw (e, missing, enqueue)
                    (IsQueued-Grown repo signed state next (Grown-Kept kept) q c counted room)
              | inr (spool, there) ↦
                  rw (e, there, enqueue)
                    (IsQueued-Grown repo spool state next
                      (renamed-commit now seq sha retention signature repo.spool spool there) q c
                      counted room)
            ]
      ]

  take_upload_reservation-IsQueued :
      (sha : Text) (repo : Repo)
      → IsQueued config repo
      → IsQueued config (take_upload_reservation sha repo).1
  unfolding take_upload_reservation
  take_upload_reservation-IsQueued sha repo q = elim (Option-cases repo.state) [
    | inl e ↦ rw (e, take_upload_reservation) q
    | inr (state, e) ↦ elim (Option-cases (lookup state.head.uploads sha)) [
      | inl gone ↦ rw (e, gone, take_upload_reservation) q
      | inr (started, there) ↦
          rw (e, there, take_upload_reservation)
            (IsQueued-Kept config repo repo.spool (without_upload sha state) (Kept-refl repo.spool)
              q (subst (Counted config.max_queue_depth_per_repo repo.spool) e q.counted))
    ]
  ]

  finish_upload-IsQueued :
      (now : ℕ) (id sha : Text) (base : Option Text) (retention : ℕ) (signature : Option Text)
      (reserved : Bool) (repo : Repo)
      → IsQueued config repo
      → IsQueued config (finish_upload config now id sha base retention signature reserved repo).1
  unfolding finish_upload
  finish_upload-IsQueued now id sha base retention signature reserved repo q =
      let state = repo_state now repo in
      let c = repo_state-Counted config.max_queue_depth_per_repo now repo q.counted in
      let window = (take_rate config now state.rate).1 in
      let direct = enqueue-IsQueued now sha base retention signature state repo q c in
      let counted =
        enqueue-IsQueued now sha base retention signature (record state { rate = window }) repo q
          c in
      let waiting =
        IsQueued-Kept config repo repo.spool (record state { rate = window }) (Kept-refl repo.spool)
          q c in
      ground arith

  pub complete-IsQueued :
      (now : ℕ) (id sha : Text) (base : Option Text) (retention : ℕ) (signature : Option Text)
      (repo : Repo)
      → IsQueued config repo
      → IsQueued config (push_complete config now id sha base retention signature repo).1
  unfolding push_complete
  complete-IsQueued now id sha base retention signature repo q =
      let (reserved, repo1) = take_upload_reservation sha repo in
      let finished =
        finish_upload-IsQueued now id sha base retention signature reserved repo1
          (take_upload_reservation-IsQueued sha repo q) in
      let abandoned =
        abandon-IsQueued config id sha
          (finish_upload config now id sha base retention signature reserved repo1).1 finished in
      ground arith
