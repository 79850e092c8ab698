-- ===== src/Worker/Accepted.antt =====
-- A completed upload is a job of the spool that the worker commits and `pull` returns.
use weave_graph.Common.{
  ℕ, Text, Bool, true, false, Option, some, ◌≡◌, inl, inr, refl, sym, ap, ◌∙◌, arith, nat_eq,
  list_eq, lookup, put, erase,
}
use weave_graph.Disk.{File, Dir, rename}
use weave_graph.Spool.{job_filename, is_safe_path_component}
use weave_graph.Registry.{
  RegistryConfig, RepoHead, RepoState, Repo, ok, PushDecision, accepted, upload_name, repo_state,
  take_rate,
}
use weave_graph.Push.{
  advance, slot, refused, commit_spool, enqueue, finish_upload, signature_holds, is_accepted,
}
use weave_graph.Worker.Complete.{Slot-cases, commit_spool-rename}
use weave_graph.Worker.Missing.{lookup-signed}

rename-some :
    (dir : Dir) (from to : Text) (file : File)
    → lookup dir from ≡ some file
    → rename dir from to ≡ some (put (erase dir from) to file)
rename-some dir from to file e = rw (e, rename)

module _ (config : RegistryConfig) (now : ℕ) (target_sha : Text) (base_sha : Option Text)
    (retention : ℕ) (signature : Option Text) where
  abbrev pub signed : ℕ → Dir → Dir
  signed seq spool = (commit_spool now seq target_sha retention signature spool).1

  -- The spool in which the upload is the job of number `seq`.
  abbrev pub queued : ℕ → Dir → File → Dir
  queued seq spool file =
      put (erase (signed seq spool) (upload_name target_sha))
        (job_filename seq target_sha retention) file

  advance-refused :
      (head : RepoHead) (decision : PushDecision)
      → advance config target_sha base_sha head ≡ refused decision
      → is_accepted (ok decision) ≡ false
  unfolding advance
  advance-refused head decision e = ground arith

  advance-seq :
      (head after : RepoHead) (seq : ℕ)
      → advance config target_sha base_sha head ≡ slot seq after
      → seq ≡ head.next_seq
  unfolding advance
  advance-seq head after seq e = ground arith

  pub enqueue-accepted :
      (state : RepoState) (repo : Repo) (file : File)
      → lookup repo.spool (upload_name target_sha) ≡ some file
      → (enqueue config now target_sha base_sha retention signature state repo).0 ≡ ok accepted
      → (after : RepoState) × (enqueue config now target_sha base_sha retention signature state repo
          ≡ (
            ok accepted,
            record repo { state = some after; spool = queued state.head.next_seq repo.spool file },
          ))
  unfolding enqueue
  enqueue-accepted state repo file there e =
      elim (Slot-cases (advance config target_sha base_sha state.head)) [
        | inl (decision, no_slot) ↦
            let refusal : ok decision ≡ ok accepted = rw (no_slot, enqueue) at e in
            let clash : false ≡ true =
              sym (advance-refused state.head decision no_slot) ∙ ap is_accepted refusal in
            cc
        | inr (seq, head, taken) ↦
            let moved : (commit_spool now seq target_sha retention signature repo.spool).0
                ≡ some (queued seq repo.spool file) =
              commit_spool-rename now seq target_sha retention signature repo.spool
              ∙ rename-some (signed seq repo.spool) (upload_name target_sha)
                  (job_filename seq target_sha retention) file
                  (lookup-signed now seq target_sha retention signature repo.spool ∙ there) in
            let after : RepoState = record state { head = head } in
            (
              after,
              rw (taken, moved, enqueue)
                  (ap
                    (λ n. (
                      ok accepted,
                      record repo { state = some after; spool = queued n repo.spool file },
                    ))
                    (advance-seq state.head head seq taken)),
            )
      ]

  pub finish_upload-checked :
      (repo_id : Text) (reserved : Bool) (repo : Repo)
      → is_accepted
          (finish_upload config now repo_id target_sha base_sha retention signature reserved repo).0
        ≡ true
      → (is_safe_path_component repo_id ≡ true)
        × (is_safe_path_component target_sha ≡ true)
        × (signature_holds config repo_id target_sha signature repo.spool ≡ some true)
  unfolding finish_upload
  finish_upload-checked repo_id reserved repo e = (ground arith, ground arith, ground arith)

  -- The state that the section under the head lock starts from.
  abbrev pub checked_state : Bool → Repo → RepoState
  checked_state true repo = repo_state now repo
  checked_state false repo = record (repo_state now repo) {
    rate = (take_rate config now (repo_state now repo).rate).1;
  }

  pub checked_state-seq :
      (reserved : Bool) (repo : Repo)
      → (checked_state reserved repo).head ≡ (repo_state now repo).head
  checked_state-seq true repo = refl
  checked_state-seq false repo = refl

  pub finish_upload-enqueue :
      (repo_id : Text) (reserved : Bool) (repo : Repo)
      → is_accepted
          (finish_upload config now repo_id target_sha base_sha retention signature reserved repo).0
        ≡ true
      → finish_upload config now repo_id target_sha base_sha retention signature reserved repo
        ≡ enqueue config now target_sha base_sha retention signature
            (checked_state reserved repo)
            repo
  unfolding finish_upload
  finish_upload-enqueue repo_id true repo e = ground arith
  finish_upload-enqueue repo_id false repo e = ground arith
