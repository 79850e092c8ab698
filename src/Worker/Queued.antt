-- ===== src/Worker/Queued.antt =====
-- The completion of an upload that is accepted: the upload is the only job of the spool.
use weave_graph.Common.{
  ℕ, ◌<◌, ◌^◌, Text, codes, List, [], ◌∷◌, length, filter_map, Bool, true, false, Bool-cases,
  Option, none, some, Option-cases, ◌≡◌, inl, inr, refl, sym, ap, ◌∙◌, arith, ◌==◌, ==_refl, nat_eq,
  list_eq, lookup, put, erase, lookup-put, lookup-erase, if◌then◌else◌, sort, insert_sorted,
}
use weave_graph.Disk.{File, Dir, read}
use weave_graph.Spool.{
  SpoolJob, job_of, job_stem, job_filename, job_signature, leftover_jobs, earlier,
  is_safe_path_component,
}
use weave_graph.Spool.Count.{count_jobs, count_jobs-cons, last_of-append}
use weave_graph.Spool.Jobs.{job_of-job_filename}
use weave_graph.Spool.Leftover.{length-leftover_jobs}
use weave_graph.Registry.{
  RegistryConfig, RepoHead, RepoState, Repo, IoResult, ok, PushDecision, accepted, upload_name,
  repo_state, take_upload_reservation,
}
use weave_graph.Push.{commit_spool, enqueue, push_complete, is_accepted}
use weave_graph.Worker.Queue.{Kept-trans, Kept-erase, upload_name-plain, plain_file}
use weave_graph.Worker.Complete.{signed-Kept}
use weave_graph.Worker.Blobs.{last_apart}
use weave_graph.Worker.Accepted.{
  signed, queued, checked_state, checked_state-seq, enqueue-accepted, finish_upload-checked,
  finish_upload-enqueue,
}

-- Taking a reservation changes the reservations alone.
abbrev pub SameBut : Repo → Repo → ℕ → Type 0
SameBut repo after now =
    (after.store ≡ repo.store)
    × (after.spool ≡ repo.spool)
    × (after.jobs ≡ repo.jobs)
    × ((repo_state now after).head.next_seq ≡ (repo_state now repo).head.next_seq)

pub reservation-SameBut :
    (now : ℕ) (sha : Text) (repo : Repo) → SameBut repo (take_upload_reservation sha repo).1 now
unfolding take_upload_reservation repo_state
reservation-SameBut now sha repo = (ground arith, ground arith, ground arith, ground arith)

pub length-zero : {A : Type 0} (xs : List A) → length xs ≡ 0 → xs ≡ []
length-zero [] e = refl
length-zero (x ∷ xs) e = absurd (omega arith)

module _ (name : Text) (file : File) (job : SpoolJob) (named : job_of (name, file) ≡ some job) where
  pub only_job : (dir : Dir) → count_jobs dir ≡ 0 → filter_map job_of (put dir name file) ≡ job ∷ []
  only_job [] e = rw (named, filter_map)
  only_job (entry ∷ dir) e = elim (count_jobs-cons entry dir) [
    | inr (other, h, more) ↦ absurd (omega (arith, more))
    | inl (plain, same) ↦
        let none_below : count_jobs dir ≡ 0 = sym same ∙ e in
        elim (Bool-cases (name == entry.0)) [
          | inl q ↦ rw q (
              rw (named, filter_map)
                (ap (λ js. job ∷ js) (length-zero (filter_map job_of dir) none_below)))
          | inr q ↦ rw q (rw (plain, filter_map) (only_job dir none_below))
        ]
  ]

pub read-some :
    (dir : Dir) (name : Text) (file : File)
    → lookup dir name ≡ some file
    → read dir name ≡ some file.bytes
read-some dir name file e = rw (e, read)

pub read-file :
    (dir : Dir) (name bytes : Text)
    → read dir name ≡ some bytes
    → (file : File) × (lookup dir name ≡ some file) × (file.bytes ≡ bytes)
read-file dir name bytes e = elim (Option-cases (lookup dir name)) [
  | inl h ↦ let nothing : none ≡ some bytes = sym (rw (h, read)) ∙ e in cc
  | inr (file, h) ↦
      let whole : some file.bytes ≡ some bytes = sym (rw (h, read)) ∙ e in (file, h, cc whole)
]

pub if_same :
    (name : Text) (file : File) (rest : Option File)
    → (if name == name then some file else rest) ≡ some file
if_same name file rest = rw (==_refl name)

pub if_other :
    {b : Bool}
    → b ≡ false
    → (file : File) (rest : Option File) → (if b then some file else rest) ≡ rest
if_other e file rest = rw e

pub if_absent : {b : Bool} → b ≡ false → (rest : Option File) → (if b then none else rest) ≡ rest
if_absent e rest = rw e

pub is_accepted-ok : (r : IoResult PushDecision) → is_accepted r ≡ true → r ≡ ok accepted
is_accepted-ok r e = ground arith

module _ (config : RegistryConfig) (now : ℕ) (target_sha : Text) (base_sha : Option Text)
    (retention : ℕ) (sig : Text) where
  abbrev pub job_at : ℕ → SpoolJob
  job_at seq = record {
    seq = seq;
    sha = target_sha;
    retention = retention;
    path = job_filename seq target_sha retention;
  }

  abbrev pub spooled_at : ℕ → Dir → File → Dir
  spooled_at seq spool file =
      queued config now target_sha base_sha retention (some sig) seq spool file

  pub leftover_jobs-spooled_at :
      (seq : ℕ) (spool : Dir) (file : File)
      → leftover_jobs spool ≡ []
      → seq < 2 ^ 64
      → retention < 2 ^ 64
      → leftover_jobs (spooled_at seq spool file) ≡ job_at seq ∷ []
  unfolding leftover_jobs sort insert_sorted
  leftover_jobs-spooled_at seq spool file idle small kept =
      let without =
        erase (signed config now target_sha base_sha retention (some sig) seq spool)
          (upload_name target_sha) in
      let same = Kept-trans (signed-Kept now seq target_sha retention (some sig) spool) (
        Kept-erase (signed config now target_sha base_sha retention (some sig) seq spool)
          (upload_name target_sha) (upload_name-plain target_sha plain_file)) in
      let empty : count_jobs without ≡ 0 =
        omega (arith, same.fewer, length-leftover_jobs spool, ap length idle) in
      ap (sort earlier) (
        only_job (job_filename seq target_sha retention) file (job_at seq)
          (job_of-job_filename seq retention target_sha small kept file) without empty)

  pub read-job :
      (seq : ℕ) (spool : Dir) (file : File)
      → read (spooled_at seq spool file) (job_filename seq target_sha retention) ≡ some file.bytes
  read-job seq spool file =
      let without =
        erase (signed config now target_sha base_sha retention (some sig) seq spool)
          (upload_name target_sha) in
      let own =
        lookup-put without (job_filename seq target_sha retention)
          (job_filename seq target_sha retention) file in
      read-some (spooled_at seq spool file) (job_filename seq target_sha retention) file (
        own
        ∙ if_same (job_filename seq target_sha retention) file
            (lookup without (job_filename seq target_sha retention)))

  pub read-signature :
      (seq : ℕ) (spool : Dir) (file : File)
      → read (spooled_at seq spool file) (job_signature seq target_sha retention) ≡ some sig
  unfolding job_signature job_filename commit_spool
  read-signature seq spool file =
      let name = job_signature seq target_sha retention in
      let written_sig : File = record { bytes = sig; modified = now } in
      let before = put spool name written_sig in
      let g = last_of-append 0 b'.' (job_stem seq target_sha retention) (codes "sig") in
      let t = last_of-append 0 b'.' (job_stem seq target_sha retention) (codes "tar.zst") in
      let p = last_of-append 0 b'.' target_sha (codes "tmp") in
      let not_job : (name == job_filename seq target_sha retention) ≡ false =
        last_apart name (job_filename seq target_sha retention) b'g' b't' g t (λ e. omega arith) in
      let not_upload : (name == upload_name target_sha) ≡ false =
        last_apart name (upload_name target_sha) b'g' b'p' g p (λ e. omega arith) in
      read-some (spooled_at seq spool file) name written_sig (
        lookup-put (erase before (upload_name target_sha)) (job_filename seq target_sha retention)
          name file
        ∙ if_other not_job file (lookup (erase before (upload_name target_sha)) name)
        ∙ lookup-erase before (upload_name target_sha) name
        ∙ if_absent not_upload (lookup before name)
        ∙ lookup-put spool name name written_sig
        ∙ if_same name written_sig (lookup spool name))

  pub push_complete-queued :
      (repo_id : Text) (repo : Repo) (file : File)
      → lookup repo.spool (upload_name target_sha) ≡ some file
      → is_accepted
          (push_complete config now repo_id target_sha base_sha retention (some sig) repo).0
        ≡ true
      → (is_safe_path_component repo_id ≡ true)
        × (is_safe_path_component target_sha ≡ true)
        × ((after : RepoState) × ((push_complete config now repo_id target_sha base_sha retention
                (some sig)
                repo).1
              ≡ record repo {
                state = some after;
                spool = spooled_at (repo_state now repo).head.next_seq repo.spool file;
              }))
  unfolding push_complete
  push_complete-queued repo_id repo file there e =
      let (reserved, repo1) = take_upload_reservation target_sha repo in
      let (store_same, spool_same, jobs_same, seq_same) = reservation-SameBut now target_sha repo in
      let (safe, fine, holds) =
        finish_upload-checked config now target_sha base_sha retention (some sig) repo_id reserved
          repo1 e in
      let whole =
        finish_upload-enqueue config now target_sha base_sha retention (some sig) repo_id reserved
          repo1 e in
      let enqueued : (enqueue config now target_sha base_sha retention (some sig)
            (checked_state config now target_sha base_sha retention (some sig) reserved repo1)
            repo1).0
          ≡ ok accepted =
        is_accepted-ok _ (ap (λ r. is_accepted r.0) (sym whole) ∙ e) in
      let (after, done) =
        enqueue-accepted config now target_sha base_sha retention (some sig)
          (checked_state config now target_sha base_sha retention (some sig) reserved repo1) repo1
          file (ap (λ d. lookup d (upload_name target_sha)) spool_same ∙ there) enqueued in
      let seq_path =
        ap (λ (h : RepoHead). h.next_seq)
          (checked_state-seq config now target_sha base_sha retention (some sig) reserved repo1)
        ∙ seq_same in
      let framed : record repo1 {
        state = some after;
        spool =
            spooled_at
              (checked_state config now target_sha base_sha retention (some sig) reserved
                repo1).head.next_seq
              repo1.spool file;
      }
          ≡ record repo {
            state = some after;
            spool = spooled_at (repo_state now repo).head.next_seq repo.spool file;
          } =
        λ i. record {
          store = store_same i;
          spool = spooled_at (seq_path i) (spool_same i) file;
          state = some after;
          jobs = jobs_same i;
        } in
      (safe, fine, (after, rw e (ap (λ r. r.1) (whole ∙ done) ∙ framed)))
