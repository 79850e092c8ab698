-- ===== src/Worker/Commit.antt =====
-- What a committed job leaves in the store, and what `pull` then reads.
use weave_graph.Common.{
  ℕ, suc, ◌≤◌, ◌<◌, Text, codes, ◌++◌, filter, length, true, false, some, ◌≡◌, refl, ap, ◌∙◌, arith,
  nat_eq, list_eq, lookup, trim-eq, sort, length-sort, ltb,
}
use weave_graph.Disk.{File, Dir, read, replace_file}
use weave_graph.Spool.{SpoolJob, is_safe_path_component}
use weave_graph.Spool.Count.{last_of, last_of-append}
use weave_graph.Registry.{Repo, found, snapshot_name, signature_name, read_persisted_head}
use weave_graph.Push.{pull}
use weave_graph.Worker.{is_blob, older, prune_retention, commit_job, signature_of}
use weave_graph.Worker.Blobs.{
  count_blobs, not_blob, safe_plain, safe_full, replace-other, replace_self, replace-count,
}

module _ (now : ℕ) (store : Dir) (sha bytes sig : Text) where
  -- The store once the job's files are written, one after the other.
  abbrev pub with_blob : Dir
  with_blob = replace_file now store (snapshot_name sha ++ codes ".tmp") (snapshot_name sha) bytes

  abbrev pub with_sig : Dir
  with_sig =
      replace_file now with_blob (signature_name sha ++ codes ".tmp") (signature_name sha) sig

  abbrev pub written : Dir
  written = replace_file now with_sig (codes "HEAD.tmp") (codes "HEAD") sha

  snapshot-last : last_of 0 (snapshot_name sha) ≡ b't'
  snapshot-last = last_of-append 0 b'.' sha (codes "tar.zst")

  signature-last : last_of 0 (signature_name sha) ≡ b'g'
  signature-last = last_of-append 0 b'.' sha (codes "sig")

  snapshot-tmp : last_of 0 (snapshot_name sha ++ codes ".tmp") ≡ b'p'
  snapshot-tmp = last_of-append 0 b'.' (snapshot_name sha) (codes "tmp")

  signature-tmp : last_of 0 (signature_name sha ++ codes ".tmp") ≡ b'p'
  signature-tmp = last_of-append 0 b'.' (signature_name sha) (codes "tmp")

  count_blobs-written : count_blobs written ≤ suc (count_blobs store)
  count_blobs-written =
      let blob =
        (replace-count now store (snapshot_name sha ++ codes ".tmp") (snapshot_name sha) bytes
          snapshot-tmp).0 in
      let signed =
        (replace-count now with_blob (signature_name sha ++ codes ".tmp") (signature_name sha) sig
            signature-tmp).1
          (not_blob (signature_name sha) b'g' signature-last (λ e. omega arith)) in
      let head = (replace-count now with_sig (codes "HEAD.tmp") (codes "HEAD") sha refl).1 refl in
      omega (arith, blob, signed, head)

  head-written : lookup written (codes "HEAD") ≡ some (record { bytes = sha; modified = now })
  head-written =
      replace_self now with_sig (codes "HEAD.tmp") (codes "HEAD") sha refl b'D' refl
        (λ e. omega arith)

  snapshot-written :
      lookup written (snapshot_name sha) ≡ some (record { bytes = bytes; modified = now })
  snapshot-written =
      replace-other now with_sig (codes "HEAD.tmp") (codes "HEAD") sha refl (snapshot_name sha) b't'
        b'D' refl snapshot-last (λ e. omega arith) (λ e. omega arith)
      ∙ replace-other now with_blob (signature_name sha ++ codes ".tmp") (signature_name sha) sig
          signature-tmp (snapshot_name sha) b't' b'g' signature-last snapshot-last
          (λ e. omega arith) (λ e. omega arith)
      ∙ replace_self now store (snapshot_name sha ++ codes ".tmp") (snapshot_name sha) bytes
          snapshot-tmp b't' snapshot-last (λ e. omega arith)

  signature-written :
      lookup written (signature_name sha) ≡ some (record { bytes = sig; modified = now })
  signature-written =
      replace-other now with_sig (codes "HEAD.tmp") (codes "HEAD") sha refl (signature_name sha)
        b'g' b'D' refl signature-last (λ e. omega arith) (λ e. omega arith)
      ∙ replace_self now with_blob (signature_name sha ++ codes ".tmp") (signature_name sha) sig
          signature-tmp b'g' signature-last (λ e. omega arith)

prune_retention-few :
    (store : Dir) (retention : ℕ)
    → count_blobs store ≤ retention
    → prune_retention store retention ≡ store
unfolding prune_retention
prune_retention-few store retention h =
    let few : ltb retention (length (sort older (filter (λ entry. is_blob entry.0) store)))
        ≡ false =
      ground (arith, length-sort older (filter (λ entry. is_blob entry.0) store)) in
    rw few

-- A job whose snapshot and signature are in the spool, in a store with room for one more snapshot.
pub commit_job-written :
    (now : ℕ) (store spool : Dir) (job : SpoolJob) (bytes sig : Text)
    → read spool job.path ≡ some bytes
    → read spool (signature_of job) ≡ some sig
    → count_blobs store < job.retention
    → commit_job now store spool job ≡ (true, written now store job.sha bytes sig)
unfolding commit_job
commit_job-written now store spool job bytes sig there signed room =
    let few =
      prune_retention-few (written now store job.sha bytes sig) job.retention
        (omega (arith, count_blobs-written now store job.sha bytes sig)) in
    rw (there, signed, commit_job) (ap (λ s. (true, s)) few)

read-some :
    (dir : Dir) (name : Text) (file : File)
    → lookup dir name ≡ some file
    → read dir name ≡ some file.bytes
read-some dir name file e = rw (e, read)

pull-stored :
    (repo_id sha bytes sig : Text) (repo : Repo)
    → is_safe_path_component repo_id ≡ true
    → read_persisted_head repo.store ≡ some sha
    → read repo.store (snapshot_name sha) ≡ some bytes
    → read repo.store (signature_name sha) ≡ some sig
    → pull repo_id (codes "latest") repo ≡ found bytes (some sig)
unfolding pull
pull-stored repo_id sha bytes sig repo safe head blob signed = rw (safe, head, blob, signed, pull)

read_persisted_head-some :
    (store : Dir) (sha : Text)
    → is_safe_path_component sha ≡ true
    → read store (codes "HEAD") ≡ some sha
    → read_persisted_head store ≡ some sha
unfolding read_persisted_head
read_persisted_head-some store sha fine e =
    rw (e, trim-eq sha (safe_plain sha fine), safe_full sha fine, read_persisted_head)

pub pull-written :
    (now : ℕ) (store : Dir) (repo_id sha bytes sig : Text) (repo : Repo)
    → is_safe_path_component repo_id ≡ true
    → is_safe_path_component sha ≡ true
    → repo.store ≡ written now store sha bytes sig
    → pull repo_id (codes "latest") repo ≡ found bytes (some sig)
pull-written now store repo_id sha bytes sig repo safe fine e =
    let after = written now store sha bytes sig in
    pull-stored repo_id sha bytes sig repo safe
      (ap read_persisted_head e
        ∙ read_persisted_head-some after sha fine (
            read-some after (codes "HEAD") (record { bytes = sha; modified = now })
              (head-written now store sha bytes sig)))
      (ap (λ d. read d (snapshot_name sha)) e
        ∙ read-some after (snapshot_name sha) (record { bytes = bytes; modified = now })
            (snapshot-written now store sha bytes sig))
      (ap (λ d. read d (signature_name sha)) e
        ∙ read-some after (signature_name sha) (record { bytes = sig; modified = now })
            (signature-written now store sha bytes sig))
