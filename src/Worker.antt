-- ===== src/Worker.antt =====
-- crates/weave-graph-hub/src/registry.rs: the worker of a repository, which commits the spooled jobs
-- to the store in the order of their numbers and prunes the store. A webhook is what it calls next.
pub mod Steps
pub mod Queue
pub mod Bounds
pub mod Complete
pub mod Reached
pub mod Restart
pub mod Missing
pub mod Blobs
pub mod Commit
pub mod Accepted
pub mod Queued
pub mod Published
mod Tests
use weave_graph.Common.{
  ℕ, ◌+◌, ◌-◌, Text, codes, List, [], ◌∷◌, ◌++◌, filter, map, take, length, is_empty, Bool, true,
  false, not, ◌&&◌, ◌||◌, Option, none, some, ◌>>=◌, ◌==◌, nat_eq, list_eq, leb, ltb, if◌then◌else◌,
  ends_with, rsplit_once, text_le, sort, trim,
}
use weave_graph.Disk.{File, Dir, read, write, remove_file, rename, replace_file}
use weave_graph.Spool.{SpoolJob, job_signature, leftover_jobs}
use weave_graph.Registry.{RepoHead, RepoState, Repo, snapshot_name, signature_name}

-- `Path::file_stem`: the name up to its last dot, unless that is its first byte.
abbrev pub file_stem : Text → Text
file_stem name = elim (rsplit_once b'.' name) [
  | none ↦ name
  | some (stem, ext) ↦ if is_empty stem then name else stem
]

-- `path.with_extension("").with_extension("sig")`.
abbrev pub sidecar : Text → Text
sidecar name = file_stem (file_stem name) ++ codes ".sig"

-- The extension is `zst`.
abbrev pub is_blob : Text → Bool
is_blob name = ends_with name (codes ".zst") && not (name == codes ".zst")

abbrev pub older : Text × File → Text × File → Bool
older a b =
    ltb (a.1).modified (b.1).modified || ((a.1).modified == (b.1).modified && text_le a.0 b.0)

abbrev pub remove_blobs : Dir → List (Text × File) → Dir
remove_blobs store [] = store
remove_blobs store (blob ∷ blobs) =
    remove_blobs (remove_file (remove_file store blob.0) (sidecar blob.0)) blobs

unfoldable pub prune_retention : Dir → ℕ → Dir
unfolding sort
prune_retention store retention =
    let blobs = sort older (filter (λ entry. is_blob entry.0) store) in
    if ltb retention (length blobs)
    then remove_blobs store (take (length blobs - retention) blobs)
    else store

abbrev pub signature_of : SpoolJob → Text
signature_of job = job_signature job.seq job.sha job.retention

unfoldable pub commit_job : ℕ → Dir → Dir → SpoolJob → Bool × Dir
unfolding prune_retention job_signature
commit_job now store spool job = elim (read spool job.path) [
  | none ↦ (false, store)
  | some bytes ↦
      let blob = snapshot_name job.sha in
      let with_blob = replace_file now store (blob ++ codes ".tmp") blob bytes in
      let sig = signature_name job.sha in
      let with_sig : Dir = elim (read spool (signature_of job)) [
        | none ↦ with_blob
        | some sig_bytes ↦ replace_file now with_blob (sig ++ codes ".tmp") sig sig_bytes
      ] in
      let with_head = replace_file now with_sig (codes "HEAD.tmp") (codes "HEAD") job.sha in
      (true, prune_retention with_head job.retention)
]

-- `head.pending -= 1`: that it is never 0 there is a theorem.
abbrev pub one_done : RepoState → RepoState
one_done state = record state { head = record state.head { pending = state.head.pending - 1 } }

-- The body of the `for` loop.
unfoldable pub work_off : ℕ → SpoolJob → Repo → Bool × Repo
unfolding commit_job job_signature
work_off now job repo =
    let (committed, store) = commit_job now repo.store repo.spool job in
    (
      committed,
      record repo {
        store = store;
        spool = remove_file (remove_file repo.spool job.path) (signature_of job);
        state = elim repo.state [ none ↦ none | some state ↦ some (one_done state) ];
      },
    )

-- One turn of the worker: the next of the jobs that it has read, or a new look at the directory.
-- With nothing to do it stays asleep until it is woken, and `retire` is its timeout.
unfoldable pub worker_turn : ℕ → Repo → Repo
unfolding work_off leftover_jobs
worker_turn now repo = elim repo.state [
  | none ↦ repo
  | some state ↦ elim repo.jobs [
    | [] ↦ record repo { jobs = leftover_jobs repo.spool }
    | job ∷ rest ↦ record (work_off now job repo).1 { jobs = rest }
  ]
]

unfoldable pub retire : Repo → Repo
unfolding leftover_jobs
retire repo = elim repo.jobs [
  | [] ↦ elim (leftover_jobs repo.spool) [ [] ↦ record repo { state = none } | job ∷ rest ↦ repo ]
  | job ∷ rest ↦ repo
]
