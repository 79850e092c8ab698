-- ===== src/Worker/Queue.antt =====
-- The number of pending pushes against the files of the spool, in every state that is reached.
use weave_graph.Common.{
  nat_eq, list_eq, ℕ, ◌≤◌, Text, codes, List, [], ◌∷◌, map, Option, none, some, Option-cases, ◌≡◌,
  inl, inr, subst, arith, put, erase, erase_all, KeysDistinct, put-KeysDistinct, erase-KeysDistinct,
}
use weave_graph.Disk.{File, Dir}
use weave_graph.Spool.{SpoolJob, job_of, job_stem, job_signature}
use weave_graph.Spool.Count.{
  count_jobs, count_jobs-put, count_jobs-erase, last_of-append, job_of-none,
}
use weave_graph.Spool.Leftover.{
  Spooled, Owned, length-leftover_jobs, Spooled-put, Spooled-erase, Spooled-name,
}
use weave_graph.Registry.{RegistryConfig, RepoState, Repo, upload_name, recover, repo_state}

-- The spool files that are jobs are counted in `pending`, which keeps to the bound.
abbrev pub Counted : ℕ → Dir → Option RepoState → Type 0
Counted bound spool none = count_jobs spool ≤ bound
Counted bound spool (some state) =
    (count_jobs spool ≤ state.head.pending) × (state.head.pending ≤ bound)

-- The directory of a repository and the jobs that its worker has read.
pub record IsQueued (config : RegistryConfig) (repo : Repo) : Type 0 where
  pub distinct : KeysDistinct repo.spool
  pub counted : Counted config.max_queue_depth_per_repo repo.spool repo.state
  pub owned : Owned repo.spool repo.jobs
  pub asleep : repo.state ≡ none → repo.jobs ≡ []

abbrev pub plain_file : File
plain_file = record { bytes = []; modified = 0 }

pub upload_name-plain : (sha : Text) (file : File) → job_of (upload_name sha, file) ≡ none
upload_name-plain sha file =
    job_of-none (upload_name sha) file b'p' (last_of-append 0 b'.' sha (codes "tmp"))
      (λ e. omega arith)

pub job_signature-plain :
    (seq retention : ℕ) (sha : Text) (file : File)
    → job_of (job_signature seq sha retention, file) ≡ none
unfolding job_signature
job_signature-plain seq retention sha file =
    job_of-none (job_signature seq sha retention) file b'g'
      (last_of-append 0 b'.' (job_stem seq sha retention) (codes "sig")) (λ e. omega arith)

-- What removing a file that is no job, or writing any file, keeps.
pub record Kept (before after : Dir) : Type 0 where
  pub keys_kept : KeysDistinct before → KeysDistinct after
  pub fewer : count_jobs after ≤ count_jobs before
  pub spooled : (job : SpoolJob) → Spooled before job → Spooled after job

pub Kept-refl : (dir : Dir) → Kept dir dir
Kept-refl dir = record { keys_kept = λ d. d; fewer = omega arith; spooled = λ job s. s }

pub Kept-trans : {a b c : Dir} → Kept a b → Kept b c → Kept a c
Kept-trans h k = record {
  keys_kept = λ d. k.keys_kept (h.keys_kept d);
  fewer = omega (arith, h.fewer, k.fewer);
  spooled = λ job s. k.spooled job (h.spooled job s);
}

pub Kept-erase :
    (dir : Dir) (name : Text) → job_of (name, plain_file) ≡ none → Kept dir (erase dir name)
Kept-erase dir name plain = record {
  keys_kept = erase-KeysDistinct dir name;
  fewer = count_jobs-erase dir name;
  spooled = λ job s. Spooled-erase dir name job (Spooled-name dir name job plain_file plain s) s;
}

pub Kept-put :
    (dir : Dir) (name : Text) (file : File)
    → job_of (name, file) ≡ none
    → Kept dir (put dir name file)
Kept-put dir name file plain = record {
  keys_kept = put-KeysDistinct dir name file;
  fewer = (count_jobs-put dir name file).1 plain;
  spooled = λ job s. Spooled-put dir name file job s;
}

pub Kept-erase_uploads :
    (dir : Dir) (shas : List Text) → Kept dir (erase_all dir (map upload_name shas))
Kept-erase_uploads dir [] = Kept-refl dir
Kept-erase_uploads dir (sha ∷ shas) =
    Kept-trans (Kept-erase dir (upload_name sha) (upload_name-plain sha plain_file))
      (Kept-erase_uploads (erase dir (upload_name sha)) shas)

pub Owned-Kept :
    {before after : Dir} (jobs : List SpoolJob)
    → Kept before after
    → Owned before jobs
    → Owned after jobs
Owned-Kept jobs k o = (λ job m. k.spooled job (o.0 job m), o.1)

pub repo_state-Counted :
    (bound now : ℕ) (repo : Repo)
    → Counted bound repo.spool repo.state
    → Counted bound repo.spool (some (repo_state now repo))
unfolding repo_state recover
repo_state-Counted bound now repo c = elim (Option-cases repo.state) [
  | inl e ↦
      let c' : count_jobs repo.spool ≤ bound = subst (Counted bound repo.spool) e c in
      rw (e, repo_state) (omega (arith, length-leftover_jobs repo.spool))
  | inr (state, e) ↦ rw (e, repo_state) (subst (Counted bound repo.spool) e c)
]
