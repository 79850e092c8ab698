-- ===== src/Spool/Jobs.antt =====
-- The file name of a job gives back its fields, and no other file of the spool is taken for a job.
use weave_graph.Common.{
  ℕ, ◌<◌, ◌^◌, Text, codes, ◌∷◌, ◌++◌, some, ◌≡◌, padded, decimal, In-padded, In-decimal,
  parse_u64-padded, parse_u64-decimal, split_once-append, rsplit_once-append, without_suffix-append,
}
use weave_graph.Disk.{File}
use weave_graph.Spool.{job_stem, job_filename, parse_job_filename, job_of}

module _ (seq retention : ℕ) (sha : Text) (small : seq < 2 ^ 64) (kept : retention < 2 ^ 64) where
  -- The stem of a job's file name gives back its number, its commit and its retention, whatever the
  -- bytes of the commit: underscores in it do no harm.
  pub parse_job_filename-job_stem :
      parse_job_filename (job_stem seq sha retention) ≡ some (seq, sha, retention)
  unfolding parse_job_filename
  parse_job_filename-job_stem =
      let first =
        split_once-append b'_' (padded seq) (sha ++ b'_' ∷ decimal retention)
          (λ m. cc (In-padded seq b'_' m)) in
      let last =
        rsplit_once-append b'_' sha (decimal retention) (λ m. cc (In-decimal retention b'_' m)) in
      rw (first, last, parse_u64-padded seq small, parse_u64-decimal retention kept)

  pub job_of-job_filename :
      (file : File)
      → job_of (job_filename seq sha retention, file)
        ≡ some (record {
          seq = seq;
          sha = sha;
          retention = retention;
          path = job_filename seq sha retention;
        })
  unfolding job_of job_filename
  job_of-job_filename file = rw (
    without_suffix-append (job_stem seq sha retention) (codes ".tar.zst"),
    parse_job_filename-job_stem,
  )
