-- ===== src/Spool/Leftover.antt =====
-- The jobs that are read from a spool directory: their files are there, and no two share one.
use weave_graph.Common.{
  Text, List, [], ◌∷◌, In, In-filter_map, length, filter_map, false, Bool-cases, none, some,
  Option-cases, ◌≡◌, inl, inr, refl, sym, ap, ◌∙◌, subst, arith, ◌==◌, ==_iff, nat_eq, list_eq, put,
  erase, lookup, lookup-put, lookup-erase, lookup_of_In, keys, KeysDistinct, codes, without_suffix,
  map-In, sort, length-sort, In-sort, insert_sorted, In-insert_sorted,
}
use weave_graph.Disk.{File, Dir}
use weave_graph.Spool.{SpoolJob, job_of, leftover_jobs, earlier, parse_job_filename}
use weave_graph.Spool.Count.{count_jobs, job_of-name}

-- The file of the job is in the directory, and its name is the job's.
abbrev pub Spooled : Dir → SpoolJob → Type 0
Spooled dir job =
    (file : File) × (lookup dir job.path ≡ some file) × (job_of (job.path, file) ≡ some job)

abbrev pub Apart : SpoolJob → List SpoolJob → Type 0
Apart job jobs = (other : SpoolJob) → In other jobs → ¬ (other.path ≡ job.path)

abbrev pub Distinct : List SpoolJob → Type 0
Distinct [] = Unit
Distinct (job ∷ jobs) = Apart job jobs × Distinct jobs

-- The jobs are those of different files of the directory.
abbrev pub Owned : Dir → List SpoolJob → Type 0
Owned dir jobs = ((job : SpoolJob) → In job jobs → Spooled dir job) × Distinct jobs

job_of-path : (entry : Text × File) (job : SpoolJob) → job_of entry ≡ some job → job.path ≡ entry.0
unfolding job_of
job_of-path entry job e = elim (Option-cases (without_suffix entry.0 (codes ".tar.zst"))) [
  | inl h ↦ let nothing : none ≡ some job = sym (rw (h, job_of) refl) ∙ e in cc
  | inr (stem, h) ↦ elim (Option-cases (parse_job_filename stem)) [
    | inl q ↦ let nothing : none ≡ some job = sym (rw (h, q)) ∙ e in cc
    | inr (parts, q) ↦
        let whole : some
              (record { seq = parts.0; sha = parts.1; retention = parts.2; path = entry.0 })
            ≡ some job =
          sym (rw (h, q)) ∙ e in
        cc
  ]
]

insert_sorted-Distinct :
    (job : SpoolJob) (jobs : List SpoolJob)
    → Apart job jobs
    → Distinct jobs
    → Distinct (insert_sorted earlier job jobs)
unfolding insert_sorted
insert_sorted-Distinct job [] a d = (a, tt)
insert_sorted-Distinct job (first ∷ jobs) a d = elim (Bool-cases (earlier job first)) [
  | inl e ↦ rw e (a, d)
  | inr e ↦ rw e (
    λ other m. elim ((In-insert_sorted earlier other job jobs).0 m) [
      | inl same ↦ λ q. a first (inl refl) (sym (subst (λ x. x.path ≡ first.path) same q))
      | inr old ↦ d.0 other old
    ],
    insert_sorted-Distinct job jobs (λ other m. a other (inr m)) d.1,
  )
]

sort-Distinct : (jobs : List SpoolJob) → Distinct jobs → Distinct (sort earlier jobs)
unfolding sort
sort-Distinct [] d = tt
sort-Distinct (job ∷ jobs) d =
    insert_sorted-Distinct job (sort earlier jobs)
      (λ other m. d.0 other ((In-sort earlier other jobs).0 m)) (sort-Distinct jobs d.1)

found-Distinct : (dir : Dir) → KeysDistinct dir → Distinct (filter_map job_of dir)
found-Distinct [] d = tt
found-Distinct (entry ∷ dir) d = elim (Option-cases (job_of entry)) [
  | inl e ↦ rw (e, filter_map) (found-Distinct dir d.1)
  | inr (job, e) ↦
      rw (e, filter_map)
        (
          λ other m q.
              let (source, here, named) = In-filter_map job_of dir other m in
              d.0 (
                subst (λ k. In k (keys dir))
                  (sym (job_of-path source other named) ∙ q ∙ job_of-path entry job e)
                  (map-In (λ x. x.0) dir source here)),
          found-Distinct dir d.1,
        )
]

pub leftover_jobs-Owned : (dir : Dir) → KeysDistinct dir → Owned dir (leftover_jobs dir)
unfolding leftover_jobs
leftover_jobs-Owned dir d = (
  λ job m.
      let (entry, here, named) =
        In-filter_map job_of dir job ((In-sort earlier job (filter_map job_of dir)).0 m) in
      let (file, e) = lookup_of_In dir entry here in
      let path = job_of-path entry job named in
      (
        file,
        ap (lookup dir) path ∙ e,
        ap (λ name. job_of (name, file)) path ∙ job_of-name entry.0 file entry.1 ∙ named,
      ),
  sort-Distinct (filter_map job_of dir) (found-Distinct dir d),
)

pub length-leftover_jobs : (dir : Dir) → length (leftover_jobs dir) ≡ count_jobs dir
unfolding leftover_jobs
length-leftover_jobs dir = length-sort earlier (filter_map job_of dir)

pub Spooled-put :
    (dir : Dir) (name : Text) (file : File) (job : SpoolJob)
    → Spooled dir job
    → Spooled (put dir name file) job
Spooled-put dir name file job (old, e, named) = elim (Bool-cases (job.path == name)) [
  | inl q ↦ (file, lookup-put dir name job.path file ∙ rw q, job_of-name job.path file old ∙ named)
  | inr q ↦ (old, lookup-put dir name job.path file ∙ rw q e, named)
]

pub Spooled-erase :
    (dir : Dir) (name : Text) (job : SpoolJob)
    → (¬ (job.path ≡ name))
    → Spooled dir job
    → Spooled (erase dir name) job
Spooled-erase dir name job other (old, e, named) =
    let apart : (job.path == name) ≡ false = ground (arith, ==_iff job.path name) in
    (old, lookup-erase dir name job.path ∙ rw apart e, named)

-- The file of a job is not one whose name is no job's.
pub Spooled-name :
    (dir : Dir) (name : Text) (job : SpoolJob) (file : File)
    → job_of (name, file) ≡ none
    → Spooled dir job
    → ¬ (job.path ≡ name)
Spooled-name dir name job file plain (old, e, named) same =
    let clash : some job ≡ none =
      sym named ∙ ap (λ n. job_of (n, old)) same ∙ job_of-name name old file ∙ plain in
    cc
