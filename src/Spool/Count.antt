-- ===== src/Spool/Count.antt =====
-- The jobs among the files of a spool directory, and how writing and removing files changes them.
use weave_graph.Common.{
  ℕ, suc, ◌≤◌, Text, codes, [], ◌∷◌, ◌++◌, length, filter_map, Bool-cases, none, some, Option-cases,
  ◌≡◌, ◌⊎◌, inl, inr, refl, sym, ap, ◌∙◌, arith, ◌==◌, ==_iff, nat_eq, list_eq, put, erase, lookup,
  without_suffix,
}
use weave_graph.Disk.{File, Dir}
use weave_graph.Spool.{SpoolJob, job_of}

-- How many files of the directory are jobs.
abbrev pub count_jobs : Dir → ℕ
count_jobs dir = length (filter_map job_of dir)

abbrev pub last_of : ℕ → Text → ℕ
last_of c [] = c
last_of c (x ∷ xs) = last_of x xs

pub last_of-append : (c x : ℕ) (a s : Text) → last_of c (a ++ x ∷ s) ≡ last_of x s
last_of-append c x [] s = refl
last_of-append c x (y ∷ a) s = last_of-append y x a s

some_eq : {A : Type 0} {a b : A} → some a ≡ some b → a ≡ b
some_eq e = cc e

without_suffix-some : (text s a : Text) → without_suffix text s ≡ some a → text ≡ a ++ s
without_suffix-some [] s a h = ground (arith, ==_iff {K = Text} [] s)
without_suffix-some (x ∷ text) s a h = elim (Bool-cases (x ∷ text == s)) [
  | inl e ↦
      let whole : some [] ≡ some a = rw e at h in
      (==_iff (x ∷ text) s).0 e ∙ ap (λ t. t ++ s) (some_eq whole)
  | inr e ↦ elim (Option-cases (without_suffix text s)) [
    | inl n ↦ let nothing : none ≡ some a = rw (n, without_suffix) at (rw e at h) in cc
    | inr (stem, n) ↦
        let longer : some (x ∷ stem) ≡ some a = rw (n, without_suffix) at (rw e at h) in
        ap (λ t. x ∷ t) (without_suffix-some text s stem n) ∙ ap (λ t. t ++ s) (some_eq longer)
  ]
]

-- The file of a job ends in `t`; uploads and signatures do not.
pub job_of-none :
    (name : Text) (file : File) (c : ℕ)
    → last_of 0 name ≡ c
    → (¬ c ≡ b't')
    → job_of (name, file) ≡ none
unfolding job_of
job_of-none name file c e other = elim (Option-cases (without_suffix name (codes ".tar.zst"))) [
  | inl h ↦ rw h refl
  | inr (stem, h) ↦ absurd (
      other (
        sym e
        ∙ ap (last_of 0) (without_suffix-some name (codes ".tar.zst") stem h)
        ∙ last_of-append 0 b'.' stem (codes "tar.zst")))
]

-- Whether a file is a job depends on its name alone.
pub job_of-name : (name : Text) (a b : File) → job_of (name, a) ≡ job_of (name, b)
unfolding job_of
job_of-name name a b = refl

pub count_jobs-cons :
    (entry : Text × File) (dir : Dir)
    → (job_of entry ≡ none) × (count_jobs (entry ∷ dir) ≡ count_jobs dir)
      ⊎ (job : SpoolJob) × (job_of entry ≡ some job)
        × (count_jobs (entry ∷ dir) ≡ suc (count_jobs dir))
count_jobs-cons entry dir = elim (Option-cases (job_of entry)) [
  | inl e ↦ inl (e, rw (e, filter_map))
  | inr (job, e) ↦ inr (job, e, rw (e, filter_map))
]

same_entry :
    (entry other : Text × File) (dir : Dir)
    → job_of entry ≡ job_of other
    → count_jobs (entry ∷ dir) ≡ count_jobs (other ∷ dir)
same_entry entry other dir e = rw (e, filter_map)

renamed_entry :
    (name : Text) (file : File) (entry : Text × File)
    → name ≡ entry.0
    → job_of (name, file) ≡ job_of entry
unfolding job_of
renamed_entry name file entry e = rw e

pub count_jobs-put :
    (dir : Dir) (name : Text) (file : File)
    → (count_jobs (put dir name file) ≤ suc (count_jobs dir))
      × (job_of (name, file) ≡ none → count_jobs (put dir name file) ≤ count_jobs dir)
count_jobs-put [] name file = ground (arith, count_jobs-cons (name, file) [])
count_jobs-put (entry ∷ dir) name file = elim (Bool-cases (name == entry.0)) [
  | inl e ↦ rw e (
      omega (
        arith,
        same_entry (name, file) entry dir
            (renamed_entry name file entry ((==_iff name entry.0).0 e)),
      ))
  | inr e ↦ rw e (
      ground (
        arith,
        count_jobs-put dir name file,
        count_jobs-cons entry dir,
        count_jobs-cons entry (put dir name file),
      ))
]

pub count_jobs-erase : (dir : Dir) (name : Text) → count_jobs (erase dir name) ≤ count_jobs dir
count_jobs-erase [] name = omega arith
count_jobs-erase (entry ∷ dir) name = elim (Bool-cases (name == entry.0)) [
  | inl e ↦ rw e (ground (arith, count_jobs-erase dir name, count_jobs-cons entry dir))
  | inr e ↦ rw e (
      ground (
        arith,
        count_jobs-erase dir name,
        count_jobs-cons entry dir,
        count_jobs-cons entry (erase dir name),
      ))
]

-- A job's file that is removed is one job less.
pub count_jobs-erase_job :
    (dir : Dir) (name : Text) (file : File) (job : SpoolJob)
    → lookup dir name ≡ some file
    → job_of (name, file) ≡ some job
    → suc (count_jobs (erase dir name)) ≤ count_jobs dir
count_jobs-erase_job [] name file job e h = cc
count_jobs-erase_job (entry ∷ dir) name file job e h = elim (Bool-cases (name == entry.0)) [
  | inl q ↦ rw q (
      ground (
        arith,
        count_jobs-erase dir name,
        count_jobs-cons entry dir,
        renamed_entry name file entry,
        ==_iff name entry.0,
      ))
  | inr q ↦
      let below : lookup dir name ≡ some file = ground arith in
      rw q (
        ground (
          arith,
          count_jobs-erase_job dir name file job below h,
          count_jobs-cons entry dir,
          count_jobs-cons entry (erase dir name),
        ))
]
