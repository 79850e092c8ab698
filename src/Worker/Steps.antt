-- ===== src/Worker/Steps.antt =====
-- The requests and the turns of the worker as steps of one repository, in any order.
use weave_graph.Common.{ℕ, Text, [], Option, none}
use weave_graph.Registry.{RegistryConfig, Repo, begin_upload, abandon_upload}
use weave_graph.Push.{spool_chunk, push_complete, pending_jobs}
use weave_graph.Worker.{worker_turn, retire}

-- What a crash leaves: the directories.
abbrev pub crash : Repo → Repo
crash repo = record repo { state = none; jobs = [] }

pub data Step (config : RegistryConfig) : Repo → Repo → Type 0 where
  begin :
      (repo : Repo) (now : ℕ) (repo_id target_sha : Text) (base_sha : Option Text)
      → Step config repo (begin_upload config now repo_id target_sha base_sha repo).1
  chunk :
      (repo : Repo) (now : ℕ) (repo_id target_sha : Text) (start_offset : ℕ) (bytes : Text)
      → Step config repo (spool_chunk config now repo_id target_sha start_offset bytes repo).1
  complete :
      (repo : Repo) (now : ℕ) (repo_id target_sha : Text) (base_sha : Option Text) (retention : ℕ)
      (signature : Option Text)
      → Step config repo
          (push_complete config now repo_id target_sha base_sha retention signature repo).1
  abandon :
      (repo : Repo) (repo_id target_sha : Text)
      → Step config repo (abandon_upload repo_id target_sha repo)
  count : (repo : Repo) (now : ℕ) → Step config repo (pending_jobs now repo).1
  turn : (repo : Repo) (now : ℕ) → Step config repo (worker_turn now repo)
  idle : (repo : Repo) → Step config repo (retire repo)
  restart : (repo : Repo) → Step config repo (crash repo)

pub data Reach (config : RegistryConfig) (start : Repo) : Repo → Type 0 where
  here : Reach config start start
  next :
      {repo after : Repo}
      → Reach config start repo
      → Step config repo after
      → Reach config start after
