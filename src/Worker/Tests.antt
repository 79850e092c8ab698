-- ===== src/Worker/Tests.antt =====
-- A repository that takes two pushes, commits them and restarts, and the theorems there.
use weave_graph.Common.{
  suc, ◌≤◌, ◌<◌, Text, codes, [], ◌∷◌, In, length, none, some, ◌≡◌, refl, ap, arith, nat_eq,
  list_eq,
}
use weave_graph.Disk.{read}
use weave_graph.Spool.{SpoolJob, is_safe_path_component, leftover_jobs, parse_job_filename}
use weave_graph.Registry.{
  repo_state, take_upload_reservation, is_conflict, RegistryConfig, Repo, RepoState, ok, err,
  accepted, conflict, rate_limited, not_found, found, nothing_found, recover, begin_upload,
  read_persisted_head,
}
use weave_graph.Push.{
  spool_chunk, signature_holds, push, push_complete, pull, pending_jobs, finish_upload, enqueue,
  advance, commit_spool,
}
use weave_graph.Worker.{worker_turn}
use weave_graph.Worker.Steps.{begin, turn, crash, here, next}
use weave_graph.Worker.Reached.{opened, pending_lem}
use weave_graph.Worker.Restart.{begin_upload-crash}
use weave_graph.Worker.Missing.{push_complete-missing}
use weave_graph.Worker.Published.{pull-push_complete}

abbrev config : RegistryConfig
config = record {
  max_queue_depth_per_repo = 2;
  max_pushes_per_minute_per_repo = 10;
  max_snapshot_bytes = 100;
  provenance_verifier = none;
}

abbrev fresh : Repo
fresh = opened [] []

abbrev r1 : Repo
r1 = (push config 5 (codes "r") (codes "aa") none 3 (some (codes "s1")) (1 ∷ 2 ∷ []) fresh).1

abbrev r2 : Repo
r2 = (push config 6 (codes "r") (codes "bb") (some (codes "aa")) 3 none (3 ∷ []) r1).1

abbrev done : Repo
done = worker_turn 9 (worker_turn 8 (worker_turn 7 r2))

life :
    ((push config 7 (codes "r") (codes "cc") (some (codes "aa")) 3 none [] r2).0
      ≡ ok (rate_limited 5))
    × ((push config 7 (codes "r") (codes "cc") (some (codes "aa")) 3 none [] done).0 ≡ ok conflict)
    × (pull (codes "r") (codes "latest") r2 ≡ nothing_found)
    × ((pending_jobs 8 r2).0 ≡ 2)
    × ((pending_jobs 8 done).0 ≡ 0)
    × (pull (codes "r") (codes "latest") done ≡ found (3 ∷ []) none)
    × (pull (codes "r") (codes "aa") done ≡ found (1 ∷ 2 ∷ []) (some (codes "s1")))
unfolding push push_complete pull pending_jobs worker_turn begin_upload is_safe_path_component
    recover spool_chunk finish_upload signature_holds take_upload_reservation enqueue advance
    commit_spool parse_job_filename
life = (refl, refl, refl, refl, refl, refl, refl)

-- An upload that lies in the spool, with its reservation.
abbrev uploaded : Repo
uploaded = record {
  store = [];
  spool = (codes "aa.tmp", record { bytes = 1 ∷ 2 ∷ []; modified = 3 }) ∷ [];
  state = some (record {
    head = record { sha = none; next_seq = 0; pending = 0; uploads = (codes "aa", 3) ∷ [] };
    rate = record { window_start = 3; count = 1 };
  });
  jobs = [];
}

pull-push_complete_example :
    pull (codes "r") (codes "latest") (
      worker_turn 7 (
        worker_turn 6
          (push_complete config 5 (codes "r") (codes "aa") none 3 (some (codes "s1")) uploaded).1))
    ≡ found (1 ∷ 2 ∷ []) (some (codes "s1"))
unfolding push_complete leftover_jobs repo_state finish_upload is_safe_path_component
    signature_holds take_upload_reservation enqueue advance commit_spool
pull-push_complete_example =
    pull-push_complete config 5 (codes "aa") none 3 (codes "s1") (codes "r") uploaded (1 ∷ 2 ∷ []) 6
      7 refl refl refl (omega arith) (omega arith) (omega arith) refl

-- The same reservation, its file gone.
abbrev reserved_state : RepoState
reserved_state = record {
  head = record { sha = none; next_seq = 0; pending = 0; uploads = (codes "aa", 3) ∷ [] };
  rate = record { window_start = 3; count = 1 };
}

abbrev robbed : Repo
robbed = record { store = []; spool = []; state = some reserved_state; jobs = [] }

push_complete-missing_example :
    ((push_complete config 5 (codes "r") (codes "aa") none 3 none robbed).0 ≡ err not_found)
    × ((after : RepoState) × ((push_complete config 5
            (codes "r")
            (codes "aa")
            none
            3
            none
            robbed).1.state
          ≡ some after)
        × (after.head.sha ≡ some (codes "aa"))
        × (after.head.pending ≡ suc 0))
    × (length (
          leftover_jobs
            (push_complete config 5 (codes "r") (codes "aa") none 3 none robbed).1.spool)
        ≤ length (leftover_jobs robbed.spool))
    × ((push_complete config 5 (codes "r") (codes "aa") none 3 none robbed).1.store ≡ robbed.store)
    × ((push_complete config 5 (codes "r") (codes "aa") none 3 none robbed).1.jobs ≡ robbed.jobs)
unfolding is_safe_path_component is_conflict
push_complete-missing_example =
    push_complete-missing config 5 (codes "r") (codes "aa") none 3 none robbed reserved_state 3 refl
      refl refl refl refl (omega arith) refl refl

-- The store knows `old`, and the spool holds the job of `new`.
abbrev behind : Repo
behind = record {
  store = (codes "HEAD", record { bytes = codes "old"; modified = 1 }) ∷ [];
  spool =
      (codes "00000000000000000004_newer_3.tar.zst", record { bytes = 5 ∷ []; modified = 2 }) ∷ [];
  state = none;
  jobs = [];
}

begin_upload-crash_example :
    ((begin_upload config 9 (codes "r") (codes "cc") (some (codes "newer")) (crash behind)).0
      ≡ ok conflict)
    × ((begin_upload config 9 (codes "r") (codes "cc") (some (codes "old")) (crash behind)).0
        ≡ ok accepted)
unfolding read_persisted_head leftover_jobs is_safe_path_component parse_job_filename
begin_upload-crash_example =
    begin_upload-crash config 9 (codes "r") (codes "cc") (codes "newer") (codes "old") behind refl
      refl refl (λ e. omega (arith, ap length e)) (omega arith) (omega arith)

-- An upload begun, and a turn of the worker.
abbrev reached : Repo
reached = worker_turn 6 (begin_upload config 5 (codes "r") (codes "aa") none fresh).1

abbrev reached_state : RepoState
reached_state = record {
  head = record { sha = none; next_seq = 0; pending = 0; uploads = (codes "aa", 5) ∷ [] };
  rate = record { window_start = 5; count = 1 };
}

pending_lem_example :
    (length (leftover_jobs reached.spool) ≤ reached_state.head.pending)
    × (reached_state.head.pending ≤ config.max_queue_depth_per_repo)
    × ((job : SpoolJob)
        → In job reached.jobs
        → (0 < reached_state.head.pending)
          × ((bytes : Text) × (read reached.spool job.path ≡ some bytes)))
unfolding worker_turn begin_upload leftover_jobs is_safe_path_component recover
pending_lem_example =
    pending_lem config [] [] reached reached_state tt (omega arith)
      (next (next here (begin fresh 5 (codes "r") (codes "aa") none)) (turn _ 6)) refl
