-- ===== src/Worker/Reached.antt =====
-- What holds of the queue in every state that requests and turns of the worker lead to.
use weave_graph.Common.{
  ◌≤◌, ◌<◌, Text, [], In, length, none, some, ◌≡◌, refl, subst, arith, nat_eq, list_eq,
  KeysDistinct,
}
use weave_graph.Disk.{Dir, read}
use weave_graph.Spool.{SpoolJob, leftover_jobs}
use weave_graph.Spool.Count.{count_jobs-erase_job}
use weave_graph.Spool.Leftover.{length-leftover_jobs}
use weave_graph.Registry.{RegistryConfig, RepoState, Repo}
use weave_graph.Worker.Steps.{
  Step, Reach, begin, chunk, complete, abandon, count, turn, idle, restart, here, next,
}
use weave_graph.Worker.Queue.{Counted, IsQueued}
use weave_graph.Worker.Bounds.{
  begin-IsQueued, chunk-IsQueued, abandon-IsQueued, count-IsQueued, restart-IsQueued, idle-IsQueued,
  turn-IsQueued,
}
use weave_graph.Worker.Complete.{complete-IsQueued}

-- A repository as `Registry::open` finds it.
abbrev pub opened : Dir → Dir → Repo
opened store spool = record { store = store; spool = spool; state = none; jobs = [] }

module _ (config : RegistryConfig) where
  Step-IsQueued :
      {repo after : Repo} → Step config repo after → IsQueued config repo → IsQueued config after
  Step-IsQueued (begin repo now id sha base) q = begin-IsQueued config now id sha base repo q
  Step-IsQueued (chunk repo now id sha start bytes) q =
      chunk-IsQueued config now id sha start bytes repo q
  Step-IsQueued (complete repo now id sha base retention signature) q =
      complete-IsQueued config now id sha base retention signature repo q
  Step-IsQueued (abandon repo id sha) q = abandon-IsQueued config id sha repo q
  Step-IsQueued (count repo now) q = count-IsQueued config now repo q
  Step-IsQueued (turn repo now) q = turn-IsQueued config now repo q
  Step-IsQueued (idle repo) q = idle-IsQueued config repo q
  Step-IsQueued (restart repo) q = restart-IsQueued config repo q

  Reach-IsQueued :
      {start repo : Repo} → IsQueued config start → Reach config start repo → IsQueued config repo
  Reach-IsQueued q here = q
  Reach-IsQueued q (next r s) = Step-IsQueued s (Reach-IsQueued q r)

  opened-IsQueued :
      (store spool : Dir)
      → KeysDistinct spool
      → length (leftover_jobs spool) ≤ config.max_queue_depth_per_repo
      → IsQueued config (opened store spool)
  opened-IsQueued store spool d h = record {
    distinct = d;
    counted = omega (arith, length-leftover_jobs spool);
    owned = (λ job m. absurd m, tt);
    asleep = λ e. refl;
  }

  -- In every state that requests, turns of the worker and restarts lead to from an opened
  -- repository within the bound: the jobs in the spool are at most `pending`, which is at most
  -- `max_queue_depth_per_repo`. For each job that the worker still has to do, `pending` is positive,
  -- so that its decrement does not wrap, and the job's file is there to be read.
  pub pending_lem :
      (store spool : Dir) (repo : Repo) (state : RepoState)
      → KeysDistinct spool
      → length (leftover_jobs spool) ≤ config.max_queue_depth_per_repo
      → Reach config (opened store spool) repo
      → repo.state ≡ some state
      → (length (leftover_jobs repo.spool) ≤ state.head.pending)
        × (state.head.pending ≤ config.max_queue_depth_per_repo)
        × ((job : SpoolJob)
            → In job repo.jobs
            → (0 < state.head.pending) × ((bytes : Text) × (read repo.spool job.path ≡ some bytes)))
  pending_lem store spool repo state d h r e =
      let q = Reach-IsQueued (opened-IsQueued store spool d h) r in
      let c = subst (Counted config.max_queue_depth_per_repo repo.spool) e q.counted in
      (
        omega (arith, length-leftover_jobs repo.spool, c),
        omega (arith, c),
        λ job m.
            let (file, there, named) = q.owned.0 job m in
            (
              omega (arith, count_jobs-erase_job repo.spool job.path file job there named, c),
              (file.bytes, rw (there, read)),
            ),
      )
