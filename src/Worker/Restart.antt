-- ===== src/Worker/Restart.antt =====
-- What a restart makes of pushes that were accepted and not yet committed.
use weave_graph.Common.{
  ℕ, ◌<◌, Text, length, true, false, some, ◌≡◌, arith, ◌==◌, ==_iff, ==_refl, nat_eq, list_eq,
}
use weave_graph.Spool.{is_safe_path_component, leftover_jobs}
use weave_graph.Registry.{
  RegistryConfig, Repo, ok, accepted, conflict, read_persisted_head, recover, repo_state,
  begin_upload, reserve, admit, is_full, is_conflict, take_rate, expire_uploads, refresh_window,
}
use weave_graph.Worker.Steps.{crash}

-- After a restart the head is the persisted one, whatever jobs the spool still holds. An upload on top
-- of a commit `new` that was accepted and is still in the spool is refused as a conflict, and one on
-- top of the older commit `old` of the store is accepted.
pub begin_upload-crash :
    (config : RegistryConfig) (now : ℕ) (repo_id target_sha new old : Text) (repo : Repo)
    → is_safe_path_component repo_id ≡ true
    → is_safe_path_component target_sha ≡ true
    → read_persisted_head repo.store ≡ some old
    → (¬ (old ≡ new))
    → length (leftover_jobs repo.spool) < config.max_queue_depth_per_repo
    → 0 < config.max_pushes_per_minute_per_repo
    → ((begin_upload config now repo_id target_sha (some new) (crash repo)).0 ≡ ok conflict)
      × ((begin_upload config now repo_id target_sha (some old) (crash repo)).0 ≡ ok accepted)
unfolding begin_upload repo_state recover admit reserve is_full is_conflict take_rate expire_uploads
    refresh_window
begin_upload-crash config now repo_id target_sha new old repo safe fine persisted other room rate =
    let apart : (old == new) ≡ false = ground (arith, ==_iff old new) in
    let same = ==_refl old in (ground arith, ground arith)
