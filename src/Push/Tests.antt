-- ===== src/Push/Tests.antt =====
-- An upload in three chunks, and the theorem there.
use weave_graph.Common.{
  ◌≤◌, ◌<◌, Text, codes, List, [], ◌∷◌, none, some, ◌≡◌, refl, arith, length, lookup, list_eq,
  nat_eq,
}
use weave_graph.Disk.{read}
use weave_graph.Spool.{is_safe_path_component}
use weave_graph.Registry.{RegistryConfig, Repo, ok, err, invalid_input, upload_name}
use weave_graph.Push.{spool_chunk}
use weave_graph.Push.Chunks.{joined, send, send_lem}

abbrev config : RegistryConfig
config = record {
  max_queue_depth_per_repo = 2;
  max_pushes_per_minute_per_repo = 10;
  max_snapshot_bytes = 5;
  provenance_verifier = none;
}

abbrev stale : Repo
stale = record {
  store = [];
  spool = (codes "aa.tmp", record { bytes = 9 ∷ 9 ∷ []; modified = 1 }) ∷ [];
  state = none;
  jobs = [];
}

abbrev rest : List Text
rest = [] ∷ (2 ∷ 3 ∷ []) ∷ []

sent :
    ((send config 4 (codes "r") (codes "aa") 0 ((1 ∷ []) ∷ rest) stale).0 ≡ ok 3)
    × ((send config 4 (codes "r") (codes "aa") 0 ((1 ∷ []) ∷ rest) stale).1.spool
        ≡ (codes "aa.tmp", record { bytes = 1 ∷ 2 ∷ 3 ∷ []; modified = 4 }) ∷ [])
unfolding send spool_chunk is_safe_path_component
sent = (refl, refl)

send_lem_example :
    (length (joined ((1 ∷ []) ∷ rest)) ≤ config.max_snapshot_bytes
      → ((send config 4 (codes "r") (codes "aa") 0 ((1 ∷ []) ∷ rest) stale).0
          ≡ ok (length (joined ((1 ∷ []) ∷ rest))))
        × (read
              (send config 4 (codes "r") (codes "aa") 0 ((1 ∷ []) ∷ rest) stale).1.spool
              (upload_name (codes "aa"))
            ≡ some (joined ((1 ∷ []) ∷ rest))))
    × (config.max_snapshot_bytes < length (joined ((1 ∷ []) ∷ rest))
        → (send config 4 (codes "r") (codes "aa") 0 ((1 ∷ []) ∷ rest) stale).0 ≡ err invalid_input)
    × ((other : Text)
        → ¬ (other ≡ upload_name (codes "aa"))
        → lookup (send config 4 (codes "r") (codes "aa") 0 ((1 ∷ []) ∷ rest) stale).1.spool other
          ≡ lookup stale.spool other)
unfolding is_safe_path_component
send_lem_example =
    send_lem config 4 (codes "r") (codes "aa") (1 ∷ []) rest stale refl refl (omega arith)
