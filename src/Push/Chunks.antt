-- ===== src/Push/Chunks.antt =====
-- An upload in chunks: each at the offset that the one before it returned.
use mathlib.Core.List.{append-nil, append_assoc}
use weave_graph.Common.{
  Option-cases, ℕ, ◌+◌, ◌^◌, ◌≤◌, ◌<◌, Text, List, [], ◌∷◌, ◌++◌, length, length-append, true,
  false, Bool-cases, some, ◌≡◌, refl, sym, ap, ◌∙◌, arith, inl, inr, ◌==◌, ==_iff, ==_refl, nat_eq,
  list_eq, lookup, lookup-put, leb,
}
use weave_graph.Disk.{read, write}
use weave_graph.Spool.{is_safe_path_component}
use weave_graph.Registry.{
  RegistryConfig, Repo, IoResult, ok, err, IoError, invalid_input, upload_name, upload_len,
}
use weave_graph.Push.{chunk_onto, spool_chunk}

-- The bytes of all chunks.
abbrev pub joined : List Text → Text
joined [] = []
joined (chunk ∷ chunks) = chunk ++ joined chunks

module _ (config : RegistryConfig) (now : ℕ) (repo_id target_sha : Text) where
  -- A client that stops at the first error.
  unfoldable pub send : ℕ → List Text → Repo → IoResult ℕ × Repo
  send offset [] repo = (ok offset, repo)
  send offset (chunk ∷ chunks) repo =
      let (result, after) = spool_chunk config now repo_id target_sha offset chunk repo in
      elim result [ err e ↦ (err e, after) | ok len ↦ send len chunks after ]

  send-nil : (offset : ℕ) (repo : Repo) → send offset [] repo ≡ (ok offset, repo)
  unfolding send
  send-nil offset repo = refl

  send-ok :
      (offset len : ℕ) (chunk : Text) (chunks : List Text) (repo after : Repo)
      → spool_chunk config now repo_id target_sha offset chunk repo ≡ (ok len, after)
      → send offset (chunk ∷ chunks) repo ≡ send len chunks after
  unfolding send
  send-ok offset len chunk chunks repo after e =
      ap
        (λ (r : IoResult ℕ × Repo). elim r.0 [
          | err e ↦ (err e, r.1)
          | ok len ↦ send len chunks r.1
        ])
        e

  send-err :
      (offset : ℕ) (chunk : Text) (chunks : List Text) (repo after : Repo) (error : IoError)
      → spool_chunk config now repo_id target_sha offset chunk repo ≡ (err error, after)
      → send offset (chunk ∷ chunks) repo ≡ (err error, after)
  unfolding send
  send-err offset chunk chunks repo after error e =
      ap
        (λ (r : IoResult ℕ × Repo). elim r.0 [
          | err e ↦ (err e, r.1)
          | ok len ↦ send len chunks r.1
        ])
        e

  abbrev holding : Repo → Text → Repo
  holding repo bytes = record repo { spool = write now repo.spool (upload_name target_sha) bytes }

  read-holding :
      (repo : Repo) (bytes : Text)
      → read (holding repo bytes).spool (upload_name target_sha) ≡ some bytes
  read-holding repo bytes =
      let own =
        lookup-put repo.spool (upload_name target_sha) (upload_name target_sha)
          (record { bytes = bytes; modified = now }) in
      rw (own, ==_refl (upload_name target_sha), read)

  onto : (bytes chunk : Text) → chunk_onto (length bytes) (some bytes) chunk ≡ bytes ++ chunk
  onto [] chunk = refl
  onto (x ∷ bytes) chunk = ground arith

  spool_chunk-first :
      (repo : Repo) (chunk : Text)
      → is_safe_path_component repo_id ≡ true
      → is_safe_path_component target_sha ≡ true
      → length chunk ≤ config.max_snapshot_bytes
      → length chunk < 2 ^ 64
      → spool_chunk config now repo_id target_sha 0 chunk repo
        ≡ (ok (length chunk), holding repo chunk)
  unfolding spool_chunk
  spool_chunk-first repo chunk safe fine fits small =
      elim (Option-cases (read repo.spool (upload_name target_sha))) [
        | inl none_yet ↦ rw (none_yet, chunk_onto) (ground arith)
        | inr (bytes, there) ↦ rw (there, chunk_onto) (ground arith)
      ]

  spool_chunk-holding :
      (repo : Repo) (bytes chunk : Text)
      → is_safe_path_component repo_id ≡ true
      → is_safe_path_component target_sha ≡ true
      → length bytes + length chunk ≤ config.max_snapshot_bytes
      → length bytes + length chunk < 2 ^ 64
      → read repo.spool (upload_name target_sha) ≡ some bytes
      → spool_chunk config now repo_id target_sha (length bytes) chunk repo
        ≡ (ok (length bytes + length chunk), holding repo (bytes ++ chunk))
  unfolding spool_chunk
  spool_chunk-holding repo bytes chunk safe fine fits small there =
      rw (there, onto bytes chunk) (ground (arith, length-append bytes chunk))

  -- The outcome of the chunks after `bytes`.
  abbrev Sent : Text → List Text → Repo → IoResult ℕ × Repo → Type 0
  Sent bytes chunks repo (result, after) =
      (length bytes + length (joined chunks) ≤ config.max_snapshot_bytes
        → (result ≡ ok (length bytes + length (joined chunks)))
          × (read after.spool (upload_name target_sha) ≡ some (bytes ++ joined chunks)))
      × (config.max_snapshot_bytes < length bytes + length (joined chunks)
          → result ≡ err invalid_input)
      × ((other : Text)
          → ¬ (other ≡ upload_name target_sha)
          → lookup after.spool other ≡ lookup repo.spool other)

  spool_chunk-over :
      (repo : Repo) (offset : ℕ) (chunk : Text)
      → upload_len repo.spool target_sha ≡ offset
      → config.max_snapshot_bytes < offset + length chunk
      → is_safe_path_component repo_id ≡ true
      → is_safe_path_component target_sha ≡ true
      → spool_chunk config now repo_id target_sha offset chunk repo ≡ (err invalid_input, repo)
  unfolding spool_chunk
  spool_chunk-over repo offset chunk len over safe fine = rw len (ground (arith, ==_refl offset))

  spool_chunk-first_over :
      (repo : Repo) (chunk : Text)
      → config.max_snapshot_bytes < length chunk
      → is_safe_path_component repo_id ≡ true
      → is_safe_path_component target_sha ≡ true
      → spool_chunk config now repo_id target_sha 0 chunk repo ≡ (err invalid_input, repo)
  unfolding spool_chunk
  spool_chunk-first_over repo chunk over safe fine = ground arith

  holding-other :
      (repo : Repo) (bytes other : Text)
      → ¬ (other ≡ upload_name target_sha)
      → lookup (holding repo bytes).spool other ≡ lookup repo.spool other
  holding-other repo bytes other apart =
      let differs : (other == upload_name target_sha) ≡ false =
        ground (arith, ==_iff other (upload_name target_sha)) in
      lookup-put repo.spool (upload_name target_sha) other
        (record { bytes = bytes; modified = now })
      ∙ rw differs

  send-Sent :
      (chunks : List Text) (repo : Repo) (bytes : Text)
      → is_safe_path_component repo_id ≡ true
      → is_safe_path_component target_sha ≡ true
      → config.max_snapshot_bytes < 2 ^ 64
      → length bytes ≤ config.max_snapshot_bytes
      → read repo.spool (upload_name target_sha) ≡ some bytes
      → Sent bytes chunks repo (send (length bytes) chunks repo)
  send-Sent [] repo bytes safe fine small within there = rw (send-nil (length bytes) repo) (
    λ h. (ap ok (omega arith), there ∙ ap some (sym (append-nil bytes))),
    λ h. absurd (omega arith),
    λ other apart. refl,
  )
  send-Sent (chunk ∷ chunks) repo bytes safe fine small within there =
      elim (Bool-cases (leb (length bytes + length chunk) config.max_snapshot_bytes)) [
        | inl fits ↦
            let fits' : length bytes + length chunk ≤ config.max_snapshot_bytes = ground arith in
            let longer = length-append bytes chunk in
            let (all, over, others) =
              send-Sent chunks (holding repo (bytes ++ chunk)) (bytes ++ chunk) safe fine small
                (omega (arith, longer)) (read-holding repo (bytes ++ chunk)) in
            let step : spool_chunk config now repo_id target_sha (length bytes) chunk repo
                ≡ (ok (length (bytes ++ chunk)), holding repo (bytes ++ chunk)) =
              spool_chunk-holding repo bytes chunk safe fine fits' (omega arith) there
              ∙ ap (λ n. (ok n, holding repo (bytes ++ chunk))) (sym longer) in
            let total = length-append chunk (joined chunks) in
            rw
              (send-ok (length bytes) (length (bytes ++ chunk)) chunk chunks repo
                (holding repo (bytes ++ chunk)) step)
              (
                λ h.
                    let (result, content) = all (omega (arith, total, longer)) in
                    (
                      result ∙ ap ok (omega (arith, total, longer)),
                      content ∙ ap some (append_assoc bytes chunk (joined chunks)),
                    ),
                λ h. over (omega (arith, total, longer)),
                λ other apart. others other apart ∙ holding-other repo (bytes ++ chunk) other apart,
              )
        | inr over ↦
            let beyond : config.max_snapshot_bytes < length bytes + length chunk = ground arith in
            let len : upload_len repo.spool target_sha ≡ length bytes = rw (there, upload_len) in
            let step = spool_chunk-over repo (length bytes) chunk len beyond safe fine in
            let total = length-append chunk (joined chunks) in
            rw (send-err (length bytes) chunk chunks repo repo invalid_input step)
              (λ h. absurd (omega (arith, total)), λ h. refl, λ other apart. refl)
      ]

  -- A snapshot sent in one or more chunks, each at the offset that the one before it returned, lies
  -- in the spool as the chunks joined, if they keep to `max_snapshot_bytes`, whatever an earlier
  -- upload left there; else some chunk is refused. No other file of the spool changes.
  pub send_lem :
      (chunk : Text) (chunks : List Text) (repo : Repo)
      → is_safe_path_component repo_id ≡ true
      → is_safe_path_component target_sha ≡ true
      → config.max_snapshot_bytes < 2 ^ 64
      → (length (joined (chunk ∷ chunks)) ≤ config.max_snapshot_bytes
          → ((send 0 (chunk ∷ chunks) repo).0 ≡ ok (length (joined (chunk ∷ chunks))))
            × (read (send 0 (chunk ∷ chunks) repo).1.spool (upload_name target_sha)
                ≡ some (joined (chunk ∷ chunks))))
        × (config.max_snapshot_bytes < length (joined (chunk ∷ chunks))
            → (send 0 (chunk ∷ chunks) repo).0 ≡ err invalid_input)
        × ((other : Text)
            → ¬ (other ≡ upload_name target_sha)
            → lookup (send 0 (chunk ∷ chunks) repo).1.spool other ≡ lookup repo.spool other)
  send_lem chunk chunks repo safe fine small =
      let total = length-append chunk (joined chunks) in
      elim (Bool-cases (leb (length chunk) config.max_snapshot_bytes)) [
        | inl fits ↦
            let fits' : length chunk ≤ config.max_snapshot_bytes = ground arith in
            let (all, over, others) =
              send-Sent chunks (holding repo chunk) chunk safe fine small fits'
                (read-holding repo chunk) in
            rw
              (send-ok 0 (length chunk) chunk chunks repo (holding repo chunk)
                (spool_chunk-first repo chunk safe fine fits' (omega arith)))
              (
                λ h.
                    let (result, content) = all (omega (arith, total)) in
                    (result ∙ ap ok (omega (arith, total)), content),
                λ h. over (omega (arith, total)),
                λ other apart. others other apart ∙ holding-other repo chunk other apart,
              )
        | inr high ↦
            let beyond : config.max_snapshot_bytes < length chunk = ground arith in
            rw
              (send-err 0 chunk chunks repo repo invalid_input
                (spool_chunk-first_over repo chunk beyond safe fine))
              (λ h. absurd (omega (arith, total)), λ h. refl, λ other apart. refl)
      ]
