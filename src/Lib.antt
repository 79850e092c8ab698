-- ===== src/Lib.antt =====
-- weave-graph, a code-intelligence engine: a verification library for its core.
--
-- The indexer of the program turns source files into nodes (files, functions, types) and edges
-- (calls, imports, defines) with ids given by a storage backend. The core crate,
-- crates/weave-graph-core, loads these into a compressed adjacency structure, answers
-- reachability questions on it, masks what a caller may not see, and checks the caller's bearer
-- token. It also checks declared boundaries between modules and resolves the names that a user
-- types, and signs and verifies records. The parser crate, crates/weave-graph-parse, turns the
-- references in a file into edges by an index of the project's symbols, and compares contracts. The
-- server crate, crates/weave-graph-mcp, renders what the core finds within a budget of words. The hub,
-- crates/weave-graph-hub, takes snapshots of graphs from many clients, queues them on disk, and serves
-- the ones that its workers have committed. This library models these; the backends, the extractors, the
-- protocols and the command line are outside.
--
-- The files, and the code that each models:
--   Common       shared names: Boolean tests on the native numbers, equality as an instance,
--                lists, byte texts, association lists, sorting and deduplication.
--   Model        crates/weave-graph-core/src/model.rs: `Node`, `Edge`, `Confidence`.
--   Ranking      crates/weave-graph-core/src/ranking.rs: `reciprocal_rank_fusion`. Its f64 scores are a
--                parameter with a sum, the share of a rank and the order of `total_cmp`.
--   Auth         crates/weave-graph-core/src/auth.rs: `constant_time_eq`, `bearer_token_matches`.
--   Rbac         crates/weave-graph-core/src/rbac.rs: `Identity`, `StaticAuthProvider`, `RbacGuard`.
--   Csr          crates/weave-graph-core/src/csr.rs: `CompactCsr`, its construction and its reads.
--   Reverse      the same file: `CompactCsr::build_reverse`.
--   Bfs          the same file: `bfs_within`.
--   Graph        the same file: `CsrGraph`, with `load` from a storage, `from_nodes_and_edges`,
--                `outbound`, `reachable_within`, `callers_within` and `reachable_nodes`.
--   Route        the same file: `CsrGraph::query_path`.
--   Policy       crates/weave-graph-core/src/policy.rs: the boundary rules with `lint_scoped` and
--                `lint`, and `orphan_files`.
--   Cycles       the same file: `find_cycles`, whose depth-first search has as fuel one more than the
--                number of files. Every file on its stack is coloured, so this is enough.
--   Coupling     the same file: `semantic_coupling_findings`.
--   Provenance   crates/weave-graph-core/src/provenance.rs: `MockProvenanceProvider`.
--   Resolve      crates/weave-graph-core/src/resolve.rs: `levenshtein`, `resolve_symbol` and
--                `format_not_found`.
--   Contract     crates/weave-graph-parse/src/contract.rs: `diff_contracts`, `ContractDiff`.
--   Language     crates/weave-graph-parse/src/language.rs: `Language::from_path`, with `visibility_rule`
--                of contract.rs beside it. The feature `lang-extended` is on.
--   ProjectIndex crates/weave-graph-parse/src/resolve.rs: `ProjectIndex` with `add_symbol`,
--                `candidates` and `resolve_one`.
--   FileEdges    the same file: `resolve_ids` and `resolve`, which is `resolve_file` here.
--   CrossRepo    the same file: `add_file` and `resolve_cross_repo`.
--   Interner     the same file: the interface of `StringInterner` that the index uses.
--                Interner/Listed fills it by a list of the strings.
--   StringTable  the same file: `StringInterner` itself, an arena with an open-addressing index, compared
--                with the list of Interner/Listed. A probe runs on as many steps as there are slots.
--   TraceCalls   crates/weave-graph-mcp/src/trace_calls.rs: `outgoing_chain` and `render_result`, with
--                `estimate_tokens` and `under_budget` of tools.rs beside it.
--   Disk         what the hub uses of `std::fs`: a directory is an association list of named files, and
--                an operation fails where its file is missing, and only there.
--   Spool        crates/weave-graph-hub/src/registry.rs: `is_safe_path_component`, `decode_hex`, the
--                names of jobs and `leftover_jobs`.
--   Registry     the same file: the state of one repository, `repo_state`, `begin_upload`,
--                `abandon_upload`, `expire_uploads` and `take_upload_reservation`.
--   Push         the same file: `spool_chunk`, `finish_upload`, `push_complete`, `push` and `pull`.
--   Worker       the same file: `commit_job`, `prune_retention` and `worker_loop`, whose turns are steps
--                between the requests. Worker/Steps has the relation of all steps, restarts included.
--   Bitmap       the interface of the `roaring` crate, which is not in the repository: a type of
--                sets of numbers with the operations that the code calls and their documented
--                laws. Bitmap/Listed fills it by sorted lists.
--
-- How state and operations correspond: a struct is a record with the field names of the source, an
-- enum a data type with its constructors, a `Vec` or a slice a list, a `String` its list of bytes, a
-- `HashMap` an association list. A loop that changes local variables is a function on a record or a
-- pair of those variables, over the sequence that the loop reads. A `Result` is `Outcome`, which
-- also has the panic of a failed assertion.
--
-- Numbers: ids and indices are natural numbers. `from_sorted_edges` asserts at most `u32::MAX` nodes,
-- and the conversions `as u32` keep their wrap-around (`% 2 ^ 32`) in `Graph`; the theorems on
-- graphs hold for every graph that the constructors return, so that no index wraps.
--
-- Loops: most loops are structural recursion, on the edges, on the rows or on the number of hops, which
-- the source bounds too. `query_path` runs on fuel: as many rounds as there are nodes, which suffice
-- since every round takes a node off the queue and a node is queued once, and for the way back as many
-- steps as `predecessor` has entries, and one. The theorem on it shows that neither runs out. The
-- decimal digits of a number are computed on fuel that is the number.
--
-- The hub: a request and a job of the worker are one step each, and steps come in any order. The clock is
-- an argument, one number of seconds for `Instant` and `SystemTime`. A mutex that is poisoned, a disk that
-- fails for another reason than a missing file, and contents that are not UTF-8 are left out, and so are two
-- requests that interleave inside `begin_upload`. The `usize` decrement of `pending` is a subtraction of
-- natural numbers; a theorem shows that it never starts from 0. A safe id of a repository is one component of
-- a path, so the directories of two repositories are apart, and the state is that of one repository.
--
-- Out of the model: the webhooks and canvases of the hub; capacities and allocation, which have no
-- effect on results; the weights of edges and similarities (f32), which are parameter types; the
-- databases behind `Storage`; the extractors, which walk syntax trees that come from outside the
-- repository; the command line and the servers, which parse arguments and requests; the clusters and
-- modules of the core, whose results depend on floating-point sums; its federation, its traces and its
-- notes.
mod Common
pub mod Model
pub mod Ranking
pub mod Auth
pub mod Rbac
pub mod Csr
pub mod Bitmap
pub mod Bfs
pub mod Reverse
pub mod Graph
pub mod Route
pub mod Policy
pub mod Cycles
pub mod Coupling
pub mod Resolve
pub mod Provenance
pub mod Contract
pub mod Interner
pub mod StringTable
pub mod Language
pub mod ProjectIndex
pub mod FileEdges
pub mod CrossRepo
pub mod TraceCalls
pub mod Disk
pub mod Spool
pub mod Registry
pub mod Push
pub mod Worker
