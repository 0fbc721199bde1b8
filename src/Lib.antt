-- ===== src/Lib.antt =====
-- Remotish opens a remote repository for editing without a clone: it reads immutable revisions
-- through an adapter, keeps local changes in an overlay, and publishes them as commits.
--
-- The parts, from the bottom, with the files of the repository that they are about:
--   * Shared: texts, JavaScript's `Map`, `Set` and `sort`, and the results of code that may throw. A
--     string is the list of its UTF-16 code units. A stateful operation is a method, a function of
--     the state to a result and the next state; a method that throws keeps what it changed before.
--   * Paths: `normalizeRepoPath` (packages/adapter-sdk/src/path.ts) and the path helpers of
--     packages/core/src/util/path.ts. Paths/Canonical, Paths/Parts, Paths/Segments
--     and Paths/Tree have their properties.
--   * Sdk: the data that adapters and the framework exchange (packages/adapter-sdk/src).
--   * Overlay: the class `Overlay` (packages/core/src/overlay/overlay.ts), a record of files, directory
--     markers, tombstones (`deletedPaths`) and renames, with a function for each of its methods.
--     `restore` takes any snapshot, as the code does, also one in which a file lies under a tombstone
--     or is a directory marker.
--   * RevisionCache: the class of packages/core/src/repository/revision-cache.ts.
--   * Repository: `RepositoryReader` and its validation of directory listings
--     (packages/core/src/repository/repository-reader.ts) with the traversal budget
--     (packages/core/src/util/traversal-budget.ts). Repository/Reader puts the cache in front.
--   * WorkingTree: a base revision under an overlay (packages/core/src/working-tree/working-tree.ts and
--     traversal.ts); WorkingTree/Mutations is mutation-service.ts.
--   * ChangeSet: the changes of an overlay against its base (change-set.ts) and what stays of an overlay
--     after a partial publication (published-revision.ts). Commits, Deleted and Rebase have the
--     properties.
--   * Workspace: the state, the guards, the persistence and the rollback of `RemotishWorkspace`
--     (packages/core/src/workspace/workspace.ts, branch-workspaces.ts, adapter-contract.ts). Its
--     children are Commits (packages/core/src/commit/commit-service.ts and `mutateCommit`), Branches
--     (branch-service.ts), Facade (the other calls, opening and recovery) and Calls (all calls of a
--     client); Journal, Publication, Sessions, Recovery, Pending and Requests have the properties.
--   * Json: untrusted JavaScript values, as the codecs meet them. Base64: `btoa` and `atob`.
--   * Rpc: the protocol between an adapter and a remote endpoint (adapters/rpc/src). Rpc is
--     rpc-types.ts and rpc-codec-primitives.ts, Rpc/Requests rpc-request-codec.ts, Rpc/Results
--     rpc-result-codec.ts and Rpc/Client the class `RpcAdapter` (rpc-adapter.ts). Contents, Commits,
--     Responses and Sessions have the properties.
--   * Fixture: the repository in memory (packages/adapter-fixture/src): model.ts and files.ts, with
--     Commits (commit-engine.ts), View (repository-view.ts), Branches (branch-service.ts) and Seed
--     (seed.ts). Engine, Files, History, Numbers,
--     Invariant, Sessions and Pages have the properties.
--   * Persistence: workspaces as they are stored (packages/vscode/src/persistence):
--     workspace-persistence-schema.ts, with Memento (workspace-snapshot-codec.ts) and StorageUri
--     (storage-uri-workspace-codec.ts). Schema, RoundTrip, Snapshots and Manifests have the
--     properties.
--   * Bridge: the frames of the bridge of git over HTTP
--     (extensions/git-http-provider/src/bridge-frame.ts); Bridge/Frames has the properties.
--   * Examples: runs on a small repository, on messages and on stored workspaces.
--
-- Adapter and storage are parameters. What an adapter answers for one revision and one path does not
-- change (docs/adapter-contract.md); the answers to the other calls may depend on all that was
-- called before, which a workspace keeps as its trace: readings of the branches, commits, creations
-- and deletions of branches, and saves. Sorting by `localeCompare` is the parameter
-- `locale_le`. The transport of the rpc adapter, the storage of blobs and the formatting of dates are
-- parameters as well.
--
-- Bounds: a walk recurses on the levels that are left, 257 of them, which is the bound of the code
-- itself (`maxDepth` 256, the root included), so no fuel beyond it is needed. It visits at most
-- 100,000 entries, as the code does. Byte counts and sizes are natural numbers, which in the code
-- stay below the safe integers. The walk along first parents in the repository in memory has the
-- number of commits as fuel, and one more; a parent is an older commit, so this is enough. A number is
-- written with no more digits than it has units, and one.
--
-- Not modelled: the texts of error messages; reads that overlap and their deadlines; the copies of
-- byte arrays, since values are not shared here; the order that `Object.entries` gives to branch
-- names that look like integers; reads that a workspace only passes on, such as `getBranches`; the
-- promise queue `SerialExecutor`, since a method runs alone; the
-- delivery of events; the latency and the injected faults of the repository in memory; the files
-- under a storage of workspaces. The adapters for git over HTTP, GitHub and HTTP services, the
-- integration with the editor, and extensions and applications but for the frames of the bridge are
-- outside this development.
pub mod Shared
pub mod Paths
pub mod Sdk
pub mod Overlay
pub mod RevisionCache
pub mod Repository
pub mod WorkingTree
pub mod ChangeSet
pub mod Workspace
pub mod Base64
pub mod Json
pub mod Rpc
pub mod Fixture
pub mod Persistence
pub mod Bridge
pub mod Examples
