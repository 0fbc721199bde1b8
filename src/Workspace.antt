-- ===== src/Workspace.antt =====
-- packages/core/src/workspace/workspace.ts, branch-workspaces.ts and adapter-contract.ts, and
-- packages/core/src/persistence/workspace-storage.ts: the state of an open workspace, and what it
-- does around every change: the guards, the persistence and the rollback.
--
-- Adapter and storage are a parameter, `Host`. What they answer may change from call to call: it is a
-- function of the calls that went before, which the workspace keeps as a trace, the newest first:
-- the readings of the branches, the commits, the creations and deletions of branches and the saves.
-- Files and listings are read at a revision, which does not change, by an `Adapter` without a trace.
-- The serial executor runs one mutation at a time, which is what a method is.
pub mod Branches
pub mod Commits
pub mod Facade
pub mod Calls
pub mod Journal
pub mod Publication
pub mod Sessions
pub mod Recovery
pub mod Pending
pub mod Requests
use remotish.Shared.{
  Text, Bytes, text_eq, Dict, lookup, insert, Result, ok, err, and_then, throw_code, Failure,
  other_error, forbidden, invalid_request, Method, pure, throw, attempt, modify, guard, ◌>>=◌, ◌>>◌,
  Option, none, some, List, [], ◌∷◌, Bool, true, false, not, ◌&&◌, ◌||◌, if◌then◌else◌,
}
use remotish.Sdk.{Branch, RemotishCapabilities, CommitRequest, CommitResult}
use remotish.Overlay
use remotish.Repository.{Adapter}
use remotish.WorkingTree
use remotish.WorkingTree.{WorkingTree, WorkingTreeSnapshot}
use remotish.ChangeSet

-- Durable state of a commit publication that is not yet reconciled.
pub data PendingCommitPublication : Type 0 where
  prepared : Text → Text → PendingCommitPublication
  published : Text → Text → Text → PendingCommitPublication

abbrev pub pending_branch : PendingCommitPublication → Text
pending_branch (prepared branch expected) = branch
pending_branch (published branch expected revision) = branch

pub record WorkspaceSnapshot : Type 0 where
  pub selected_branch : Text
  pub branches : Dict WorkingTreeSnapshot
  pub pending_commit_publication : Option PendingCommitPublication

-- One call of the host, with its answer, or one change event.
pub data Effect : Type 0 where
  get_branches_call : Result (List Branch) → Effect
  save_call : WorkspaceSnapshot → Result (Unit {0}) → Effect
  commit_call : CommitRequest → Result CommitResult → Effect
  create_branch_call : Text → Text → Result Branch → Effect
  delete_branch_call : Text → Result (Unit {0}) → Effect
  changed_event : Text → Text → Effect

abbrev pub Trace : Type 0
Trace = List Effect

pub record Host : Type 0 where
  pub adapter : Adapter
  pub capabilities : RemotishCapabilities
  pub has_commit : Bool
  pub has_create_branch : Bool
  pub has_delete_branch : Bool
  pub get_branches : Trace → Result (List Branch)
  pub commit : Trace → CommitRequest → Result CommitResult
  pub create_branch : Trace → Text → Text → Result Branch
  pub delete_branch : Trace → Text → Result (Unit {0})
  pub save : Trace → WorkspaceSnapshot → Result (Unit {0})
  pub locale_le : Text → Text → Bool

pub record Workspace : Type 0 where
  pub workspaces : Dict WorkingTree
  pub selected_branch : Text
  pub pending : Option PendingCommitPublication
  pub trace : Trace

-- adapter-contract.ts
unfoldable pub validate_adapter_contract : Host → Result (Unit {0})
validate_adapter_contract host =
    let c = host.capabilities in
    if (c.commits && not host.has_commit)
      || (c.force_with_lease && not c.commits)
      || (c.amend && not c.force_with_lease)
      || (c.create_branch && not host.has_create_branch)
      || (c.delete_branch && not host.has_delete_branch)
    then throw_code invalid_request
    else ok tt

unfoldable pub current : Workspace → Result WorkingTree
current w = elim (lookup w.selected_branch w.workspaces) [ some t ↦ ok t | none ↦ err other_error ]

-- A method of the current working tree, which the map of workspaces shares.
unfoldable pub on_current {ℓ} : {A : Type ℓ} → Method WorkingTree A → Method Workspace A
on_current m w = elim (current w) [
  | err e ↦ (err e, w)
  | ok t ↦
      let (r, t') = m t in (r, record w { workspaces = insert w.selected_branch t' w.workspaces })
]

unfoldable pub require_no_pending : Method Workspace (Unit {0})
require_no_pending w = elim w.pending [
  | none ↦ (ok tt, w)
  | some p ↦ (throw_code invalid_request, w)
]

-- `requireExpectedState`: the branch and base revision that the caller saw are still selected.
unfoldable pub require_expected_state : Option (Text × Text) → Method Workspace (Unit {0})
require_expected_state none = pure tt
require_expected_state (some (branch, base_revision)) = do
  t ← attempt current
  selected ← attempt (λ w. ok w.selected_branch)
  guard (text_eq selected branch && text_eq t.base_revision base_revision) invalid_request

-- `BranchWorkspaces.restore`: the workspaces of a snapshot in place of the current ones.
unfoldable pub restore_workspaces : Dict WorkingTreeSnapshot → Method Workspace (Unit {0})
restore_workspaces [] = pure tt
restore_workspaces ((branch, s) ∷ rest) = do
  o ← attempt (λ w. Overlay.restore s.overlay)
  modify (λ w. record w {
    workspaces =
        insert branch (record { base_revision = s.base_revision; overlay = o }) w.workspaces;
  })
  restore_workspaces rest

unfoldable pub restore : WorkspaceSnapshot → Method Workspace (Unit {0})
restore s = do
  modify (λ w. record w { workspaces = [] })
  restore_workspaces s.branches
  modify (λ w. record w { selected_branch = s.selected_branch })

abbrev pub branch_snapshots : (Text → Text → Bool) → Dict WorkingTree → Dict WorkingTreeSnapshot
branch_snapshots locale_le [] = []
branch_snapshots locale_le ((branch, t) ∷ rest) =
    (branch, WorkingTree.snapshot locale_le t) ∷ branch_snapshots locale_le rest

-- A listener that throws changes nothing (events.ts).
unfoldable pub emit_changed : Method Workspace (Unit {0})
emit_changed = do
  t ← attempt current
  modify (λ w. record w { trace = changed_event w.selected_branch t.base_revision ∷ w.trace })

-- `catch (error) { await recover(); throw error; }`: an error of the recovery is thrown in its place.
unfoldable pub rethrow {ℓ} :
    {A : Type ℓ} → Failure → Result (Unit {0}) × Workspace → Result A × Workspace
rethrow e (ok done, w) = (err e, w)
rethrow e (err f, w) = (err f, w)

unfoldable pub roll_back {ℓ} :
    {A : Type ℓ} → WorkspaceSnapshot → Result A × Workspace → Result A × Workspace
roll_back s (ok a, w) = (ok a, w)
roll_back s (err e, w) = rethrow e (restore s w)

module _ (host : Host) where
  unfoldable pub require_writable : Method Workspace (Unit {0})
  require_writable = guard (host.capabilities.commits || host.capabilities.local_edits) forbidden

  unfoldable pub snapshot : Workspace → WorkspaceSnapshot
  snapshot w = record {
    selected_branch = w.selected_branch;
    branches = branch_snapshots host.locale_le w.workspaces;
    pending_commit_publication = w.pending;
  }

  unfoldable pub save_snapshot : Method Workspace (Unit {0})
  save_snapshot w =
      let r = host.save w.trace (snapshot w) in
      (r, record w { trace = save_call (snapshot w) r ∷ w.trace })

  unfoldable pub changed : Method Workspace (Unit {0})
  changed = do save_snapshot; emit_changed

  -- `try { await saveSnapshot() } catch {}`
  unfoldable pub try_save : Method Workspace (Unit {0})
  try_save w = (ok tt, (save_snapshot w).1)

  unfoldable pub changed_after_remote_success : Method Workspace (Unit {0})
  changed_after_remote_success = do try_save; emit_changed

  -- The operation, and the save and the event where it has changed something, or neither.
  unfoldable pub run_local_mutation {ℓ} :
      {A : Type ℓ} → Method Workspace A → (A → Bool) → Method Workspace A
  run_local_mutation operation did_change w =
      roll_back (snapshot w)
        ((do a ← operation; (if did_change a then changed else pure tt); pure a) w)

  unfoldable pub mutate : Method Workspace (Unit {0}) → Method Workspace (Unit {0})
  mutate operation = do require_no_pending; run_local_mutation operation (λ done. true)

  unfoldable pub mutate_remote_with_result {ℓ} :
      {A : Type ℓ} → Method Workspace A → Method Workspace A
  mutate_remote_with_result operation = do
    require_no_pending
    a ← operation
    changed_after_remote_success
    pure a
