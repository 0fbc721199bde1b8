-- ===== src/Workspace/Calls.antt =====
-- The calls that a client makes of an open workspace: the methods of
-- packages/core/src/workspace/workspace.ts that can change its state, with their arguments.
use remotish.Shared.{Text, Bytes, Option, Bool, List}
use remotish.Workspace.{Host, Workspace, WorkspaceSnapshot}
use remotish.Workspace.Commits
use remotish.Workspace.Branches
use remotish.Workspace.Facade
use remotish.Workspace.Facade.{Resolution}
use remotish.Shared.{ok, ◌≡◌}

pub data Call : Type 0 where
  write_file : Text → Bytes → Bool → Bool → Call
  create_directory : Text → Call
  delete : Text → Bool → Call
  rename : Text → Text → Bool → Call
  revert : Text → Option (Text × Text) → Call
  revert_all : Option (Text × Text) → Call
  switch_branch : Text → Call
  refresh_remote_head : Call
  create_branch : Text → Bool → Option (Text × Text) → Call
  delete_branch : Text → Call
  commit_and_push : Text → Option (List Text) → Option (Text × Text) → Call
  commit_and_push_force_with_lease : Text → Text → Option (List Text) → Option (Text × Text) → Call
  amend_and_push_force_with_lease : Text → Option (List Text) → Option (Text × Text) → Call
  persist : Call
  resolve_pending_commit_publication : Resolution → Call

module _ (host : Host) where
  -- The workspace after a call, whether it has returned or thrown.
  unfoldable pub run_call : Call → Workspace → Workspace
  run_call (write_file path content c o) w = (Facade.write_file host path content c o w).1
  run_call (create_directory path) w = (Facade.create_directory host path w).1
  run_call (delete path recursive) w = (Facade.delete host path recursive w).1
  run_call (rename source target o) w = (Facade.rename host source target o w).1
  run_call (revert path expected) w = (Facade.revert host path expected w).1
  run_call (revert_all expected) w = (Facade.revert_all host expected w).1
  run_call (switch_branch branch) w = (Branches.switch_branch host branch w).1
  run_call refresh_remote_head w = (Branches.refresh_remote_head host w).1
  run_call (create_branch name switch expected) w =
      (Branches.create_branch host name switch expected w).1
  run_call (delete_branch name) w = (Branches.delete_branch host name w).1
  run_call (commit_and_push message selected expected) w =
      (Commits.commit_and_push host message selected expected w).1
  run_call (commit_and_push_force_with_lease message lease selected expected) w =
      (Commits.commit_and_push_force_with_lease host message lease selected expected w).1
  run_call (amend_and_push_force_with_lease message selected expected) w =
      (Commits.amend_and_push_force_with_lease host message selected expected w).1
  run_call persist w = (Facade.persist host w).1
  run_call (resolve_pending_commit_publication resolution) w =
      (Facade.resolve_pending_commit_publication host resolution w).1

  -- The workspaces that a session can reach: one that was opened, and what calls make of it.
  pub data Reached : Workspace → Type 0 where
    opened :
        (default_branch : Text) (persisted : Option WorkspaceSnapshot) (w : Workspace)
        → Facade.open_workspace host default_branch persisted ≡ ok w
        → Reached w
    called : (c : Call) (w : Workspace) → Reached w → Reached (run_call c w)
