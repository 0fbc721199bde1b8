-- ===== src/Examples/Sessions.antt =====
-- A session of a workspace, run on a small repository.
use remotish.Shared.{
  ◌>>=◌, modify, attempt, text, text_eq, ok, none, some, [], ◌∷◌, true, false, ◌≡◌, refl, lookup,
  insert, find_first, text_le,
}
use remotish.Sdk.{Branch, success}
use remotish.Overlay
use remotish.Workspace.{Host, Workspace, get_branches_call, prepared, validate_adapter_contract}
use remotish.Workspace.Branches.{call_get_branches, ensure_workspace, remote_branch}
use remotish.Workspace.Facade.{
  open_workspace, create_workspaces, recover_pending_commit_publication,
}
use remotish.Workspace.Calls.{Call, run_call, Reached}
use remotish.Workspace.Journal.{IsJournaled}
use remotish.Workspace.Recovery.{Reached-IsJournaled}
use remotish.Workspace.Pending.{pending-blocks}
use remotish.Workspace.Requests.{Requests, Compares, compare_head-Compares}
use remotish.WorkingTree.{WorkingTree}
use remotish.Sdk.{CommitRequest, CommitRequestType, normal, modify_file}
use remotish.Examples.{sample_adapter}
use remotish.Examples.Trees.{changed_b}

abbrev main : Branch
main = record { name = text "m"; revision = text "r" }

abbrev pub sample_host : Host
sample_host = record {
  adapter = sample_adapter;
  capabilities = record {
    commits = true;
    local_edits = true;
    force_with_lease = false;
    amend = false;
    create_branch = false;
    delete_branch = false;
  };
  has_commit = true;
  has_create_branch = false;
  has_delete_branch = false;
  get_branches = λ trace. ok (main ∷ []);
  commit = λ trace request. ok (success (text "s"));
  create_branch = λ trace name revision. ok main;
  delete_branch = λ trace name. ok tt;
  save = λ trace snapshot. ok tt;
  locale_le = text_le;
}

abbrev opened : Workspace
opened = record {
  workspaces = (text "m", record { base_revision = text "r"; overlay = Overlay.new_overlay }) ∷ [];
  selected_branch = text "m";
  pending = none;
  trace = get_branches_call (ok (main ∷ [])) ∷ [];
}

open_main : open_workspace sample_host (text "m") none ≡ ok opened
unfolding open_workspace create_workspaces recover_pending_commit_publication
    validate_adapter_contract ensure_workspace remote_branch call_get_branches ◌>>=◌ modify attempt
    lookup insert find_first text_eq
open_main = refl

abbrev written : Workspace
written = run_call sample_host (Call.write_file (text "d/b") (7 ∷ []) false true) opened

abbrev committed : Workspace
committed = run_call sample_host (Call.commit_and_push (text "seven") none none) written

-- Opened, a file written, and the change committed.
Reached-IsJournaled_example : IsJournaled committed.trace
Reached-IsJournaled_example = Reached-IsJournaled sample_host committed (
    Reached.called (Call.commit_and_push (text "seven") none none) written (
      Reached.called (Call.write_file (text "d/b") (7 ∷ []) false true) opened
        (Reached.opened (text "m") none opened open_main)))

abbrev unsettled : Workspace
unsettled = record opened { pending = some (prepared (text "m") (text "r")) }

pending-blocks_example : run_call sample_host (Call.delete (text "a") false) unsettled ≡ unsettled
pending-blocks_example =
    pending-blocks sample_host (Call.delete (text "a") false) unsettled
      (prepared (text "m") (text "r")) refl refl

abbrev edited : Workspace
edited = record opened { workspaces = (text "m", changed_b) ∷ [] }

abbrev request_b : CommitRequest
request_b = record {
  type = CommitRequestType.commit;
  branch = text "m";
  base_revision = text "r";
  message = text "seven";
  changes = modify_file (text "d/b") (7 ∷ []) ∷ [];
  push = normal;
}

compare_head-Compares_example : Compares sample_host (text "s") changed_b
compare_head-Compares_example = compare_head-Compares sample_host (text "s") changed_b
