-- ===== src/Workspace/Facade.antt =====
-- The rest of packages/core/src/workspace/workspace.ts: the mutations of the current tree, opening
-- with recovery, and the explicit resolution of a publication.
use remotish.Shared.{
  Text, Bytes, text_eq, Result, ok, err, and_then, throw_code, invalid_request, Method, throw, ◌>>◌,
  Option, none, some, List, [], Bool, false, not, ◌||◌, if◌then◌else◌, is_nil, find_first, resume,
}
use remotish.Sdk.{Branch}
use remotish.WorkingTree.Mutations
use remotish.Workspace.{
  Host, Workspace, WorkspaceSnapshot, PendingCommitPublication, prepared, published, pending_branch,
  on_current, require_expected_state, require_writable, restore, rethrow, restore_workspaces,
  snapshot, save_snapshot, try_save, emit_changed, mutate, validate_adapter_contract,
}
use remotish.Workspace.Branches.{call_get_branches, ensure_workspace}
use remotish.Workspace.Commits.{accept_partially_published_revision, set_pending, trim}

-- What is known of a publication whose outcome was not proven.
pub data Resolution : Type 0 where
  not_published : Resolution
  published_revision : Text → Resolution

module _ (host : Host) where
  unfoldable pub write_file : Text → Bytes → Bool → Bool → Method Workspace (Unit {0})
  write_file path content create overwrite = mutate host do
    require_writable host
    on_current (Mutations.write_file host.adapter path content create overwrite)

  unfoldable pub create_directory : Text → Method Workspace (Unit {0})
  create_directory path =
      mutate host
        do require_writable host; on_current (Mutations.create_directory host.adapter path)

  unfoldable pub delete : Text → Bool → Method Workspace (Unit {0})
  delete path recursive = mutate host do
    require_writable host
    on_current (Mutations.delete host.adapter host.locale_le path recursive)

  unfoldable pub rename : Text → Text → Bool → Method Workspace (Unit {0})
  rename source target overwrite = mutate host do
    require_writable host
    on_current (Mutations.rename host.adapter host.locale_le source target overwrite)

  unfoldable pub revert : Text → Option (Text × Text) → Method Workspace (Unit {0})
  revert path expected =
      mutate host do require_expected_state expected; on_current (Mutations.revert path)

  unfoldable pub revert_all : Option (Text × Text) → Method Workspace (Unit {0})
  revert_all expected =
      mutate host do require_expected_state expected; on_current Mutations.revert_all

  unfoldable pub persist : Method Workspace (Unit {0})
  persist = save_snapshot host

  -- The catch of `resolvePendingCommitPublication`, and the event of its success.
  unfoldable pub conclude_resolution :
      WorkspaceSnapshot
      → PendingCommitPublication
      → Result (Unit {0}) × Workspace
      → Result (Unit {0}) × Workspace
  conclude_resolution s p (ok done, w) = emit_changed w
  conclude_resolution s p (err e, w) = rethrow e ((do restore s; set_pending (some p)) w)

  -- The current tree at the revision that was published, saved without the journal, or restored.
  unfoldable pub resolve_published : Text → PendingCommitPublication → Method Workspace (Unit {0})
  resolve_published revision p w = conclude_resolution (snapshot host w) p (
      (do
        on_current (accept_partially_published_revision host revision)
        set_pending none
        save_snapshot host)
        w)

  unfoldable pub resolve_not_published : PendingCommitPublication → Method Workspace (Unit {0})
  resolve_not_published (published branch expected revision) w = (throw_code invalid_request, w)
  resolve_not_published (prepared branch expected) w =
      let (r, w') = save_snapshot host (record w { pending = none }) in
      elim r [
        | ok done ↦ emit_changed w'
        | err e ↦ (err e, record w' { pending = some (prepared branch expected) })
      ]

  abbrev pub contradicts : Text → PendingCommitPublication → Bool
  contradicts revision (prepared branch expected) = false
  contradicts revision (published branch expected known) = not (text_eq known revision)

  unfoldable pub resolve_as : Resolution → PendingCommitPublication → Method Workspace (Unit {0})
  resolve_as not_published p = resolve_not_published p
  resolve_as (published_revision revision) p =
      if is_nil (trim revision) || contradicts revision p
      then throw invalid_request
      else resolve_published revision p

  unfoldable pub resolve_pending_commit_publication : Resolution → Method Workspace (Unit {0})
  resolve_pending_commit_publication resolution w = elim w.pending [
    | none ↦ (ok tt, w)
    | some p ↦ resolve_as resolution p w
  ]

  -- Whether a prepared publication has certainly not happened: its branch is where it was.
  abbrev pub is_at : Text → Option Branch → Bool
  is_at expected none = false
  is_at expected (some b) = text_eq b.revision expected

  abbrev pub is_unmoved : Text → Text → Result (List Branch) → Bool
  is_unmoved branch expected (err e) = false
  is_unmoved branch expected (ok branches) =
      is_at expected (find_first (λ candidate. text_eq candidate.name branch) branches)

  unfoldable pub settle_unmoved :
      Text → Text → Result (List Branch) × Workspace → Result (Unit {0}) × Workspace
  settle_unmoved branch expected (answer, w) =
      if is_unmoved branch expected answer
      then try_save host (record w { pending = none })
      else (ok tt, w)

  -- A tree at the published revision is saved without the journal; else the journal stays.
  unfoldable pub conclude_recovery : Result (Unit {0}) × Workspace → Result (Unit {0}) × Workspace
  conclude_recovery (ok done, w) = try_save host (record w { pending = none })
  conclude_recovery (err e, w) = (ok tt, w)

  -- `recoverPendingCommitPublication` for the selected branch
  unfoldable pub recover_selected : PendingCommitPublication → Method Workspace (Unit {0})
  recover_selected (prepared branch expected) w =
      settle_unmoved branch expected (call_get_branches host w)
  recover_selected (published branch expected revision) w =
      conclude_recovery (on_current (accept_partially_published_revision host revision) w)

  unfoldable pub recover_pending_commit_publication : Method Workspace (Unit {0})
  recover_pending_commit_publication w = elim w.pending [
    | none ↦ (ok tt, w)
    | some p ↦
        if not (text_eq w.selected_branch (pending_branch p))
        then (throw_code invalid_request, w)
        else recover_selected p w
  ]

  abbrev pub new_workspace : Text → Option PendingCommitPublication → Workspace
  new_workspace branch pending = record {
    workspaces = [];
    selected_branch = branch;
    pending = pending;
    trace = [];
  }

  -- `BranchWorkspaces.create`
  unfoldable pub create_workspaces : Text → Option WorkspaceSnapshot → Result (Unit {0}) × Workspace
  create_workspaces default_branch none =
      ensure_workspace host default_branch (new_workspace default_branch none)
  create_workspaces default_branch (some s) =
      (do restore_workspaces s.branches; ensure_workspace host s.selected_branch)
        (new_workspace s.selected_branch s.pending_commit_publication)

  -- `RemotishWorkspace.open`, with the repository's default branch and what the storage has loaded.
  unfoldable pub open_workspace : Text → Option WorkspaceSnapshot → Result Workspace
  open_workspace default_branch persisted = and_then (validate_adapter_contract host) λ valid.
      let created = create_workspaces default_branch persisted in
      let (r, w) = resume created.0 (λ done. recover_pending_commit_publication) created.1 in
      and_then r λ done. ok w
