-- ===== src/Workspace/Branches.antt =====
-- packages/core/src/workspace/branch-service.ts and branch-workspaces.ts, and the branch operations
-- of workspace.ts.
use remotish.Shared.{
  Text, text_eq, insert, lookup, delete, Result, ok, err, throw_code, not_found, unsupported,
  invalid_request, Method, pure, attempt, modify, guard, ◌>>=◌, ◌>>◌, Option, none, some, List, ◌∷◌,
  Bool, true, false, not, ◌&&◌, if◌then◌else◌, is_some, find_first,
}
use remotish.Sdk.{Branch}
use remotish.Overlay
use remotish.WorkingTree
use remotish.WorkingTree.{WorkingTree, has_changes}
use remotish.Workspace.{
  Host, Workspace, get_branches_call, create_branch_call, delete_branch_call, current, on_current,
  require_no_pending, require_expected_state, restore, rethrow, snapshot, save_snapshot, try_save,
  emit_changed, mutate, run_local_mutation, mutate_remote_with_result,
}

pub data RefreshStatus : Type 0 where
  current_head updated pinned : RefreshStatus

pub record RemoteHeadRefreshResult : Type 0 where
  pub status : RefreshStatus
  pub base_revision : Text
  pub remote_revision : Text

abbrev pub refresh_result : RefreshStatus → Text → Text → RemoteHeadRefreshResult
refresh_result status base_revision remote_revision = record {
  status = status;
  base_revision = base_revision;
  remote_revision = remote_revision;
}

abbrev pub clean_tree : Text → WorkingTree
clean_tree revision = record { base_revision = revision; overlay = Overlay.new_overlay }

unfoldable pub add_branch : Branch → Workspace → Workspace
add_branch b w = record w { workspaces = insert b.name (clean_tree b.revision) w.workspaces }

unfoldable pub remove_branch : Text → Workspace → Workspace
remove_branch name w = record w { workspaces = delete name w.workspaces }

unfoldable pub branch_has_changes : Text → Workspace → Bool
branch_has_changes name w = elim (lookup name w.workspaces) [
  | none ↦ false
  | some t ↦ has_changes t
]

-- `rebindCleanBase` in place
unfoldable pub rebind : Text → Method WorkingTree (Unit {0})
rebind revision t = elim (WorkingTree.rebind_clean_base revision t) [
  | ok t' ↦ (ok tt, t')
  | err e ↦ (err e, t)
]

abbrev pub found_branch : Option Branch → Result Branch
found_branch none = throw_code not_found
found_branch (some b) = ok b

module _ (host : Host) where
  unfoldable pub call_get_branches : Method Workspace (List Branch)
  call_get_branches w =
      let r = host.get_branches w.trace in (r, record w { trace = get_branches_call r ∷ w.trace })

  -- `find` in the remote's branches; `not_found` where there is none of the name
  unfoldable pub remote_branch : Text → Method Workspace Branch
  remote_branch name = do
    branches ← call_get_branches
    attempt (λ w. found_branch (find_first (λ candidate. text_eq candidate.name name) branches))

  unfoldable pub ensure_workspace : Text → Method Workspace (Unit {0})
  ensure_workspace branch w =
      if is_some (lookup branch w.workspaces)
      then (ok tt, w)
      else (do
        b ← remote_branch branch
        modify (λ v. record v { workspaces = insert branch (clean_tree b.revision) v.workspaces }))
          w

  unfoldable pub switch_to : Text → Method Workspace (Unit {0})
  switch_to branch = do ensure_workspace branch; modify (λ w. record w { selected_branch = branch })

  unfoldable pub switch_branch : Text → Method Workspace (Unit {0})
  switch_branch branch = mutate host (switch_to branch)

  -- The comparison of `refresh`, once the remote branch is known.
  unfoldable pub compare_head : Text → Method WorkingTree RemoteHeadRefreshResult
  compare_head remote_revision t =
      if text_eq remote_revision t.base_revision
      then (ok (refresh_result current_head t.base_revision remote_revision), t)
      else if has_changes t
      then (ok (refresh_result pinned t.base_revision remote_revision), t)
      else (do
        rebind remote_revision
        pure (refresh_result updated remote_revision remote_revision))
          t

  unfoldable pub refresh : Method Workspace RemoteHeadRefreshResult
  refresh = do
    selected ← attempt (λ w. ok w.selected_branch)
    remote ← remote_branch selected
    on_current (compare_head remote.revision)

  abbrev pub is_updated : RemoteHeadRefreshResult → Bool
  is_updated r = elim r.status [ updated ↦ true | _ ↦ false ]

  unfoldable pub refresh_remote_head : Method Workspace RemoteHeadRefreshResult
  refresh_remote_head = do require_no_pending; run_local_mutation host refresh is_updated

  unfoldable pub call_create_branch : Text → Text → Method Workspace Branch
  call_create_branch name revision w =
      let r = host.create_branch w.trace name revision in
      (r, record w { trace = create_branch_call name revision r ∷ w.trace })

  unfoldable pub create : Text → Bool → Method Workspace Branch
  create name switch = do
    guard (host.capabilities.create_branch && host.has_create_branch) unsupported
    t ← attempt current
    b ← call_create_branch name t.base_revision
    modify (add_branch b)
    (if switch then switch_to b.name else pure tt)
    pure b

  unfoldable pub create_branch : Text → Bool → Option (Text × Text) → Method Workspace Branch
  create_branch name switch expected =
      mutate_remote_with_result host do require_expected_state expected; create name switch

  unfoldable pub validate_delete : Text → Method Workspace (Unit {0})
  validate_delete name w = (
    if text_eq name w.selected_branch
        then throw_code invalid_request
        else if branch_has_changes name w
        then throw_code invalid_request
        else if not (host.capabilities.delete_branch && host.has_delete_branch)
        then throw_code unsupported
        else ok tt,
    w,
  )

  unfoldable pub delete_remote : Text → Method Workspace (Unit {0})
  delete_remote name w =
      if host.has_delete_branch
      then (let r = host.delete_branch w.trace name in
          (r, record w { trace = delete_branch_call name r ∷ w.trace }))
      else (throw_code unsupported, w)

  unfoldable pub or_else :
      Result (Unit {0}) × Workspace
      → (Workspace → Result (Unit {0}) × Workspace)
      → Result (Unit {0}) × Workspace
  or_else (ok done, w) handler = (ok done, w)
  or_else (err e, w) handler = rethrow e (handler w)

  -- The removal is saved before the remote deletion; what fails restores the branches.
  unfoldable pub delete_branch : Text → Method Workspace (Unit {0})
  delete_branch name = do
    require_no_pending
    validate_delete name
    before ← attempt (λ w. ok (snapshot host w))
    modify (remove_branch name)
    (λ w. or_else (save_snapshot host w) (restore before))
    (λ w. or_else (delete_remote name w) (do restore before; try_save host))
    emit_changed
