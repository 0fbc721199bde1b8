-- ===== src/Workspace/Recovery.antt =====
-- packages/core/src/workspace/workspace.ts: the deletion of branches, recovery, resolution and whole
-- sessions, and the journal in the trace.
use remotish.Shared.{
  Text, Result, ok, err, and_then, Failure, Method, Result-cases, Option-cases, Bool-cases, List,
  Option, none, some, ◌≡◌, refl, inl, inr, ◌>>◌, resume, modify, text_eq, and_then-ok,
}
use mathlib.Core.Path.{subst}
use remotish.Workspace.{
  Host, Workspace, WorkspaceSnapshot, PendingCommitPublication, prepared, published, restore,
  rethrow, save_snapshot, snapshot, try_save, pending_branch, validate_adapter_contract,
}
use remotish.Sdk.{Branch}
use remotish.Workspace.Branches.{
  call_get_branches, validate_delete, remove_branch, delete_remote, or_else, delete_branch,
}
use remotish.Workspace.Facade
use remotish.Workspace.Facade.{
  Resolution, not_published, published_revision, conclude_resolution, resolve_published,
  resolve_not_published, resolve_as, resolve_pending_commit_publication, recover_selected,
  conclude_recovery, recover_pending_commit_publication, create_workspaces, open_workspace,
  settle_unmoved, is_unmoved,
}
use remotish.Workspace.Calls.{Call, run_call, Reached, opened, called}
use remotish.Workspace.Journal.{
  Keeps, IsJournaled, bind-Keeps, attempt-Keeps, modify-Keeps, same_trace-Keeps, method_rules,
  emit_changed-Keeps, save_snapshot-Keeps, save-IsJournaled, try_save-Keeps,
  require_no_pending-Keeps, set_pending-Keeps, resume-Keeps, on_current-Keeps,
}
use remotish.Workspace.Publication.{commit_and_push-Keeps, force-Keeps, amend-Keeps}
use remotish.Workspace.Sessions.{
  call_get_branches-Keeps, restore_workspaces-Keeps, restore-Keeps, trace-rethrow, write_file-Keeps,
  create_directory-Keeps, delete-Keeps, rename-Keeps, revert-Keeps, revert_all-Keeps,
  ensure_workspace-Keeps, switch_branch-Keeps, refresh-Keeps, create_branch-Keeps,
}

rethrow-IsJournaled :
    (e : Failure) (x : Result (Unit {0}) × Workspace)
    → IsJournaled x.1.trace
    → IsJournaled (rethrow {A = Unit {0}} e x).1.trace
rethrow-IsJournaled e x j = rw (trace-rethrow (Unit {0}) e x) j

the_same : {v w : Workspace} → ok v ≡ ok w → v ≡ w
the_same e = cc

module _ (host : Host) where
  trace-validate_delete :
      (name : Text) (w : Workspace) → (validate_delete host name w).1.trace ≡ w.trace
  unfolding validate_delete
  trace-validate_delete name w = refl

  delete_remote-Keeps : (name : Text) → Keeps (delete_remote host name)
  unfolding delete_remote
  delete_remote-Keeps name = record {
    at = λ w j. elim (Bool-cases host.has_delete_branch) [ inl y ↦ rw y j | inr n ↦ rw n j ];
  }

  or_else-IsJournaled :
      (x : Result (Unit {0}) × Workspace) (m : Method Workspace (Unit {0}))
      → Keeps m
      → IsJournaled x.1.trace
      → IsJournaled (or_else host x m).1.trace
  unfolding or_else
  or_else-IsJournaled (ok d, w) m k j = j
  or_else-IsJournaled (err e, w) m k j = rethrow-IsJournaled e (m w) (k.at w j)

  or_else-Keeps :
      (l m : Method Workspace (Unit {0})) → Keeps l → Keeps m → Keeps (λ w. or_else host (l w) m)
  or_else-Keeps l m k k' = record { at = λ w j. or_else-IsJournaled (l w) m k' (k.at w j) }

  validate_delete-Keeps : (name : Text) → Keeps (validate_delete host name)
  validate_delete-Keeps name = same_trace-Keeps _ (trace-validate_delete name)

  remove_branch-Keeps : (name : Text) → Keeps (modify (remove_branch name))
  unfolding remove_branch
  remove_branch-Keeps name = modify-Keeps _ (λ w j. j)

  undo-Keeps : (s : WorkspaceSnapshot) → Keeps (do restore s; try_save host)
  undo-Keeps s = bind-Keeps _ _ (restore-Keeps s) (λ d. try_save-Keeps host)

  delete_branch-Keeps : (name : Text) → Keeps (delete_branch host name)
  unfolding delete_branch
  delete_branch-Keeps name = bind-Keeps _ _ require_no_pending-Keeps λ d.
      bind-Keeps _ _ (validate_delete-Keeps name) λ v. bind-Keeps _ _ (attempt-Keeps _) λ s.
        bind-Keeps _ _ (remove_branch-Keeps name) λ r.
          bind-Keeps _ _ (or_else-Keeps _ _ (save_snapshot-Keeps host) (restore-Keeps s)) λ x.
            bind-Keeps _ _ (or_else-Keeps _ _ (delete_remote-Keeps name) (undo-Keeps s))
              λ y. emit_changed-Keeps

  conclude_resolution-IsJournaled :
      (s : WorkspaceSnapshot) (p : PendingCommitPublication) (x : Result (Unit {0}) × Workspace)
      → IsJournaled x.1.trace
      → IsJournaled (conclude_resolution host s p x).1.trace
  unfolding conclude_resolution
  conclude_resolution-IsJournaled s p (ok d, w) j = emit_changed-Keeps.at w j
  conclude_resolution-IsJournaled s p (err e, w) j =
      rethrow-IsJournaled e _
        ((bind-Keeps _ _ (restore-Keeps s) (λ d. set_pending-Keeps host (some p))).at w j)

  resolve_published-Keeps :
      (revision : Text) (p : PendingCommitPublication) → Keeps (resolve_published host revision p)
  unfolding resolve_published
  resolve_published-Keeps revision p = record {
    at = λ w j. conclude_resolution-IsJournaled (snapshot host w) p _ (
        (bind-Keeps _ _ (on_current-Keeps _)
            (λ d. bind-Keeps _ _ (set_pending-Keeps host none) (λ e. save_snapshot-Keeps host))).at
          w j);
  }

  resolve_not_published-Keeps :
      (p : PendingCommitPublication) → Keeps (resolve_not_published host p)
  unfolding resolve_not_published save_snapshot
  resolve_not_published-Keeps (published b e r) = record { at = λ w j. j }
  resolve_not_published-Keeps (prepared b e) = record {
    at = λ w j. elim (Result-cases (save_snapshot host (record w { pending = none })).0) [
      | inl (d, h) ↦ rw h (emit_changed-Keeps.at _ j)
      | inr (f, h) ↦ rw h j
    ];
  }

  resolve_as-Keeps : (r : Resolution) (p : PendingCommitPublication) → Keeps (resolve_as host r p)
  unfolding resolve_as
  resolve_as-Keeps not_published p = resolve_not_published-Keeps p
  resolve_as-Keeps (published_revision revision) p = search (method_rules, resolve_published-Keeps)

  resolve-Keeps : (r : Resolution) → Keeps (resolve_pending_commit_publication host r)
  unfolding resolve_pending_commit_publication
  resolve-Keeps r = record {
    at = λ w j. elim (Option-cases w.pending) [
      | inl n ↦ rw n j
      | inr (p, h) ↦ rw h ((resolve_as-Keeps r p).at (record w { pending = some p }) j)
    ];
  }

  conclude_recovery-IsJournaled :
      (x : Result (Unit {0}) × Workspace)
      → IsJournaled x.1.trace
      → IsJournaled (conclude_recovery host x).1.trace
  unfolding conclude_recovery
  conclude_recovery-IsJournaled (ok d, w) j =
      (try_save-Keeps host).at (record w { pending = none }) j
  conclude_recovery-IsJournaled (err e, w) j = j

  settle_unmoved-IsJournaled :
      (branch expected : Text) (x : Result (List Branch) × Workspace)
      → IsJournaled x.1.trace
      → IsJournaled (settle_unmoved host branch expected x).1.trace
  unfolding settle_unmoved try_save save_snapshot
  settle_unmoved-IsJournaled branch expected (answer, w) j =
      elim (Bool-cases (is_unmoved host branch expected answer)) [ inl y ↦ rw y j | inr n ↦ rw n j ]

  recover_selected-Keeps : (p : PendingCommitPublication) → Keeps (recover_selected host p)
  unfolding recover_selected try_save save_snapshot
  recover_selected-Keeps (prepared b e) = record {
    at = λ w j.
        settle_unmoved-IsJournaled b e (call_get_branches host w)
          ((call_get_branches-Keeps host).at w j);
  }
  recover_selected-Keeps (published b e revision) = record {
    at = λ w j. conclude_recovery-IsJournaled _ ((on_current-Keeps _).at w j);
  }

  recover-Keeps : Keeps (recover_pending_commit_publication host)
  unfolding recover_pending_commit_publication
  recover-Keeps = record {
    at = λ w j. elim (Option-cases w.pending) [
      | inl n ↦ rw n j
      | inr (p, h) ↦ elim (Bool-cases (text_eq w.selected_branch (pending_branch p))) [
        | inl y ↦ rw (h, y) ((recover_selected-Keeps p).at (record w { pending = some p }) j)
        | inr n ↦ rw (h, n) j
      ]
    ];
  }

  create_workspaces-IsJournaled :
      (branch : Text) (persisted : Option WorkspaceSnapshot)
      → IsJournaled (create_workspaces host branch persisted).1.trace
  unfolding create_workspaces
  create_workspaces-IsJournaled branch none = (ensure_workspace-Keeps host branch).at _ tt
  create_workspaces-IsJournaled branch (some s) =
      (bind-Keeps _ _ (restore_workspaces-Keeps s.branches)
          (λ d. ensure_workspace-Keeps host s.selected_branch)).at
        _ tt

  open-IsJournaled :
      (branch : Text) (persisted : Option WorkspaceSnapshot) (w : Workspace)
      → open_workspace host branch persisted ≡ ok w
      → IsJournaled w.trace
  unfolding open_workspace
  open-IsJournaled branch persisted w e =
      let c = create_workspaces host branch persisted in
      let x = resume c.0 (λ u. recover_pending_commit_publication host) c.1 in
      let (v, h, e') =
        and_then-ok (validate_adapter_contract host) (λ v. and_then x.0 λ d. ok x.1) e in
      let (d, h', e'') = and_then-ok x.0 (λ d. ok x.1) e' in
      subst (λ y. IsJournaled y.trace) {x = x.1} (the_same e'')
        (resume-Keeps c.0 (λ u. recover_pending_commit_publication host) c.1 (λ u. recover-Keeps)
          (create_workspaces-IsJournaled branch persisted))

  run_call-IsJournaled :
      (c : Call) (w : Workspace) → IsJournaled w.trace → IsJournaled (run_call host c w).trace
  unfolding run_call Facade.persist
  run_call-IsJournaled (Call.write_file p b c o) w j = (write_file-Keeps host p b c o).at w j
  run_call-IsJournaled (Call.create_directory p) w j = (create_directory-Keeps host p).at w j
  run_call-IsJournaled (Call.delete p r) w j = (delete-Keeps host p r).at w j
  run_call-IsJournaled (Call.rename s t o) w j = (rename-Keeps host s t o).at w j
  run_call-IsJournaled (Call.revert p e) w j = (revert-Keeps host p e).at w j
  run_call-IsJournaled (Call.revert_all e) w j = (revert_all-Keeps host e).at w j
  run_call-IsJournaled (Call.switch_branch b) w j = (switch_branch-Keeps host b).at w j
  run_call-IsJournaled Call.refresh_remote_head w j = (refresh-Keeps host).at w j
  run_call-IsJournaled (Call.create_branch n s e) w j = (create_branch-Keeps host n s e).at w j
  run_call-IsJournaled (Call.delete_branch n) w j = (delete_branch-Keeps n).at w j
  run_call-IsJournaled (Call.commit_and_push m s e) w j = (commit_and_push-Keeps host m s e).at w j
  run_call-IsJournaled (Call.commit_and_push_force_with_lease m l s e) w j =
      (force-Keeps host m l s e).at w j
  run_call-IsJournaled (Call.amend_and_push_force_with_lease m s e) w j =
      (amend-Keeps host m s e).at w j
  run_call-IsJournaled Call.persist w j = save-IsJournaled host w j
  run_call-IsJournaled (Call.resolve_pending_commit_publication r) w j = (resolve-Keeps r).at w j

-- In every session, whatever calls are made in whatever order and whatever adapter and storage
-- answer, each commit that is sent to the adapter comes right after a save that has succeeded, of
-- a snapshot with the journal of that publication: its branch and the remote revision it expects.
pub Reached-IsJournaled : (host : Host) (w : Workspace) → Reached host w → IsJournaled w.trace
Reached-IsJournaled host v (opened branch persisted w e) =
    open-IsJournaled host branch persisted w e
Reached-IsJournaled host v (called c w r) =
    run_call-IsJournaled host c w (Reached-IsJournaled host w r)
