-- ===== src/Workspace/Pending.antt =====
-- packages/core/src/workspace/workspace.ts: calls while a publication is not reconciled.
use remotish.Shared.{Method, some, Bool, true, false, ◌≡◌, arith, ◌>>=◌, ◌>>◌}
use remotish.Workspace.{
  Host, Workspace, PendingCommitPublication, require_no_pending, mutate, mutate_remote_with_result,
}
use remotish.Workspace.Branches
use remotish.Workspace.Facade
use remotish.Workspace.Commits
use remotish.Workspace.Calls.{Call, run_call}

-- The calls other than the resolution of a publication and `persist`, which only saves.
abbrev pub is_mutation : Call → Bool
is_mutation Call.persist = false
is_mutation (Call.resolve_pending_commit_publication r) = false
is_mutation _ = true

blocked {ℓ} :
    {A : Type ℓ} (m : Method Workspace A) (w : Workspace) (p : PendingCommitPublication)
    → w.pending ≡ some p
    → ((require_no_pending >> m) w).1 ≡ w
unfolding ◌>>=◌ require_no_pending
blocked m w p h = ground arith

module _ (host : Host) where
  -- While a publication is pending, no mutation, that is no call that may change the workspace but
  -- `persist` and the resolution of the publication, changes anything: not the trees, the branches,
  -- the journal, nor what the adapter and the storage have been asked, readings of the branches
  -- included, and readings of files and listings at a revision left out.
  pub pending-blocks :
      (c : Call) (w : Workspace) (p : PendingCommitPublication)
      → w.pending ≡ some p
      → is_mutation c ≡ true
      → run_call host c w ≡ w
  unfolding run_call Facade.write_file Facade.create_directory Facade.delete Facade.rename
      Facade.revert Facade.revert_all Branches.switch_branch Branches.refresh_remote_head
      Branches.create_branch Branches.delete_branch Commits.commit_and_push
      Commits.commit_and_push_force_with_lease Commits.amend_and_push_force_with_lease
      Commits.mutate_commit mutate mutate_remote_with_result
  pending-blocks (Call.write_file path content create o) w p h b = blocked _ w p h
  pending-blocks (Call.create_directory path) w p h b = blocked _ w p h
  pending-blocks (Call.delete path recursive) w p h b = blocked _ w p h
  pending-blocks (Call.rename source target o) w p h b = blocked _ w p h
  pending-blocks (Call.revert path e) w p h b = blocked _ w p h
  pending-blocks (Call.revert_all e) w p h b = blocked _ w p h
  pending-blocks (Call.switch_branch branch) w p h b = blocked _ w p h
  pending-blocks Call.refresh_remote_head w p h b = blocked _ w p h
  pending-blocks (Call.create_branch name switch e) w p h b = blocked _ w p h
  pending-blocks (Call.delete_branch name) w p h b = blocked _ w p h
  pending-blocks (Call.commit_and_push m s e) w p h b = blocked _ w p h
  pending-blocks (Call.commit_and_push_force_with_lease m l s e) w p h b = blocked _ w p h
  pending-blocks (Call.amend_and_push_force_with_lease m s e) w p h b = blocked _ w p h
  pending-blocks Call.persist w p h b = cc
  pending-blocks (Call.resolve_pending_commit_publication r) w p h b = cc
