-- ===== src/Workspace/Publication.antt =====
-- packages/core/src/commit/commit-service.ts and workspace.ts: commits and the journal in the trace.
use remotish.Shared.{
  Text, Method, Result-cases, Option-cases, Bool-cases, Option, none, some, List, refl, arith, inl,
  inr, ◌>>=◌, ◌>>◌,
}
use remotish.Sdk.{CommitRequest, CommitResult, success, rejected}
use remotish.Workspace.{
  Host, Workspace, WorkspaceSnapshot, prepared, save_snapshot, try_save, snapshot,
}
use remotish.Workspace.Commits.{
  Operation, CommitExecutionResult, settled, expected_remote_revision, before_publish,
  after_publish, call_commit, reconcile, settle_result, execute, conclude, mutate_commit,
  is_prepared, accept_all, accept_partially_published_revision, withdraw_journal, Reconciliation,
  pending, commit_and_push, commit_and_push_force_with_lease, amend_and_push_force_with_lease,
}
use remotish.Workspace.Journal.{
  Keeps, IsJournaled-call, save-IsJournaled, resume-Keeps, bind-Keeps, pure-Keeps, attempt-Keeps,
  same_trace-Keeps, trace-on_current, on_current-Keeps, method_rules, require_expected_state-Keeps,
  emit_changed-Keeps, try_save-Keeps, changed_after-Keeps, set_pending-Keeps,
}

module _ (host : Host) where
  after_publish-Keeps : (revision : Text) → Keeps (after_publish host revision)
  unfolding after_publish try_save save_snapshot
  after_publish-Keeps revision = record {
    at = λ w j. elim (Bool-cases (is_prepared host w.pending)) [ inl y ↦ rw y j | inr n ↦ rw n j ];
  }

  reconcile-Keeps :
      (selected : Option (List Text)) (revision : Text) → Keeps (reconcile host selected revision)
  unfolding reconcile
  reconcile-Keeps none revision = record {
    at = λ w j.
        (bind-Keeps _ _ (on_current-Keeps (accept_all revision)) (λ d. pure-Keeps settled)).at w j;
  }
  reconcile-Keeps (some s) revision =
      same_trace-Keeps _ (λ w.
        ground (arith, trace-on_current (accept_partially_published_revision host revision) w))

  settle_result-Keeps :
      (selected : Option (List Text)) (r : CommitResult) → Keeps (settle_result host selected r)
  unfolding settle_result
  settle_result-Keeps selected (rejected reason) = search method_rules
  settle_result-Keeps selected (success revision) =
      search (method_rules, after_publish-Keeps, reconcile-Keeps)

  -- A publication follows its journal.
  publish-Keeps :
      (request : CommitRequest) (f : CommitResult → Method Workspace CommitExecutionResult)
      → ((r : CommitResult) → Keeps (f r))
      → Keeps (before_publish host request >> (call_commit host request >>= f))
  unfolding ◌>>=◌ before_publish call_commit save_snapshot snapshot
  publish-Keeps request f k = record {
    at = λ w j.
        let p = prepared request.branch (expected_remote_revision request) in
        let w' : Workspace = (save_snapshot host (record w { pending = some p })).1 in
        let s : WorkspaceSnapshot = snapshot host (record w { pending = some p }) in
        elim (Result-cases (host.save w.trace s)) [
          | inl (done, h) ↦ rw h (
              resume-Keeps (host.commit _ request) f _ k
                (IsJournaled-call request (host.commit w'.trace request) s _ done w.trace h refl j))
          | inr (e, h) ↦ rw h j
        ];
  }

  withdraw-Keeps : Keeps (withdraw_journal host)
  unfolding withdraw_journal
  withdraw-Keeps = record {
    at = λ w j. elim (Option-cases w.pending) [
      | inl n ↦ rw n j
      | inr (p, h) ↦ rw h (save-IsJournaled host (record w { pending = none }) j)
    ];
  }

  conclude-Keeps : (r : CommitResult) (c : Reconciliation) → Keeps (conclude host r c)
  unfolding conclude
  conclude-Keeps (success revision) settled =
      search (method_rules, set_pending-Keeps, changed_after-Keeps)
  conclude-Keeps (success revision) pending =
      search (method_rules, try_save-Keeps, emit_changed-Keeps)
  conclude-Keeps (rejected reason) c = withdraw-Keeps

  execute-Keeps :
      (op : Operation) (message : Text) (selected : Option (List Text))
      → Keeps (execute host op message selected)
  unfolding execute
  execute-Keeps op message selected =
      bind-Keeps _ _ (attempt-Keeps _)
        (λ request. publish-Keeps request _ (settle_result-Keeps selected))

  mutate_commit-Keeps :
      (m : Method Workspace CommitExecutionResult) → Keeps m → Keeps (mutate_commit host m)
  unfolding mutate_commit
  mutate_commit-Keeps m k = search (method_rules, conclude-Keeps)

  ruleset commit_rules =
      (method_rules, require_expected_state-Keeps, execute-Keeps, mutate_commit-Keeps)

  pub commit_and_push-Keeps :
      (message : Text) (selected : Option (List Text)) (expected : Option (Text × Text))
      → Keeps (commit_and_push host message selected expected)
  unfolding commit_and_push
  commit_and_push-Keeps message selected expected = search commit_rules

  pub force-Keeps :
      (message lease : Text) (selected : Option (List Text)) (expected : Option (Text × Text))
      → Keeps (commit_and_push_force_with_lease host message lease selected expected)
  unfolding commit_and_push_force_with_lease
  force-Keeps message lease selected expected = search commit_rules

  pub amend-Keeps :
      (message : Text) (selected : Option (List Text)) (expected : Option (Text × Text))
      → Keeps (amend_and_push_force_with_lease host message selected expected)
  unfolding amend_and_push_force_with_lease
  amend-Keeps message selected expected = search commit_rules
