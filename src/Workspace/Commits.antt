-- ===== src/Workspace/Commits.antt =====
-- packages/core/src/commit/commit-service.ts, and `mutateCommit` of workspace.ts around it.
use remotish.Shared.{
  Text, Result, ok, err, and_then, throw_code, unsupported, invalid_request, Method, pure, attempt,
  modify, guard, ◌>>=◌, ◌>>◌, Option, none, some, List, [], ◌∷◌, Bool, true, false, not, ◌&&◌, ◌||◌,
  if◌then◌else◌, is_nil, ◌==◌, leb, ℕ,
}
use remotish.Sdk.{
  CommitRequest, CommitRequestType, normal, force_with_lease, CommitResult, success, rejected,
  Change,
}
use remotish.Overlay
use remotish.WorkingTree
use remotish.WorkingTree.{WorkingTree}
use remotish.ChangeSet
use remotish.Workspace.{
  Host, Workspace, commit_call, PendingCommitPublication, prepared, published, current, on_current,
  require_no_pending, require_expected_state, save_snapshot, try_save, emit_changed,
  changed_after_remote_success,
}

-- `String.prototype.trim`: white space and line ends of ECMAScript
abbrev pub is_white_space : ℕ → Bool
is_white_space c =
    (leb 9 c && leb c 13)
    || c == 32
    || c == 160
    || c == 0x1680
    || (leb 0x2000 c && leb c 0x200a)
    || c == 0x2028
    || c == 0x2029
    || c == 0x202f
    || c == 0x205f
    || c == 0x3000
    || c == 0xfeff

unfoldable pub trim_left : Text → Text
trim_left [] = []
trim_left (c ∷ s) = if is_white_space c then trim_left s else c ∷ s

unfoldable pub trim_right : Text → Text
trim_right [] = []
trim_right (c ∷ s) =
    let rest = trim_right s in if is_white_space c && is_nil rest then [] else c ∷ rest

unfoldable pub trim : Text → Text
trim s = trim_right (trim_left s)

pub data Operation : Type 0 where
  normal_commit : Operation
  force : Text → Operation
  amend : Text → Operation

pub data Reconciliation : Type 0 where
  settled pending : Reconciliation

pub record CommitExecutionResult : Type 0 where
  pub result : CommitResult
  pub reconciliation : Reconciliation

abbrev pub is_amend : Operation → Bool
is_amend (amend lease) = true
is_amend _ = false

unfoldable pub build_request : Operation → Text → Text → Text → List Change → CommitRequest
build_request normal_commit branch base_revision message changes = record {
  type = CommitRequestType.commit;
  branch = branch;
  base_revision = base_revision;
  message = message;
  changes = changes;
  push = normal;
}
build_request (force lease) branch base_revision message changes = record {
  type = CommitRequestType.commit;
  branch = branch;
  base_revision = base_revision;
  message = message;
  changes = changes;
  push = force_with_lease lease;
}
build_request (amend lease) branch base_revision message changes = record {
  type = CommitRequestType.amend;
  branch = branch;
  base_revision = base_revision;
  message = message;
  changes = changes;
  push = force_with_lease lease;
}

-- `request.push.mode === 'normal' ? request.baseRevision : request.push.expectedRevision`
abbrev pub expected_remote_revision : CommitRequest → Text
expected_remote_revision request = elim request.push [
  | normal ↦ request.base_revision
  | force_with_lease lease ↦ lease
]

-- `acceptPartiallyPublishedRevision`, on a copy of the overlay until it has succeeded
unfoldable pub accept_partially_published_revision : Host → Text → Method WorkingTree (Unit {0})
accept_partially_published_revision host revision t =
    elim (and_then (Overlay.restore (Overlay.snapshot host.locale_le t.overlay)) λ copy.
      and_then
        (ChangeSet.rebase_overlay_after_partial_publish host.adapter revision host.locale_le copy)
        λ rebased. Overlay.restore (Overlay.snapshot host.locale_le rebased)) [
          | ok o ↦ (ok tt, record { base_revision = revision; overlay = o })
          | err e ↦ (err e, t)
        ]

unfoldable pub accept_all : Text → Method WorkingTree (Unit {0})
accept_all revision t = (ok tt, WorkingTree.accept_published_revision revision t)

abbrev pub set_pending : Option PendingCommitPublication → Method Workspace (Unit {0})
set_pending p = modify (λ w. record w { pending = p })

module _ (host : Host) where
  -- The journal of `mutateCommit`: durable before the publication, or there is no publication.
  unfoldable pub before_publish : CommitRequest → Method Workspace (Unit {0})
  before_publish request w =
      let p = prepared request.branch (expected_remote_revision request) in
      let (r, w') = save_snapshot host (record w { pending = some p }) in
      elim r [ ok done ↦ (ok tt, w') | err e ↦ (err e, record w' { pending = none }) ]

  abbrev pub publish_journal :
      Text → Option PendingCommitPublication → Option PendingCommitPublication
  publish_journal revision (some (prepared branch expected)) =
      some (published branch expected revision)
  publish_journal revision p = p

  abbrev pub is_prepared : Option PendingCommitPublication → Bool
  is_prepared (some (prepared branch expected)) = true
  is_prepared _ = false

  unfoldable pub after_publish : Text → Method Workspace (Unit {0})
  after_publish revision w =
      if is_prepared w.pending
      then try_save host (record w { pending = publish_journal revision w.pending })
      else (ok tt, w)

  unfoldable pub call_commit : CommitRequest → Method Workspace CommitResult
  call_commit request w =
      let r = host.commit w.trace request in
      (r, record w { trace = commit_call request r ∷ w.trace })

  -- After a success: all of the tree, or the published part of it, moves to the new revision.
  unfoldable pub reconcile : Option (List Text) → Text → Method Workspace Reconciliation
  reconcile none revision w = (do on_current (accept_all revision); pure settled) w
  reconcile (some selected) revision w =
      let (r, w') = on_current (accept_partially_published_revision host revision) w in
      elim r [ ok done ↦ (ok settled, w') | err e ↦ (ok pending, w') ]

  unfoldable pub settle_result :
      Option (List Text) → CommitResult → Method Workspace CommitExecutionResult
  settle_result selected (rejected reason) =
      pure (record { result = rejected reason; reconciliation = settled })
  settle_result selected (success revision) = do
    after_publish revision
    reconciliation ← reconcile selected revision
    pure (record { result = success revision; reconciliation = reconciliation })

  -- Everything before the publication: the guards, and the request.
  unfoldable pub prepare_request :
      Operation → Text → Option (List Text) → Workspace → Result CommitRequest
  prepare_request operation message selected w = and_then (current w) λ t.
      if not (host.capabilities.commits && host.has_commit)
      then throw_code unsupported
      else if is_nil (trim message)
      then throw_code invalid_request
      else (and_then
          (ChangeSet.build_commit_changes host.adapter t.base_revision host.locale_le t.overlay
            selected)
          λ changes.
            if is_nil changes && not (is_amend operation)
            then throw_code invalid_request
            else ok
                (build_request operation w.selected_branch t.base_revision (trim message) changes))

  unfoldable pub execute :
      Operation → Text → Option (List Text) → Method Workspace CommitExecutionResult
  execute operation message selected = do
    request ← attempt (prepare_request operation message selected)
    before_publish request
    result ← call_commit request
    settle_result selected result

  -- The end of `mutateCommit`: what a result makes of the journal.
  unfoldable pub withdraw_journal : Method Workspace (Unit {0})
  withdraw_journal w = elim w.pending [
    | none ↦ (ok tt, w)
    | some p ↦ save_snapshot host (record w { pending = none })
  ]

  unfoldable pub conclude : CommitResult → Reconciliation → Method Workspace (Unit {0})
  conclude (success revision) settled = do set_pending none; changed_after_remote_success host
  conclude (success revision) pending = do try_save host; emit_changed
  conclude (rejected reason) reconciliation = withdraw_journal

  unfoldable pub mutate_commit :
      Method Workspace CommitExecutionResult → Method Workspace CommitResult
  mutate_commit operation = do
    require_no_pending
    x ← operation
    conclude x.result x.reconciliation
    pure x.result

  unfoldable pub commit_and_push :
      Text → Option (List Text) → Option (Text × Text) → Method Workspace CommitResult
  commit_and_push message selected expected =
      mutate_commit do require_expected_state expected; execute normal_commit message selected

  unfoldable pub commit_and_push_force_with_lease :
      Text → Text → Option (List Text) → Option (Text × Text) → Method Workspace CommitResult
  commit_and_push_force_with_lease message lease selected expected = mutate_commit do
    require_expected_state expected
    t ← attempt current
    guard host.capabilities.force_with_lease unsupported
    execute (force lease) message selected

  unfoldable pub amend_and_push_force_with_lease :
      Text → Option (List Text) → Option (Text × Text) → Method Workspace CommitResult
  amend_and_push_force_with_lease message selected expected = mutate_commit do
    require_expected_state expected
    t ← attempt current
    guard (host.capabilities.amend && host.capabilities.force_with_lease) unsupported
    execute (amend t.base_revision) message selected
