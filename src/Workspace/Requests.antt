-- ===== src/Workspace/Requests.antt =====
-- The request that a commit sends, and what a refresh of the remote head may change.
use remotish.Shared.{
  Text, ok, true, false, not, ◌&&◌, ◌≡◌, refl, sym, ap, arith, inl, inr, Bool-cases, is_nil,
  text_eq, text_eq_iff, ◌>>=◌,
}
use remotish.Sdk.{CommitRequest, CommitRequestType, normal, force_with_lease}
use remotish.WorkingTree.{WorkingTree, has_changes, rebind_clean_base}
use remotish.ChangeSet.Commits.{DescribesOverlay}
use remotish.Workspace.{Host, Workspace}
use remotish.Workspace.Commits.{
  Operation, normal_commit, force, amend, is_amend, trim, expected_remote_revision,
}
use remotish.Workspace.Branches.{
  RemoteHeadRefreshResult, current_head, updated, pinned, refresh_result, compare_head, rebind,
}

-- The revision that the remote branch must be at for an operation on a base revision.
abbrev pub lease_of : Operation → Text → Text
lease_of normal_commit base_revision = base_revision
lease_of (force lease) base_revision = lease
lease_of (amend lease) base_revision = lease

-- The type and the push mode that each operation sends: only an amendment sends the type `amend`,
-- and only a forced commit and an amendment push over what is there, with the lease they were given.
abbrev pub Pushes : Operation → CommitRequest → Type 0
Pushes normal_commit r = (r.type ≡ CommitRequestType.commit) × (r.push ≡ normal)
Pushes (force lease) r = (r.type ≡ CommitRequestType.commit) × (r.push ≡ force_with_lease lease)
Pushes (amend lease) r = (r.type ≡ CommitRequestType.amend) × (r.push ≡ force_with_lease lease)

-- What a request says of the tree it was made from.
pub record Requests (host : Host) (op : Operation) (message branch : Text) (t : WorkingTree)
    (r : CommitRequest) : Type 0 where
  pub supported : (host.capabilities.commits && host.has_commit) ≡ true
  pub branch_selected : r.branch ≡ branch
  pub based : r.base_revision ≡ t.base_revision
  pub trimmed : r.message ≡ trim message
  pub said : is_nil r.message ≡ false
  pub filled : (is_nil r.changes && not (is_amend op)) ≡ false
  pub pushed : Pushes op r
  pub leased : expected_remote_revision r ≡ lease_of op t.base_revision
  pub described : DescribesOverlay host.adapter t.base_revision host.locale_le t.overlay r.changes

-- What a comparison with the remote head `remote` does to a tree.
pub record Compares (host : Host) (remote : Text) (t : WorkingTree) : Type 0 where
  pub result : RemoteHeadRefreshResult
  pub returns : (compare_head host remote t).0 ≡ ok result
  pub remote_is : result.remote_revision ≡ remote
  pub base_is : result.base_revision ≡ (compare_head host remote t).1.base_revision
  pub overlay_kept : (compare_head host remote t).1.overlay ≡ t.overlay
  pub changes_pinned : has_changes t ≡ true → (compare_head host remote t).1 ≡ t
  pub clean_follows : has_changes t ≡ false → (compare_head host remote t).1.base_revision ≡ remote

rebind-clean :
    (remote : Text) (t : WorkingTree)
    → has_changes t ≡ false
    → rebind remote t ≡ (ok tt, record t { base_revision = remote })
unfolding rebind rebind_clean_base
rebind-clean remote t c = ground (arith, c)

compare_clean :
    (host : Host) (remote : Text) (t : WorkingTree)
    → text_eq remote t.base_revision ≡ false
    → has_changes t ≡ false
    → compare_head host remote t
      ≡ (ok (refresh_result updated remote remote), record t { base_revision = remote })
unfolding compare_head ◌>>=◌
compare_clean host remote t n c = rw (n, c, rebind-clean remote t c) refl

-- Comparing a tree with the remote head never fails. It answers with that head and with the base
-- that the tree then has; it keeps the overlay; a tree with changes stays as it is, and a tree
-- without changes has the remote head as its base.
pub compare_head-Compares : (host : Host) (remote : Text) (t : WorkingTree) → Compares host remote t
unfolding compare_head
compare_head-Compares host remote t = elim (Bool-cases (text_eq remote t.base_revision)) [
  | inl y ↦ record {
    result = refresh_result current_head t.base_revision remote;
    returns = rw y refl;
    remote_is = refl;
    base_is = rw y refl;
    overlay_kept = rw y refl;
    changes_pinned = λ h. rw y refl;
    clean_follows = λ h. ground (arith, y, text_eq_iff remote t.base_revision);
  }
  | inr n ↦ elim (Bool-cases (has_changes t)) [
    | inl c ↦ record {
      result = refresh_result pinned t.base_revision remote;
      returns = rw (n, c) refl;
      remote_is = refl;
      base_is = rw (n, c) refl;
      overlay_kept = rw (n, c) refl;
      changes_pinned = λ h. rw (n, c) refl;
      clean_follows = λ h. absurd (ground (arith, c, h));
    }
    | inr c ↦ record {
      result = refresh_result updated remote remote;
      returns = ap (λ x. x.0) (compare_clean host remote t n c);
      remote_is = refl;
      base_is = sym (ap (λ x. x.1.base_revision) (compare_clean host remote t n c));
      overlay_kept = ap (λ x. x.1.overlay) (compare_clean host remote t n c);
      changes_pinned = λ h. absurd (ground (arith, c, h));
      clean_follows = λ h. ap (λ x. x.1.base_revision) (compare_clean host remote t n c);
    }
  ]
]
