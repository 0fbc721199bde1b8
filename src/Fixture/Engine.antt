-- ===== src/Fixture/Engine.antt =====
-- packages/adapter-fixture/src/commit-engine.ts: what a commit request comes to.
use remotish.Shared.{
  Text, Bytes, text_eq, text_eq→eq, Dict, lookup, insert, Result, ok, err, attempt, pure, throw,
  ◌>>=◌, invalid_request, Failure, Option, none, some, List, [], ◌∷◌, Bool, true, false, not, ◌&&◌,
  if◌then◌else◌, is_nil, ℕ, suc, ◌≡◌, ◌≢◌, refl, sym, ap, ◌∙◌, text_eq_refl, Bool-cases,
  Result-cases, Option-cases, inl, inr,
}
use remotish.Sdk.{CommitRequest, CommitRequestType, Push, normal, force_with_lease}
use remotish.Sdk.History.{PublishedCommit, success}
use remotish.Workspace.Commits.{trim}
use remotish.Fixture.{StoredCommit, Fixture, apply_changes, require_commit}
use remotish.Fixture.Commits.{
  revision_name, remote_changed_to, info_of, store, create_child, create_amended, publish, head_of,
  is_amend, execute_at, execute,
}

-- Where the head of the branch has to be.
abbrev expected_for : Text → Push → Text
expected_for base_revision normal = base_revision
expected_for base_revision (force_with_lease lease) = lease

abbrev pub expected_head : CommitRequest → Text
expected_head r = expected_for r.base_revision r.push

-- A request with a lease that amends.
abbrev replaces : CommitRequestType → Push → Bool
replaces type normal = false
replaces type (force_with_lease lease) = is_amend type

abbrev pub replaces_head : CommitRequest → Bool
replaces_head r = replaces r.type r.push

abbrev pub parents_of : CommitRequest → StoredCommit → List Text
parents_of r base = if replaces_head r then base.info.parents else r.base_revision ∷ []

module _ (iso_date : ℕ → Text) (r : CommitRequest) (f : Fixture) where
  -- The commit that is stored, and the state with it at the head of the branch.
  abbrev pub stored_commit : List Text → Dict Bytes → StoredCommit
  stored_commit parents files = record {
    info = info_of iso_date parents (trim r.message) f.sequence;
    files = files;
  }

  abbrev pub published_state : List Text → Dict Bytes → Fixture
  published_state parents files = record f {
    commits = insert (revision_name f.sequence) (stored_commit parents files) f.commits;
    branches = insert r.branch (revision_name f.sequence) f.branches;
    sequence = suc f.sequence;
  }

  -- A refusal and a rejection change nothing. A publication needs the head where the request
  -- expects it, a base and changes that fit it, and puts the new commit at the head.
  pub data Outcome : Result PublishedCommit × Fixture → Type 0 where
    refused : (e : Failure) → Outcome (err e, f)
    outdated :
        (head : Text)
        → lookup r.branch f.branches ≡ some head
        → head ≢ expected_head r
        → Outcome (ok (remote_changed_to head), f)
    published :
        (base : StoredCommit) (parents : List Text) (files : Dict Bytes)
        → lookup r.branch f.branches ≡ some (expected_head r)
        → lookup r.base_revision f.commits ≡ some base
        → apply_changes base.files r.changes ≡ ok files
        → (replaces_head r ≡ true → expected_head r ≡ r.base_revision)
        → parents ≡ parents_of r base
        → Outcome (
          ok (success (revision_name f.sequence) (stored_commit parents files).info),
          published_state parents files,
        )

-- The last steps of a publication, once the base commit is known.
module _ (iso_date : ℕ → Text) (r : CommitRequest) (f : Fixture) (base : StoredCommit)
    (at_head : lookup r.branch f.branches ≡ some (expected_head r))
    (at_base : lookup r.base_revision f.commits ≡ some base) where
  create_child-Outcome :
      replaces_head r ≡ false
      → Outcome iso_date r f (
          (create_child iso_date r.base_revision (trim r.message) r.changes >>= publish r.branch) f)
  unfolding create_child ◌>>=◌ require_commit store publish info_of
  create_child-Outcome child = elim (Result-cases (apply_changes base.files r.changes)) [
    | inr (e, fails) ↦ rw (at_base, fails) (refused e)
    | inl (files, applied) ↦
        rw (at_base, applied)
          (published base (r.base_revision ∷ []) files at_head at_base applied (λ a. absurd cc)
            (rw child refl))
  ]

  create_amended-Outcome :
      replaces_head r ≡ true
      → expected_head r ≡ r.base_revision
      → Outcome iso_date r f (
          (create_amended iso_date r.base_revision (trim r.message) r.changes >>= publish r.branch)
            f)
  unfolding create_amended ◌>>=◌ require_commit store publish info_of
  create_amended-Outcome amends same = elim (Result-cases (apply_changes base.files r.changes)) [
    | inr (e, fails) ↦ rw (at_base, fails) (refused e)
    | inl (files, applied) ↦
        rw (at_base, applied)
          (published base base.info.parents files at_head at_base applied (λ a. same)
            (rw amends refl))
  ]

differs : (s t u : Text) → text_eq s t ≡ false → u ≡ t → s ≢ u
differs s t u other q e = let same : text_eq s t ≡ true = rw (e, q) (text_eq_refl t) in cc

module _ (iso_date : ℕ → Text) (r : CommitRequest) (f : Fixture) where
  amended-Outcome :
      (base : StoredCommit) (lease : Text)
      → expected_head r ≡ lease
      → replaces_head r ≡ true
      → lookup r.branch f.branches ≡ some (expected_head r)
      → lookup r.base_revision f.commits ≡ some base
      → Outcome iso_date r f (
          (if not (text_eq lease r.base_revision)
              then throw invalid_request
              else (create_amended iso_date r.base_revision (trim r.message) r.changes
                  >>= publish r.branch))
            f)
  unfolding throw
  amended-Outcome base lease q amends h b = elim (Bool-cases (text_eq lease r.base_revision)) [
    | inr other ↦ rw other (refused _)
    | inl same ↦ rw same (
        create_amended-Outcome iso_date r f base h b amends
          (q ∙ text_eq→eq lease r.base_revision same))
  ]

  execute_at-Outcome :
      (head : Text) (base : StoredCommit) (push : Push)
      → r.push ≡ push
      → lookup r.branch f.branches ≡ some head
      → lookup r.base_revision f.commits ≡ some base
      → Outcome iso_date r f (execute_at iso_date r (trim r.message) head push f)
  unfolding execute_at pure
  execute_at-Outcome head base normal p h b =
      let q : expected_head r ≡ r.base_revision = ap (expected_for r.base_revision) p in
      elim (Bool-cases (text_eq head r.base_revision)) [
        | inr other ↦ rw other (outdated head h (differs _ _ _ other q))
        | inl same ↦
            let at : lookup r.branch f.branches ≡ some (expected_head r) =
              h ∙ ap some (text_eq→eq head r.base_revision same ∙ sym q) in
            rw same (create_child-Outcome iso_date r f base at b (ap (replaces r.type) p))
      ]
  execute_at-Outcome head base (force_with_lease lease) p h b =
      let q : expected_head r ≡ lease = ap (expected_for r.base_revision) p in
      elim (Bool-cases (text_eq head lease)) [
        | inr other ↦ rw other (outdated head h (differs _ _ _ other q))
        | inl same ↦
            let at : lookup r.branch f.branches ≡ some (expected_head r) =
              h ∙ ap some (text_eq→eq head lease same ∙ sym q) in
            elim (Bool-cases (is_amend r.type)) [
              | inl yes' ↦
                  rw (same, yes')
                    (amended-Outcome base lease q (ap (replaces r.type) p ∙ yes') at b)
              | inr no' ↦
                  rw (same, no')
                    (create_child-Outcome iso_date r f base at b (ap (replaces r.type) p ∙ no'))
            ]
      ]

  execute_known-Outcome :
      (head : Option Text) (base : Option StoredCommit)
      → lookup r.branch f.branches ≡ head
      → lookup r.base_revision f.commits ≡ base
      → Outcome iso_date r f (
          (attempt (head_of r.branch) >>= λ h. attempt (require_commit r.base_revision) >>= λ b.
          execute_at iso_date r (trim r.message) h r.push)
            f)
  unfolding ◌>>=◌ head_of require_commit
  execute_known-Outcome none base h b = rw h (refused _)
  execute_known-Outcome (some head) base h b = elim (Bool-cases (is_nil head)) [
    | inl empty ↦ rw (h, empty) (refused _)
    | inr full ↦ elim (Option-cases base) [
      | inl n ↦ rw (h, full, b, n) (refused _)
      | inr (c, e) ↦ rw (h, full, b, e) (execute_at-Outcome head c r.push refl h (b ∙ e))
    ]
  ]

  -- A commit request to the repository in memory either fails or is rejected with the head of its
  -- branch, where that is another one than it expects, and then changes nothing; or the head is the
  -- expected one, its changes fit the files of its base, and the branch goes to a new commit of
  -- those files, whose parent is the base, or the parents of the base where it amends, which needs
  -- its lease to be its base.
  pub execute-Outcome : Outcome iso_date r f (execute iso_date r f)
  unfolding execute throw
  execute-Outcome = elim (Bool-cases (is_nil (trim r.message))) [
    | inl empty ↦ rw empty (refused _)
    | inr said ↦ elim (Bool-cases (is_nil r.changes && not (is_amend r.type))) [
      | inl idle ↦ rw (said, idle) (refused _)
      | inr work ↦ rw (said, work) (execute_known-Outcome _ _ refl refl)
    ]
  ]
