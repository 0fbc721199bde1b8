-- ===== src/Fixture/Commits.antt =====
-- packages/adapter-fixture/src/commit-engine.ts.
--
-- The time of a commit, `new Date(Date.UTC(2026, 0, day)).toISOString()`, is a parameter.
use remotish.Shared.{
  Text, Bytes, text, text_eq, Dict, lookup, insert, Result, ok, Method, attempt, pure, throw, ◌>>=◌,
  throw_code, invalid_request, not_found, Option, none, some, List, [], ◌∷◌, ◌++◌, Bool, true,
  false, not, ◌&&◌, ltb, if◌then◌else◌, is_nil, ℕ, zero, suc, ◌+◌, ◌/◌, ◌%◌,
}
use remotish.Sdk.{
  Change, CommitRequest, CommitRequestType, commit, amend, Push, normal, force_with_lease,
  remote_changed,
}
use remotish.Sdk.History.{CommitInfo, PublishedCommit, success, rejected}
use remotish.Workspace.Commits.{trim}
use remotish.Fixture.{StoredCommit, Fixture, apply_changes, require_commit}

-- `String(n)`: a number has no more digits than it has units, and one.
unfoldable pub decimal_digits : ℕ → ℕ → Text
decimal_digits zero n = []
decimal_digits (suc fuel) n =
    let rest = decimal_digits fuel (n / 10) in
    if ltb n 10 then (48 + n) ∷ [] else rest ++ (48 + n % 10) ∷ []

unfoldable pub decimal : ℕ → Text
decimal n = decimal_digits (suc n) n

unfoldable pub revision_name : ℕ → Text
revision_name n = text "fixture-" ++ decimal n

unfoldable pub remote_changed_to : Text → PublishedCommit
remote_changed_to actual = rejected remote_changed (some actual) none

unfoldable pub publish : Text → StoredCommit → Method Fixture PublishedCommit
publish branch stored f = (
  ok (success stored.info.revision stored.info),
  record f { branches = insert branch stored.info.revision f.branches },
)

abbrev pub is_amend : CommitRequestType → Bool
is_amend commit = false
is_amend amend = true

abbrev pub found_head : Option Text → Result Text
found_head none = throw_code not_found
found_head (some head) = if is_nil head then throw_code not_found else ok head

unfoldable pub head_of : Text → Fixture → Result Text
head_of branch f = found_head (lookup branch f.branches)

module _ (iso_date : ℕ → Text) where
  -- The sequence number is raised before the date is made.
  unfoldable pub info_of : List Text → Text → ℕ → CommitInfo
  info_of parents message sequence = record {
    revision = revision_name sequence;
    parents = parents;
    message = message;
    author =
        some (record { name = text "Fixture User"; email = some (text "fixture@example.invalid") });
    authored_at = some (iso_date (suc sequence));
  }

  unfoldable pub store : List Text → Text → Dict Bytes → Method Fixture StoredCommit
  store parents message files f =
      let stored : StoredCommit = record {
        info = info_of parents message f.sequence;
        files = files;
      } in
      (
        ok stored,
        record f {
          commits = insert (revision_name f.sequence) stored f.commits;
          sequence = suc f.sequence;
        },
      )

  unfoldable pub create_child : Text → Text → List Change → Method Fixture StoredCommit
  create_child parent message changes = do
    existing ← attempt (require_commit parent)
    files ← attempt (λ f. apply_changes existing.files changes)
    store (parent ∷ []) message files

  unfoldable pub create_amended : Text → Text → List Change → Method Fixture StoredCommit
  create_amended revision message changes = do
    existing ← attempt (require_commit revision)
    files ← attempt (λ f. apply_changes existing.files changes)
    store existing.info.parents message files

  -- From the point where the head of the branch is known.
  unfoldable pub execute_at : CommitRequest → Text → Text → Push → Method Fixture PublishedCommit
  execute_at request message head normal =
      if not (text_eq head request.base_revision)
      then pure (remote_changed_to head)
      else (create_child request.base_revision message request.changes >>= publish request.branch)
  execute_at request message head (force_with_lease lease) =
      if not (text_eq head lease)
      then pure (remote_changed_to head)
      else if is_amend request.type
      then (if not (text_eq lease request.base_revision)
          then throw invalid_request
          else (create_amended request.base_revision message request.changes
              >>= publish request.branch))
      else (create_child request.base_revision message request.changes >>= publish request.branch)

  unfoldable pub execute : CommitRequest → Method Fixture PublishedCommit
  execute request =
      let message = trim request.message in
      if is_nil message
      then throw invalid_request
      else if is_nil request.changes && not (is_amend request.type)
      then throw invalid_request
      else do
        head ← attempt (head_of request.branch)
        base ← attempt (require_commit request.base_revision)
        execute_at request message head request.push
