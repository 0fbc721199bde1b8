-- ===== src/Sdk/History.antt =====
-- packages/adapter-sdk/src/repository.ts and commit.ts: what adapters tell of repositories and their
-- history, beside what the core reads.
use remotish.Shared.{Text, Option, List, Bool, ℕ}
use remotish.Sdk.{CommitRejectionReason, CommitResult}

pub record RepositoryInfo : Type 0 where
  pub id : Text
  pub name : Text
  pub default_branch : Text
  pub description : Option Text

pub record ListedBranch : Type 0 where
  pub name : Text
  pub revision : Text
  pub is_default : Option Bool

pub record CommitAuthor : Type 0 where
  pub name : Text
  pub email : Option Text

pub record CommitInfo : Type 0 where
  pub revision : Text
  pub parents : List Text
  pub message : Text
  pub author : Option CommitAuthor
  pub authored_at : Option Text

pub data CommitChangeType : Type 0 where
  added modified deleted renamed : CommitChangeType

pub record CommitChange : Type 0 where
  pub type : CommitChangeType
  pub path : Text
  pub previous_path : Option Text

pub record CommitQuery : Type 0 where
  pub branch : Option Text
  pub revision : Option Text
  pub cursor : Option Text
  pub limit : Option ℕ

pub record CommitPage : Type 0 where
  pub commits : List CommitInfo
  pub next_cursor : Option Text

-- `CommitResult` with all that an adapter tells. The message is not modelled where an adapter
-- writes it, as errors' messages are not.
pub data PublishedCommit : Type 0 where
  success : Text → CommitInfo → PublishedCommit
  rejected : CommitRejectionReason → Option Text → Option Text → PublishedCommit

-- What the core reads of it.
abbrev pub result_of : PublishedCommit → CommitResult
result_of (success revision commit) = CommitResult.success revision
result_of (rejected reason remote_revision message) = CommitResult.rejected reason
