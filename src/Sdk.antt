-- ===== src/Sdk.antt =====
-- packages/adapter-sdk/src: the model of a remote repository that adapters and the framework share
-- (repository.ts, commit.ts, capabilities.ts). Identifiers (`RevisionId`, `BranchName`) are texts.
pub mod History
use remotish.Shared.{Text, Bytes, Option, List, Bool, ℕ}

pub data DirectoryEntryType : Type 0 where
  file directory : DirectoryEntryType

pub record DirectoryEntry : Type 0 where
  pub name : Text
  pub path : Text
  pub type : DirectoryEntryType
  pub size : Option ℕ

pub record Branch : Type 0 where
  pub name : Text
  pub revision : Text

pub record RemotishCapabilities : Type 0 where
  pub commits : Bool
  pub local_edits : Bool
  pub force_with_lease : Bool
  pub amend : Bool
  pub create_branch : Bool
  pub delete_branch : Bool

-- One change that a commit publishes.
pub data Change : Type 0 where
  add_file : Text → Bytes → Change
  modify_file : Text → Bytes → Change
  delete_file : Text → Change

abbrev pub path_of : Change → Text
path_of (add_file path content) = path
path_of (modify_file path content) = path
path_of (delete_file path) = path

pub data CommitRequestType : Type 0 where
  commit amend : CommitRequestType

pub data Push : Type 0 where
  normal : Push
  force_with_lease : Text → Push

pub record CommitRequest : Type 0 where
  pub type : CommitRequestType
  pub branch : Text
  pub base_revision : Text
  pub message : Text
  pub changes : List Change
  pub push : Push

pub data CommitRejectionReason : Type 0 where
  remote_changed forbidden unsupported : CommitRejectionReason

-- A success carries the published revision; the description of the commit is not read.
pub data CommitResult : Type 0 where
  success : Text → CommitResult
  rejected : CommitRejectionReason → CommitResult
