-- ===== src/Rpc/Client.antt =====
-- adapters/rpc/src/rpc-adapter.ts: the adapter over a transport.
--
-- The transport is a parameter: the answer of one call, a value or a rejection.
use remotish.Shared.{
  Text, Bytes, starts_with, Result, ok, err, and_then, throw_code, offline, cancelled, unsupported,
  Option, none, some, List, [], ◌∷◌, ◌++◌, Bool, true, false, not, ◌&&◌, ◌||◌, ◌==◌, if◌then◌else◌,
  is_nil, any_of, drop, length, ℕ,
}
use remotish.Sdk.{
  DirectoryEntry, RemotishCapabilities, CommitRequest, CommitRequestType, Push, normal,
  force_with_lease,
}
use remotish.Sdk.History.{
  RepositoryInfo, ListedBranch, CommitChange, CommitPage, CommitQuery, PublishedCommit,
}
use remotish.Paths.{slash}
use remotish.Json.{Value, number, string, object, no_fields, prop, optional_prop}
use remotish.Rpc.{
  RpcOperation, get_repository, read_directory, read_file, get_branches, get_commits,
  get_commit_changes, commit, create_branch, delete_branch, rpc_version, name_of, invalid,
}
use remotish.Rpc.Requests.{encode_rpc_commit}
use remotish.Rpc.Results.{
  RpcResult, repository_result, directory_result, file_result, branches_result, page_result,
  changes_result, commit_outcome, branch_result, deleted_result, decode_rpc_response,
}

-- When the caller's signal aborts: never, before the call, or before its answer is there.
pub data Abort : Type 0 where
  never before during : Abort

abbrev pub Transport : Type 0
Transport = Value → Result Value

unfoldable pub request_envelope : RpcOperation → Value → Value
request_envelope operation payload = object (
    prop "version" (number rpc_version)
      (prop "operation" (string (name_of operation)) (prop "payload" payload no_fields)))

-- The answer of the transport, or its rejection.
abbrev pub response_of : RpcOperation → Result Value → Result RpcResult
response_of operation (err e) = throw_code offline
response_of operation (ok response) = decode_rpc_response operation response

unfoldable pub call : Transport → Abort → RpcOperation → Value → Result RpcResult
call transport before operation payload = throw_code cancelled
call transport during operation payload = throw_code cancelled
call transport never operation payload =
    response_of operation (transport (request_envelope operation payload))

-- `as T`: a decoded response is a result of its own operation.
abbrev pub as_repository : RpcResult → Result RepositoryInfo
as_repository (repository_result r) = ok r
as_repository _ = invalid

abbrev pub as_entries : RpcResult → Result (List DirectoryEntry)
as_entries (directory_result es) = ok es
as_entries _ = invalid

abbrev pub as_file : RpcResult → Result Bytes
as_file (file_result bytes) = ok bytes
as_file _ = invalid

abbrev pub as_branches : RpcResult → Result (List ListedBranch)
as_branches (branches_result bs) = ok bs
as_branches _ = invalid

abbrev pub as_page : RpcResult → Result CommitPage
as_page (page_result p) = ok p
as_page _ = invalid

abbrev pub as_changes : RpcResult → Result (List CommitChange)
as_changes (changes_result cs) = ok cs
as_changes _ = invalid

abbrev pub as_commit : RpcResult → Result PublishedCommit
as_commit (commit_outcome r) = ok r
as_commit _ = invalid

abbrev pub as_branch : RpcResult → Result ListedBranch
as_branch (branch_result b) = ok b
as_branch _ = invalid

abbrev pub as_deleted : RpcResult → Result (Unit {0})
as_deleted deleted_result = ok tt
as_deleted _ = invalid

abbrev pub optional_text : Option Text → Option Value
optional_text none = none
optional_text (some t) = some (string t)

abbrev pub optional_number : Option ℕ → Option Value
optional_number none = none
optional_number (some n) = some (number n)

-- The part of an entry's path below the directory that was read, or nothing.
unfoldable pub child_of : Text → Text → Text
child_of path entry_path =
    let prefix = if is_nil path then [] else path ++ slash ∷ [] in
    if starts_with entry_path prefix then drop (length prefix) entry_path else []

unfoldable pub is_not_child : Text → DirectoryEntry → Bool
is_not_child path entry =
    is_nil (child_of path entry.path) || any_of (λ c. c == slash) (child_of path entry.path)

module _ (transport : Transport) (capabilities : RemotishCapabilities) (abort : Abort) where
  unfoldable pub repository : Result RepositoryInfo
  repository = and_then (call transport abort get_repository (object no_fields)) as_repository

  unfoldable pub directory : Text → Text → Result (List DirectoryEntry)
  directory revision path =
      and_then
        (and_then
          (call transport abort read_directory
            (object (prop "revision" (string revision) (prop "path" (string path) no_fields))))
          as_entries)
        λ entries. if any_of (is_not_child path) entries then invalid else ok entries

  unfoldable pub file : Text → Text → Result Bytes
  file revision path =
      and_then
        (call transport abort read_file
          (object (prop "revision" (string revision) (prop "path" (string path) no_fields))))
        as_file

  unfoldable pub branches : Result (List ListedBranch)
  branches = and_then (call transport abort get_branches (object no_fields)) as_branches

  unfoldable pub commits : CommitQuery → Result CommitPage
  commits q =
      and_then
        (call transport abort get_commits (
          object (
            optional_prop "branch" (optional_text q.branch) (
              optional_prop "revision" (optional_text q.revision) (
                optional_prop "cursor" (optional_text q.cursor)
                  (optional_prop "limit" (optional_number q.limit) no_fields))))))
        as_page

  unfoldable pub changes_of : Text → Result (List CommitChange)
  changes_of revision =
      and_then
        (call transport abort get_commit_changes
          (object (prop "revision" (string revision) no_fields)))
        as_changes

  abbrev pub is_forced : Push → Bool
  is_forced normal = false
  is_forced (force_with_lease lease) = true

  abbrev pub is_amending : CommitRequestType → Bool
  is_amending CommitRequestType.commit = false
  is_amending CommitRequestType.amend = true

  -- `none` where the adapter has no such method.
  unfoldable pub publish : CommitRequest → Option (Result PublishedCommit)
  publish request =
      if not capabilities.commits
      then none
      else some (
          if is_forced request.push && not capabilities.force_with_lease
          then throw_code unsupported
          else if is_amending request.type && not capabilities.amend
          then throw_code unsupported
          else (and_then (call transport abort commit (encode_rpc_commit request)) as_commit))

  unfoldable pub new_branch : Text → Text → Option (Result ListedBranch)
  new_branch name revision =
      if not capabilities.create_branch
      then none
      else some (
          and_then
            (call transport abort create_branch
              (object (prop "name" (string name) (prop "revision" (string revision) no_fields))))
            as_branch)

  unfoldable pub drop_branch : Text → Option (Result (Unit {0}))
  drop_branch name =
      if not capabilities.delete_branch
      then none
      else some (
          and_then
            (call transport abort delete_branch (object (prop "name" (string name) no_fields)))
            as_deleted)
