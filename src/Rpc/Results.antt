-- ===== src/Rpc/Results.antt =====
-- adapters/rpc/src/rpc-result-codec.ts: responses and their results.
use remotish.Shared.{
  Text, Bytes, text, text_eq, Result, ok, and_then, RemotishErrorCode, throw_code, Option, none,
  some, List, [], ◌∷◌, Bool, not, ◌||◌, ◌==◌, if◌then◌else◌, any_of, ℕ,
}
use remotish.Sdk.{
  DirectoryEntryType, file, directory, DirectoryEntry, CommitRejectionReason, remote_changed,
  forbidden, unsupported,
}
use remotish.Sdk.History.{
  RepositoryInfo, ListedBranch, CommitAuthor, CommitInfo, CommitChangeType, added, modified,
  deleted, renamed, CommitChange, CommitPage, PublishedCommit, success, rejected,
}
use remotish.Paths.{slash, base_name}
use remotish.Json.{
  Value, undefined, null, number, string, object, Fields, no_fields, prop, get, has, is_text,
  decode_items,
}
use remotish.Rpc.{
  RpcOperation, get_repository, read_directory, read_file, get_branches, get_commits,
  get_commit_changes, commit, create_branch, delete_branch, rpc_version, is_error_code, code_name,
  invalid, record_of, array_of, string_of, nonempty, optional_string, optional_boolean,
  require_version, repo_path, encode_rpc_bytes, decode_rpc_bytes,
}

unfoldable pub repository : Value → Result RepositoryInfo
repository v =
    and_then
      (record_of v (text "id" ∷ text "name" ∷ text "defaultBranch" ∷ text "description" ∷ []))
      λ fields. and_then (optional_string (get (text "description") fields)) λ description.
        and_then (nonempty (get (text "id") fields)) λ id.
          and_then (nonempty (get (text "name") fields)) λ name.
            and_then (nonempty (get (text "defaultBranch") fields)) λ default_branch. ok (record {
              id = id;
              name = name;
              default_branch = default_branch;
              description = description;
            })

unfoldable pub entry_type : Value → Result DirectoryEntryType
entry_type v =
    if is_text (text "file") v
    then ok file
    else if is_text (text "directory") v
    then ok directory
    else invalid

unfoldable pub entry_size : Value → Result (Option ℕ)
entry_size undefined = ok none
entry_size (number n) = ok (some n)
entry_size _ = invalid

-- `name` is not the last segment of `path`, or is none.
unfoldable pub is_bad_name : Text → Text → Bool
is_bad_name name path =
    text_eq name (text ".")
    || text_eq name (text "..")
    || any_of (λ c. c == slash || c == 92) name
    || not (text_eq (base_name path) name)

unfoldable pub directory_entry : Value → Result DirectoryEntry
directory_entry v =
    and_then (record_of v (text "name" ∷ text "path" ∷ text "type" ∷ text "size" ∷ [])) λ fields.
      and_then (entry_type (get (text "type") fields)) λ type.
        and_then (entry_size (get (text "size") fields)) λ size.
          and_then (nonempty (get (text "name") fields)) λ name.
            and_then (repo_path (get (text "path") fields)) λ path.
              if is_bad_name name path
              then invalid
              else ok (record { name = name; path = path; type = type; size = size })

unfoldable pub branch : Value → Result ListedBranch
branch v = and_then (record_of v (text "name" ∷ text "revision" ∷ text "isDefault" ∷ [])) λ fields.
    and_then (optional_boolean (get (text "isDefault") fields)) λ is_default.
      and_then (nonempty (get (text "name") fields)) λ name.
        and_then (nonempty (get (text "revision") fields))
          λ revision. ok (record { name = name; revision = revision; is_default = is_default })

unfoldable pub author_of : Value → Result (Option CommitAuthor)
author_of undefined = ok none
author_of v = and_then (record_of v (text "name" ∷ text "email" ∷ [])) λ author.
    and_then (optional_string (get (text "email") author)) λ email.
      and_then (nonempty (get (text "name") author))
        λ name. ok (some (record { name = name; email = email }))

unfoldable pub commit_info : Value → Result CommitInfo
commit_info v =
    and_then
      (record_of v (
        text "revision" ∷ text "parents" ∷ text "message" ∷ text "author" ∷ text "authoredAt" ∷ []))
      λ fields. and_then (author_of (get (text "author") fields)) λ author.
        and_then (optional_string (get (text "authoredAt") fields)) λ authored_at.
          and_then (nonempty (get (text "revision") fields)) λ revision.
            and_then (array_of (get (text "parents") fields)) λ items.
              and_then (decode_items nonempty items) λ parents.
                and_then (string_of (get (text "message") fields)) λ message. ok (record {
                  revision = revision;
                  parents = parents;
                  message = message;
                  author = author;
                  authored_at = authored_at;
                })

unfoldable pub page : Value → Result CommitPage
page v = and_then (record_of v (text "commits" ∷ text "nextCursor" ∷ [])) λ fields.
    and_then (optional_string (get (text "nextCursor") fields)) λ next_cursor.
      and_then (array_of (get (text "commits") fields)) λ items.
        and_then (decode_items commit_info items)
          λ commits. ok (record { commits = commits; next_cursor = next_cursor })

unfoldable pub change_type : Value → Result CommitChangeType
change_type v =
    if is_text (text "added") v
    then ok added
    else if is_text (text "modified") v
    then ok modified
    else if is_text (text "deleted") v
    then ok deleted
    else if is_text (text "renamed") v
    then ok renamed
    else invalid

unfoldable pub optional_path : Value → Result (Option Text)
optional_path undefined = ok none
optional_path v = and_then (repo_path v) λ path. ok (some path)

unfoldable pub commit_change : Value → Result CommitChange
commit_change v =
    and_then (record_of v (text "type" ∷ text "path" ∷ text "previousPath" ∷ [])) λ fields.
      and_then (change_type (get (text "type") fields)) λ type.
        and_then (optional_path (get (text "previousPath") fields)) λ previous_path.
          and_then (repo_path (get (text "path") fields))
            λ path. ok (record { type = type; path = path; previous_path = previous_path })

unfoldable pub rejection_reason : Value → Result CommitRejectionReason
rejection_reason v =
    if is_text (text "REMOTE_CHANGED") v
    then ok remote_changed
    else if is_text (text "FORBIDDEN") v
    then ok forbidden
    else if is_text (text "UNSUPPORTED") v
    then ok unsupported
    else invalid

unfoldable pub success_of : Fields → Result PublishedCommit
success_of fields =
    if has (text "reason") fields
      || has (text "remoteRevision") fields
      || has (text "message") fields
    then invalid
    else (and_then (nonempty (get (text "revision") fields)) λ revision.
        and_then (commit_info (get (text "commit") fields)) λ commit.
          if not (text_eq commit.revision revision) then invalid else ok (success revision commit))

unfoldable pub rejection_of : Fields → Result PublishedCommit
rejection_of fields =
    if not (is_text (text "rejected") (get (text "status") fields))
      || has (text "revision") fields
      || has (text "commit") fields
    then invalid
    else (and_then (rejection_reason (get (text "reason") fields)) λ reason.
        and_then (optional_string (get (text "remoteRevision") fields)) λ remote_revision.
          and_then (optional_string (get (text "message") fields))
            λ message. ok (rejected reason remote_revision message))

unfoldable pub commit_result : Value → Result PublishedCommit
commit_result v =
    and_then
      (record_of v (
        text "status"
        ∷ text "revision"
        ∷ text "commit"
        ∷ text "reason"
        ∷ text "remoteRevision"
        ∷ text "message"
        ∷ []))
      λ fields.
        if is_text (text "success") (get (text "status") fields)
        then success_of fields
        else rejection_of fields

-- The result of an operation.
pub data RpcResult : Type 0 where
  repository_result : RepositoryInfo → RpcResult
  directory_result : List DirectoryEntry → RpcResult
  file_result : Bytes → RpcResult
  branches_result : List ListedBranch → RpcResult
  page_result : CommitPage → RpcResult
  changes_result : List CommitChange → RpcResult
  commit_outcome : PublishedCommit → RpcResult
  branch_result : ListedBranch → RpcResult
  deleted_result : RpcResult

-- `array(value, ...).map(decode)`
unfoldable pub list_of {ℓ} : {A : Type ℓ} → (Value → Result A) → Value → Result (List A)
list_of decode v = and_then (array_of v) λ items. decode_items decode items

unfoldable pub deleted_of : Value → Result RpcResult
deleted_of null = ok deleted_result
deleted_of _ = invalid

unfoldable pub decode_rpc_result : RpcOperation → Value → Result RpcResult
decode_rpc_result get_repository v = and_then (repository v) λ r. ok (repository_result r)
decode_rpc_result read_directory v =
    and_then (list_of directory_entry v) λ es. ok (directory_result es)
decode_rpc_result read_file v = and_then (decode_rpc_bytes v) λ bytes. ok (file_result bytes)
decode_rpc_result get_branches v = and_then (list_of branch v) λ bs. ok (branches_result bs)
decode_rpc_result get_commits v = and_then (page v) λ p. ok (page_result p)
decode_rpc_result get_commit_changes v =
    and_then (list_of commit_change v) λ cs. ok (changes_result cs)
decode_rpc_result commit v = and_then (commit_result v) λ r. ok (commit_outcome r)
decode_rpc_result create_branch v = and_then (branch v) λ b. ok (branch_result b)
decode_rpc_result delete_branch v = deleted_of v

-- A failure envelope: the code that it carries is thrown.
unfoldable pub decode_failure : Fields → Result RpcResult
decode_failure response =
    if has (text "result") response
    then invalid
    else (and_then (record_of (get (text "error") response) (text "code" ∷ [])) λ failure.
        and_then (string_of (get (text "code") failure))
          λ code. elim (is_error_code code) [ none ↦ invalid | some c ↦ throw_code c ])

unfoldable pub decode_rpc_response : RpcOperation → Value → Result RpcResult
decode_rpc_response operation v =
    and_then (record_of v (text "version" ∷ text "status" ∷ text "result" ∷ text "error" ∷ []))
      λ response. and_then (require_version (get (text "version") response)) λ checked.
        if is_text (text "error") (get (text "status") response)
        then decode_failure response
        else if not (is_text (text "ok") (get (text "status") response))
            || has (text "error") response
            || not (has (text "result") response)
        then invalid
        else decode_rpc_result operation (get (text "result") response)

unfoldable pub encode_rpc_failure : RemotishErrorCode → Value
encode_rpc_failure code = object (
    prop "version" (number rpc_version) (
      prop "status" (string (text "error"))
        (prop "error" (object (prop "code" (string (code_name code)) no_fields)) no_fields)))

-- What an endpoint has at hand: the bytes of a file, or a JSON value.
pub data EndpointResult : Type 0 where
  bytes_result : Bytes → EndpointResult
  value_result : Value → EndpointResult

-- A byte array that is no result of `readFile` is an object of another class.
abbrev pub wire_result : RpcOperation → EndpointResult → Value
wire_result read_file (bytes_result bytes) = encode_rpc_bytes bytes
wire_result operation (bytes_result bytes) = Value.instance_of no_fields
wire_result operation (value_result v) = v

unfoldable pub encode_rpc_success : RpcOperation → EndpointResult → Result Value
encode_rpc_success operation result =
    let wire = wire_result operation result in
    and_then (decode_rpc_result operation wire) λ checked. ok (
      object (
        prop "version" (number rpc_version)
          (prop "status" (string (text "ok")) (prop "result" wire no_fields))))
