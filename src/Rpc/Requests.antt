-- ===== src/Rpc/Requests.antt =====
-- adapters/rpc/src/rpc-request-codec.ts: sessions and requests.
use remotish.Shared.{
  Text, text, Result, ok, and_then, Option, none, some, List, [], ◌∷◌, Bool, false, not, ◌&&◌, ◌||◌,
  ◌==◌, if◌then◌else◌, ℕ,
}
use remotish.Sdk.{
  RemotishCapabilities, Change, add_file, modify_file, delete_file, CommitRequest,
  CommitRequestType, Push, normal, force_with_lease,
}
use remotish.Sdk.History.{CommitQuery}
use remotish.Json.{
  Value, undefined, number, string, array, object, Fields, no_fields, prop, get, has, is_text,
  items_of, decode_items,
}
use remotish.Rpc.{
  RpcOperation, get_repository, read_directory, read_file, get_branches, get_commits,
  get_commit_changes, commit, create_branch, delete_branch, is_operation, invalid, record_of,
  array_of, string_of, nonempty, optional_string, boolean_of, optional_boolean, require_version,
  repo_path, encode_rpc_bytes, decode_rpc_bytes,
}

abbrev pub is_true : Option Bool → Bool
is_true none = false
is_true (some b) = b

abbrev pub capability_keys : List Text
capability_keys =
    text "commits"
    ∷ text "localEdits"
    ∷ text "forceWithLease"
    ∷ text "amend"
    ∷ text "createBranch"
    ∷ text "deleteBranch"
    ∷ []

-- The capabilities of a session. One that is not there is one that the adapter has not.
unfoldable pub decode_capabilities : Fields → Result RemotishCapabilities
decode_capabilities caps = and_then (boolean_of (get (text "commits") caps)) λ commits.
    and_then (optional_boolean (get (text "localEdits") caps)) λ local_edits.
      and_then (optional_boolean (get (text "forceWithLease") caps)) λ force.
        and_then (optional_boolean (get (text "amend") caps)) λ amend.
          and_then (optional_boolean (get (text "createBranch") caps)) λ creates.
            and_then (optional_boolean (get (text "deleteBranch") caps)) λ deletes.
              if (is_true force && not commits) || (is_true amend && not (is_true force))
              then invalid
              else ok (record {
                commits = commits;
                local_edits = is_true local_edits;
                force_with_lease = is_true force;
                amend = is_true amend;
                create_branch = is_true creates;
                delete_branch = is_true deletes;
              })

unfoldable pub decode_rpc_session : Value → Result RemotishCapabilities
decode_rpc_session v = and_then (record_of v (text "version" ∷ text "capabilities" ∷ [])) λ session.
    and_then (require_version (get (text "version") session)) λ checked.
      and_then (record_of (get (text "capabilities") session) capability_keys) decode_capabilities

-- A validated payload, by its operation.
pub data Payload : Type 0 where
  nothing : Payload
  at_path : Text → Text → Payload
  at_revision : Text → Payload
  history : CommitQuery → Payload
  publish : CommitRequest → Payload
  new_branch : Text → Text → Payload
  old_branch : Text → Payload

pub record RpcRequest : Type 0 where
  pub operation : RpcOperation
  pub payload : Payload

abbrev pub change_fields : Text → Value → Fields → Fields
change_fields type path rest = prop "type" (string type) (prop "path" path rest)

unfoldable pub encode_change : Change → Value
encode_change (delete_file path) = object (change_fields (text "delete") (string path) no_fields)
encode_change (add_file path content) =
    object (
      change_fields (text "add") (string path)
        (prop "content" (encode_rpc_bytes content) no_fields))
encode_change (modify_file path content) = object (
    change_fields (text "modify") (string path)
      (prop "content" (encode_rpc_bytes content) no_fields))

abbrev pub type_name : CommitRequestType → Text
type_name CommitRequestType.commit = text "commit"
type_name CommitRequestType.amend = text "amend"

unfoldable pub encode_push : Push → Value
encode_push normal = object (prop "mode" (string (text "normal")) no_fields)
encode_push (force_with_lease lease) = object (
    prop "mode" (string (text "force-with-lease"))
      (prop "expectedRevision" (string lease) no_fields))

unfoldable pub encode_rpc_commit : CommitRequest → Value
encode_rpc_commit request = object (
    prop "type" (string (type_name request.type)) (
      prop "branch" (string request.branch) (
        prop "baseRevision" (string request.base_revision) (
          prop "message" (string request.message) (
            prop "changes" (array (items_of encode_change request.changes))
              (prop "push" (encode_push request.push) no_fields))))))

unfoldable pub decode_change : Value → Result Change
decode_change v = and_then (record_of v (text "type" ∷ text "path" ∷ text "content" ∷ [])) λ change.
    let type = get (text "type") change in
    if is_text (text "delete") type
    then (if has (text "content") change
        then invalid
        else (and_then (repo_path (get (text "path") change)) λ path. ok (delete_file path)))
    else if not (is_text (text "add") type) && not (is_text (text "modify") type)
    then invalid
    else (and_then (repo_path (get (text "path") change)) λ path.
        and_then (decode_rpc_bytes (get (text "content") change)) λ content.
          ok
            (if is_text (text "add") type then add_file path content else modify_file path content))

-- The checks of a commit request's push mode and type.
unfoldable pub check_push : Value → Fields → Result (Unit {0})
check_push type push =
    let mode = get (text "mode") push in
    if is_text (text "normal") mode
    then (if not (is_text (text "commit") type) || has (text "expectedRevision") push
        then invalid
        else ok tt)
    else if not (is_text (text "force-with-lease") mode)
    then invalid
    else if not (is_text (text "commit") type) && not (is_text (text "amend") type)
    then invalid
    else ok tt

unfoldable pub decode_push : Fields → Result Push
decode_push push =
    if is_text (text "normal") (get (text "mode") push)
    then ok normal
    else (and_then (nonempty (get (text "expectedRevision") push))
        λ lease. ok (force_with_lease lease))

abbrev pub decode_type : Value → Push → CommitRequestType
decode_type type normal = CommitRequestType.commit
decode_type type (force_with_lease lease) =
    if is_text (text "amend") type then CommitRequestType.amend else CommitRequestType.commit

unfoldable pub commit_request : Value → Result CommitRequest
commit_request v =
    and_then
      (record_of v (
        text "type"
        ∷ text "branch"
        ∷ text "baseRevision"
        ∷ text "message"
        ∷ text "changes"
        ∷ text "push"
        ∷ []))
      λ fields.
        and_then (record_of (get (text "push") fields) (text "mode" ∷ text "expectedRevision" ∷ []))
          λ push. and_then (check_push (get (text "type") fields) push) λ checked.
            and_then (array_of (get (text "changes") fields)) λ items.
              and_then (decode_items decode_change items) λ changes.
                and_then (nonempty (get (text "branch") fields)) λ branch.
                  and_then (nonempty (get (text "baseRevision") fields)) λ base_revision.
                    and_then (string_of (get (text "message") fields)) λ message.
                      and_then (decode_push push) λ mode. ok (record {
                        type = decode_type (get (text "type") fields) mode;
                        branch = branch;
                        base_revision = base_revision;
                        message = message;
                        changes = changes;
                        push = mode;
                      })

unfoldable pub decode_limit : Value → Result (Option ℕ)
decode_limit undefined = ok none
decode_limit (number n) = if n == 0 then invalid else ok (some n)
decode_limit _ = invalid

unfoldable pub query : Value → Result CommitQuery
query v =
    and_then (record_of v (text "branch" ∷ text "revision" ∷ text "cursor" ∷ text "limit" ∷ []))
      λ fields. and_then (optional_string (get (text "branch") fields)) λ branch.
        and_then (optional_string (get (text "revision") fields)) λ revision.
          and_then (optional_string (get (text "cursor") fields)) λ cursor.
            and_then (decode_limit (get (text "limit") fields)) λ limit.
              ok (record { branch = branch; revision = revision; cursor = cursor; limit = limit })

unfoldable pub decode_empty : Value → Result Payload
decode_empty v = and_then (record_of v []) λ fields. ok nothing

unfoldable pub decode_at_path : Value → Result Payload
decode_at_path v = and_then (record_of v (text "revision" ∷ text "path" ∷ [])) λ fields.
    and_then (nonempty (get (text "revision") fields))
      λ revision. and_then (repo_path (get (text "path") fields)) λ path. ok (at_path revision path)

unfoldable pub decode_at_revision : Value → Result Payload
decode_at_revision v = and_then (record_of v (text "revision" ∷ [])) λ fields.
    and_then (nonempty (get (text "revision") fields)) λ revision. ok (at_revision revision)

unfoldable pub decode_new_branch : Value → Result Payload
decode_new_branch v = and_then (record_of v (text "name" ∷ text "revision" ∷ [])) λ fields.
    and_then (nonempty (get (text "name") fields)) λ name.
      and_then (nonempty (get (text "revision") fields)) λ revision. ok (new_branch name revision)

unfoldable pub decode_old_branch : Value → Result Payload
decode_old_branch v =
    and_then (record_of v (text "name" ∷ []))
      λ fields. and_then (nonempty (get (text "name") fields)) λ name. ok (old_branch name)

unfoldable pub decode_request_payload : RpcOperation → Value → Result Payload
decode_request_payload get_repository v = decode_empty v
decode_request_payload get_branches v = decode_empty v
decode_request_payload read_directory v = decode_at_path v
decode_request_payload read_file v = decode_at_path v
decode_request_payload get_commit_changes v = decode_at_revision v
decode_request_payload get_commits v = and_then (query v) λ q. ok (history q)
decode_request_payload commit v = and_then (commit_request v) λ r. ok (publish r)
decode_request_payload create_branch v = decode_new_branch v
decode_request_payload delete_branch v = decode_old_branch v

unfoldable pub decode_rpc_request : Value → Result RpcRequest
decode_rpc_request v =
    and_then (record_of v (text "version" ∷ text "operation" ∷ text "payload" ∷ [])) λ request.
      and_then (require_version (get (text "version") request)) λ checked.
        and_then (string_of (get (text "operation") request)) λ name. elim (is_operation name) [
          | none ↦ invalid
          | some operation ↦
              and_then (decode_request_payload operation (get (text "payload") request))
                λ payload. ok (record { operation = operation; payload = payload })
        ]
