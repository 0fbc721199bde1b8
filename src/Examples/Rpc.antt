-- ===== src/Examples/Rpc.antt =====
-- Messages between an adapter and a remote endpoint.
use remotish.Shared.{
  text, text_eq, contains, ok, throw_code, not_found, any_of, starts_with, none, [], ◌∷◌, All, true,
  false, ◌≡◌, refl, arith,
}
use remotish.Sdk.{
  CommitRequest, CommitRequestType, force_with_lease, modify_file, delete_file, DirectoryEntry,
  RemotishCapabilities, file,
}
use remotish.Paths.{normalize_repo_path, base_name}
use remotish.Json.{
  Value, boolean, number, string, array, object, no_items, item, no_fields, prop, get, keys_within,
  decode_items,
}
use remotish.Rpc.{
  read_directory, read_file, commit, record_of, array_of, string_of, nonempty, repo_path,
  boolean_of, optional_boolean, require_version,
}
use remotish.Rpc.Requests.{
  publish, encode_rpc_commit, decode_rpc_request, decode_rpc_session, decode_capabilities,
}
use remotish.Rpc.Results.{
  directory_result, bytes_result, value_result, wire_result, decode_rpc_result, decode_rpc_response,
  encode_rpc_failure, encode_rpc_success, list_of, directory_entry, entry_type, entry_size,
  is_bad_name,
}
use remotish.Rpc.Client
use remotish.Rpc.Client.{
  Transport, never, request_envelope, call, directory, child_of, is_not_child,
}
use remotish.Rpc.Commits.{
  IsSendable, decode_rpc_request-encode, commit_request-encode, commit_request-IsSendable,
}
use remotish.Rpc.Responses.{
  decode_rpc_response-failure, call-answers, file-encode_rpc_success, IsEntryOf,
  directory-AreEntries,
}
use remotish.Rpc.Sessions.{with_session, validate_adapter_contract-decode}
use remotish.Workspace.{validate_adapter_contract}
use remotish.Examples.Sessions.{sample_host}

-- An amending request with two changes.
abbrev amending : CommitRequest
amending = record {
  type = CommitRequestType.amend;
  branch = text "m";
  base_revision = text "r";
  message = [];
  changes = modify_file (text "d/b") (7 ∷ []) ∷ delete_file (text "a") ∷ [];
  push = force_with_lease (text "r");
}

amending-IsSendable : IsSendable amending
unfolding normalize_repo_path
amending-IsSendable = (refl, refl, refl, ((refl, (omega arith, tt)), (refl, tt)))

decode_rpc_request-encode_example :
    decode_rpc_request (request_envelope commit (encode_rpc_commit amending))
    ≡ ok (record { operation = commit; payload = publish amending })
decode_rpc_request-encode_example = decode_rpc_request-encode amending amending-IsSendable

commit_request-IsSendable_example : IsSendable amending
commit_request-IsSendable_example =
    commit_request-IsSendable (encode_rpc_commit amending) amending
      (commit_request-encode amending amending-IsSendable)

decode_rpc_response-failure_example :
    decode_rpc_response read_directory (encode_rpc_failure not_found) ≡ throw_code not_found
decode_rpc_response-failure_example = decode_rpc_response-failure read_directory not_found

-- The directory `d`, with one file.
abbrev listing : Value
listing = array (
    item
      (object (
        prop "name" (string (text "b"))
          (prop "path" (string (text "d/b")) (prop "type" (string (text "file")) no_fields))))
      no_items)

abbrev answer : Value
answer = object (
    prop "version" (number 1)
      (prop "status" (string (text "ok")) (prop "result" listing no_fields)))

abbrev entry_b : DirectoryEntry
entry_b = record { name = text "b"; path = text "d/b"; type = file; size = none }

read_d : decode_rpc_result read_directory listing ≡ ok (directory_result (entry_b ∷ []))
unfolding decode_rpc_result list_of array_of decode_items directory_entry record_of keys_within
    contains text_eq get entry_type entry_size nonempty string_of repo_path normalize_repo_path
    is_bad_name base_name
read_d = refl

encode_d : encode_rpc_success read_directory (value_result listing) ≡ ok answer
unfolding encode_rpc_success
encode_d = rw read_d refl

abbrev answering : Transport
answering v = ok answer

abbrev at_d : Value
at_d = object (prop "revision" (string (text "r")) (prop "path" (string (text "d")) no_fields))

answered_d :
    call answering never read_directory at_d
    ≡ decode_rpc_result read_directory (wire_result read_directory (value_result listing))
answered_d = call-answers answering read_directory at_d (value_result listing) answer encode_d refl

abbrev all_but_commits : RemotishCapabilities
all_but_commits = record {
  commits = false;
  local_edits = true;
  force_with_lease = false;
  amend = false;
  create_branch = true;
  delete_branch = false;
}

directory_d : directory answering all_but_commits never (text "r") (text "d") ≡ ok (entry_b ∷ [])
unfolding directory is_not_child child_of any_of starts_with
directory_d = rw (answered_d, read_d) refl

file-encode_rpc_success_example :
    Client.file
      (λ v. encode_rpc_success read_file (bytes_result (0 ∷ 255 ∷ 7 ∷ [])))
      all_but_commits
      never
      (text "r")
      (text "d/b")
    ≡ ok (0 ∷ 255 ∷ 7 ∷ [])
file-encode_rpc_success_example =
    file-encode_rpc_success (λ v. encode_rpc_success read_file (bytes_result (0 ∷ 255 ∷ 7 ∷ [])))
      all_but_commits (text "r") (text "d/b") (0 ∷ 255 ∷ 7 ∷ [])
      (omega arith, (omega arith, (omega arith, tt))) refl

directory-AreEntries_example : All (IsEntryOf (text "d")) (entry_b ∷ [])
directory-AreEntries_example =
    directory-AreEntries answering all_but_commits never (text "r") (text "d") (entry_b ∷ [])
      directory_d

abbrev session : Value
session = object (
    prop "version" (number 1) (
      prop "capabilities"
        (object (
          prop "commits" (boolean false)
            (prop "localEdits" (boolean true) (prop "createBranch" (boolean true) no_fields))))
        no_fields))

decode_session : decode_rpc_session session ≡ ok all_but_commits
unfolding decode_rpc_session decode_capabilities record_of keys_within contains text_eq get
    require_version boolean_of optional_boolean
decode_session = refl

validate_adapter_contract-decode_example :
    validate_adapter_contract (with_session sample_host all_but_commits) ≡ ok tt
validate_adapter_contract-decode_example =
    validate_adapter_contract-decode sample_host session all_but_commits decode_session
