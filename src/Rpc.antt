-- ===== src/Rpc.antt =====
-- The JSON-safe protocol between an adapter and a remote endpoint: adapters/rpc/src. This file is
-- rpc-types.ts and rpc-codec-primitives.ts.
pub mod Requests
pub mod Results
pub mod Client
pub mod Contents
pub mod Commits
pub mod Responses
pub mod Sessions
use remotish.Shared.{
  Text, Bytes, text, text_eq, Result, ok, err, and_then, throw_code, Failure, RemotishErrorCode,
  not_found, unauthorized, forbidden, rate_limited, offline, unsupported, invalid_request,
  cancelled, unknown, Option, none, some, List, [], ◌∷◌, Bool, true, false, not, ◌&&◌, ◌||◌, ltb,
  leb, ◌==◌, if◌then◌else◌, length, is_nil, ℕ, ◌%◌,
}
use remotish.Paths.{normalize_repo_path}
use remotish.Base64.{pad, btoa, atob}
use remotish.Json.{
  Value, undefined, null, boolean, number, string, array, object, Items, Fields, no_fields, prop,
  get, keys_within, is_number, is_text,
}

abbrev pub rpc_version : ℕ
rpc_version = 1

pub data RpcOperation : Type 0 where
  get_repository read_directory read_file get_branches get_commits get_commit_changes : RpcOperation
  commit create_branch delete_branch : RpcOperation

-- The name of an operation on the wire.
abbrev pub name_of : RpcOperation → Text
name_of get_repository = text "getRepository"
name_of read_directory = text "readDirectory"
name_of read_file = text "readFile"
name_of get_branches = text "getBranches"
name_of get_commits = text "getCommits"
name_of get_commit_changes = text "getCommitChanges"
name_of commit = text "commit"
name_of create_branch = text "createBranch"
name_of delete_branch = text "deleteBranch"

abbrev pub code_name : RemotishErrorCode → Text
code_name not_found = text "NOT_FOUND"
code_name unauthorized = text "UNAUTHORIZED"
code_name forbidden = text "FORBIDDEN"
code_name rate_limited = text "RATE_LIMITED"
code_name offline = text "OFFLINE"
code_name unsupported = text "UNSUPPORTED"
code_name invalid_request = text "INVALID_REQUEST"
code_name cancelled = text "CANCELLED"
code_name unknown = text "UNKNOWN"

-- The element of a list with a name.
unfoldable pub find_by_name {ℓ} : {A : Type ℓ} → (A → Text) → Text → List A → Option A
find_by_name name t [] = none
find_by_name name t (x ∷ xs) = if text_eq (name x) t then some x else find_by_name name t xs

-- `isOperation` and `isErrorCode`, with what the string then stands for.
unfoldable pub is_operation : Text → Option RpcOperation
unfolding find_by_name
is_operation t = find_by_name name_of t (
    get_repository ∷ read_directory ∷ read_file ∷ get_branches ∷ get_commits ∷ get_commit_changes
    ∷ commit ∷ create_branch ∷ delete_branch ∷ [])

unfoldable pub is_error_code : Text → Option RemotishErrorCode
unfolding find_by_name
is_error_code t = find_by_name code_name t (
    not_found ∷ unauthorized ∷ forbidden ∷ rate_limited ∷ offline ∷ unsupported ∷ invalid_request
    ∷ cancelled ∷ unknown ∷ [])

abbrev pub invalid {ℓ} : {A : Type ℓ} → Result A
invalid = throw_code unknown

unfoldable pub record_of : Value → List Text → Result Fields
record_of (object fields) keys = if keys_within keys fields then ok fields else invalid
record_of _ keys = invalid

unfoldable pub array_of : Value → Result Items
array_of (array items) = ok items
array_of _ = invalid

unfoldable pub string_of : Value → Result Text
string_of (string s) = ok s
string_of _ = invalid

unfoldable pub nonempty : Value → Result Text
nonempty v = and_then (string_of v) λ s. if is_nil s then invalid else ok s

unfoldable pub optional_string : Value → Result (Option Text)
optional_string undefined = ok none
optional_string v = and_then (string_of v) λ s. ok (some s)

unfoldable pub boolean_of : Value → Result Bool
boolean_of (boolean b) = ok b
boolean_of _ = invalid

unfoldable pub optional_boolean : Value → Result (Option Bool)
optional_boolean undefined = ok none
optional_boolean v = and_then (boolean_of v) λ b. ok (some b)

unfoldable pub require_version : Value → Result (Unit {0})
require_version v = if is_number rpc_version v then ok tt else invalid

unfoldable pub repo_path : Value → Result Text
repo_path v = and_then (string_of v) λ input. elim (normalize_repo_path input) [
  | err e ↦ invalid
  | ok normalized ↦ if text_eq normalized input then ok input else invalid
]

-- The loop that builds the binary string takes 32,768 bytes at a time, all of them in order.
unfoldable pub encode_rpc_bytes : Bytes → Value
encode_rpc_bytes bytes = object (prop "base64" (string (btoa bytes)) no_fields)

-- Every character is a digit of base 64, or `=` among the last two.
unfoldable pub is_base64 : Text → Bool
is_base64 [] = true
is_base64 (code ∷ rest) =
    ((leb 65 code && leb code 90)
      || (leb 97 code && leb code 122)
      || (leb 48 code && leb code 57)
      || code == 43
      || code == 47
      || (code == pad && leb (length rest) 1))
    && is_base64 rest

unfoldable pub decode_rpc_bytes : Value → Result Bytes
decode_rpc_bytes v = and_then (record_of v (text "base64" ∷ [])) λ fields.
    and_then (string_of (get (text "base64") fields)) λ base64.
      if not (length base64 % 4 == 0) || not (is_base64 base64)
      then invalid
      else elim (atob base64) [
        | none ↦ invalid
        | some binary ↦ if text_eq (btoa binary) base64 then ok binary else invalid
      ]
