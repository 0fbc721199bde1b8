-- ===== src/Rpc/Responses.antt =====
-- adapters/rpc/src/rpc-result-codec.ts and rpc-adapter.ts: what a client makes of the responses of an
-- endpoint.
use remotish.Shared.{
  Text, Bytes, text, text_eq, ok, and_then, and_then-ok, ok_injective, throw_code,
  RemotishErrorCode, not_found, unauthorized, forbidden, rate_limited, offline, unsupported,
  invalid_request, cancelled, unknown, contains, starts_with, starts_with→append, All, inl, inr,
  Bool-cases, drop, length, List, [], ◌∷◌, true, false, ◌||◌, ◌==◌, if◌then◌else◌, ◌≡◌, ◌≢◌,
  Result-cases, Option-cases, refl, sym, ap, ◌∙◌, is_nil, ◌++◌, any_of, unless-ok, text_eq→eq,
  arith,
}
use remotish.Json.{
  Value, Fields, decode_items-All, get, has, keys_within, is_text, number, object, prop, string,
  no_fields,
}
use remotish.Paths.{slash, base_name}
use mathlib.Core.Path.{subst}
use remotish.Sdk.{DirectoryEntry, RemotishCapabilities}
use remotish.Rpc.{
  RpcOperation, rpc_version, read_directory, read_file, encode_rpc_bytes, array_of, record_of,
  string_of, nonempty, repo_path, require_version, is_error_code,
}
use remotish.Base64.RoundTrip.{IsBytes}
use remotish.Rpc.Contents.{decode_rpc_bytes-encode}
use remotish.Rpc.Results.{
  RpcResult, EndpointResult, bytes_result, list_of, directory_result, directory_entry, entry_type,
  entry_size, is_bad_name, wire_result, decode_rpc_result, decode_failure, decode_rpc_response,
  encode_rpc_failure, encode_rpc_success, repository_result, file_result, branches_result,
  page_result, changes_result, commit_outcome, branch_result, deleted_result,
}
use remotish.Rpc.Client.{
  Transport, file, never, request_envelope, call, child_of, is_not_child, directory, Abort, before,
  during, as_entries, response_of,
}

-- The failure envelope of each of the nine error codes is decoded to that error, for every
-- operation.
pub decode_rpc_response-failure :
    (operation : RpcOperation) (c : RemotishErrorCode)
    → decode_rpc_response operation (encode_rpc_failure c) ≡ throw_code c
unfolding decode_rpc_response encode_rpc_failure decode_failure record_of require_version string_of
    get has keys_within contains text_eq is_error_code
decode_rpc_response-failure operation not_found = refl
decode_rpc_response-failure operation unauthorized = refl
decode_rpc_response-failure operation forbidden = refl
decode_rpc_response-failure operation rate_limited = refl
decode_rpc_response-failure operation offline = refl
decode_rpc_response-failure operation unsupported = refl
decode_rpc_response-failure operation invalid_request = refl
decode_rpc_response-failure operation cancelled = refl
decode_rpc_response-failure operation unknown = refl

pub decode_rpc_response-success :
    (operation : RpcOperation) (result : EndpointResult) (response : Value)
    → encode_rpc_success operation result ≡ ok response
    → (r : RpcResult) × (decode_rpc_result operation (wire_result operation result) ≡ ok r)
      × (decode_rpc_response operation response ≡ ok r)
unfolding decode_rpc_response encode_rpc_success record_of require_version get has keys_within
    contains text_eq
decode_rpc_response-success operation result response h =
    let (r, e, h1) = and_then-ok (decode_rpc_result operation (wire_result operation result)) _ h in
    (r, e, rw (sym (ok_injective h1)) e)

-- A call that is not aborted and that is answered with a success envelope.
pub call-answers :
    (transport : Transport) (operation : RpcOperation) (payload : Value) (result : EndpointResult)
    (response : Value)
    → encode_rpc_success operation result ≡ ok response
    → transport (request_envelope operation payload) ≡ ok response
    → call transport never operation payload
      ≡ decode_rpc_result operation (wire_result operation result)
unfolding call
call-answers transport operation payload result response h e =
    let (r, d, p) = decode_rpc_response-success operation result response h in
    ap (response_of operation) e ∙ (p ∙ sym d)

file_decoded :
    (bytes : Bytes)
    → IsBytes bytes
    → decode_rpc_result read_file (encode_rpc_bytes bytes) ≡ ok (file_result bytes)
unfolding decode_rpc_result
file_decoded bytes h = rw (decode_rpc_bytes-encode bytes h) refl

file_encoded :
    (bytes : Bytes)
    → IsBytes bytes
    → (response : Value) × (encode_rpc_success read_file (bytes_result bytes) ≡ ok response)
unfolding encode_rpc_success
file_encoded bytes h =
    let response = object (
      prop "version" (number rpc_version)
        (prop "status" (string (text "ok")) (prop "result" (encode_rpc_bytes bytes) no_fields))) in
    (response, rw (file_decoded bytes h) refl)

-- If the transport answers the request for a file as an endpoint encodes its bytes, the remote
-- adapter returns just those bytes, whatever they are and whatever the revision and the path.
pub file-encode_rpc_success :
    (transport : Transport) (capabilities : RemotishCapabilities) (revision path : Text)
    (bytes : Bytes)
    → IsBytes bytes
    → transport (
        request_envelope read_file
          (object (prop "revision" (string revision) (prop "path" (string path) no_fields))))
      ≡ encode_rpc_success read_file (bytes_result bytes)
    → file transport capabilities never revision path ≡ ok bytes
unfolding file
file-encode_rpc_success transport capabilities revision path bytes h e =
    let payload =
      object (prop "revision" (string revision) (prop "path" (string path) no_fields)) in
    let (response, n) = file_encoded bytes h in
    let answered =
      call-answers transport read_file payload (bytes_result bytes) response n (e ∙ n) in
    rw (answered, file_decoded bytes h) refl

-- An entry of a directory: its path is that of the directory and one more segment, its name.
abbrev pub IsEntryOf : Text → DirectoryEntry → Type 0
IsEntryOf path entry =
    (rest : Text) × (entry.path ≡ (if is_nil path then [] else path ++ slash ∷ []) ++ rest)
    × (is_nil rest ≡ false)
    × (any_of (λ c. c == slash) rest ≡ false)
    × (base_name entry.path ≡ entry.name)

IsNamed : DirectoryEntry → Type 0
IsNamed entry = base_name entry.path ≡ entry.name

directory_entry-IsNamed :
    (v : Value) (entry : DirectoryEntry) → directory_entry v ≡ ok entry → IsNamed entry
unfolding directory_entry IsNamed
directory_entry-IsNamed v entry h =
    let (fields, f, h1) = and_then-ok (record_of v _) _ h in
    let (type, t, h2) = and_then-ok (entry_type (get (text "type") fields)) _ h1 in
    let (size, s, h3) = and_then-ok (entry_size (get (text "size") fields)) _ h2 in
    let (name, n, h4) = and_then-ok (nonempty (get (text "name") fields)) _ h3 in
    let (path, p, h5) = and_then-ok (repo_path (get (text "path") fields)) _ h4 in
    let (good, h6) = unless-ok (is_bad_name name path) _ _ h5 in
    let same : text_eq (base_name path) name ≡ true =
      (unfold is_bad_name in ground (arith, good)) in
    subst (λ e. base_name e.path ≡ e.name) (ok_injective h6) (text_eq→eq (base_name path) name same)

drop-append : (p r : Text) → drop (length p) (p ++ r) ≡ r
drop-append [] r = refl
drop-append (c ∷ p) r = drop-append p r

-- An entry that passes the client's test goes on after the directory.
is_not_child-append :
    (path : Text) (entry : DirectoryEntry)
    → is_not_child path entry ≡ false
    → IsNamed entry
    → IsEntryOf path entry
unfolding is_not_child child_of IsNamed
is_not_child-append path entry h n =
    let prefix = if is_nil path then [] else path ++ slash ∷ [] in
    elim (Bool-cases (starts_with entry.path prefix)) [
      | inr no' ↦ absurd (ground (arith, h, no'))
      | inl yes' ↦
          let (rest, e) = starts_with→append entry.path prefix yes' in
          let cut : drop (length prefix) entry.path ≡ rest = rw e (drop-append prefix rest) in
          let k : (is_nil rest || any_of (λ c. c == slash) rest) ≡ false = rw (yes', cut) at h in
          (rest, e, ground (arith, k), ground (arith, k), n)
    ]

entries-AreOf :
    (path : Text) (entries : List DirectoryEntry)
    → any_of (is_not_child path) entries ≡ false
    → All IsNamed entries
    → All (IsEntryOf path) entries
unfolding any_of
entries-AreOf path [] h a = tt
entries-AreOf path (entry ∷ entries) h (n, a) =
    let p : is_not_child path entry ≡ false = ground (arith, h) in
    let q : any_of (is_not_child path) entries ≡ false = ground (arith, h) in
    (is_not_child-append path entry p n, entries-AreOf path entries q a)

decode_rpc_result-AreNamed :
    (v : Value) (entries : List DirectoryEntry)
    → decode_rpc_result read_directory v ≡ ok (directory_result entries)
    → All IsNamed entries
unfolding decode_rpc_result list_of
decode_rpc_result-AreNamed v entries h =
    let (es, e, h1) = and_then-ok (list_of directory_entry v) _ h in
    let (items, i, e1) = and_then-ok (array_of v) _ e in
    let same : es ≡ entries = cc in
    subst (All IsNamed) same
      (decode_items-All IsNamed directory_entry items es directory_entry-IsNamed e1)

-- A failure envelope is never a result.
decode_failure-throws : (response : Fields) (r : RpcResult) → decode_failure response ≢ ok r
unfolding decode_failure
decode_failure-throws response r h =
    let (none', h1) = unless-ok (has (text "result") response) _ _ h in
    let (failure, f, h2) = and_then-ok (record_of (get (text "error") response) _) _ h1 in
    let (code, c, h3) = and_then-ok (string_of (get (text "code") failure)) _ h2 in
    elim (Option-cases (is_error_code code)) [
      | inl n ↦ let x = rw n at h3 in cc
      | inr (k, e) ↦ let x = rw e at h3 in cc
    ]

-- A result that a call returns has been decoded from a value of the wire.
decode_rpc_response-result :
    (operation : RpcOperation) (response : Value) (r : RpcResult)
    → decode_rpc_response operation response ≡ ok r
    → (v : Value) × (decode_rpc_result operation v ≡ ok r)
unfolding decode_rpc_response
decode_rpc_response-result operation response r h =
    let (fields, f, h1) = and_then-ok (record_of response _) _ h in
    let (checked, k, h2) = and_then-ok (require_version (get (text "version") fields)) _ h1 in
    elim (Bool-cases (is_text (text "error") (get (text "status") fields))) [
      | inl failed ↦ absurd (decode_failure-throws fields r (rw failed at h2))
      | inr other ↦
          let (fine, h3) = unless-ok _ _ _ (rw other at h2) in (get (text "result") fields, h3)
    ]

call-result :
    (transport : Transport) (abort : Abort) (operation : RpcOperation) (payload : Value)
    (r : RpcResult)
    → call transport abort operation payload ≡ ok r
    → (v : Value) × (decode_rpc_result operation v ≡ ok r)
unfolding call
call-result transport before operation payload r h = absurd cc
call-result transport during operation payload r h = absurd cc
call-result transport never operation payload r h =
    elim (Result-cases (transport (request_envelope operation payload))) [
      | inr (e, q) ↦ absurd (let x = rw q at h in cc)
      | inl (response, q) ↦ decode_rpc_response-result operation response r (rw q at h)
    ]

as_entries-directory :
    (r : RpcResult) (entries : List DirectoryEntry)
    → as_entries r ≡ ok entries
    → r ≡ directory_result entries
as_entries-directory (repository_result x) entries h = absurd cc
as_entries-directory (directory_result x) entries h = cc
as_entries-directory (file_result x) entries h = absurd cc
as_entries-directory (branches_result x) entries h = absurd cc
as_entries-directory (page_result x) entries h = absurd cc
as_entries-directory (changes_result x) entries h = absurd cc
as_entries-directory (commit_outcome x) entries h = absurd cc
as_entries-directory (branch_result x) entries h = absurd cc
as_entries-directory deleted_result entries h = absurd cc

-- Every entry of a directory that the remote adapter returns, whatever the transport answers, lies
-- in the directory that was read: its path is that of the directory and one more segment, and its
-- name is the last segment of its path.
pub directory-AreEntries :
    (transport : Transport) (capabilities : RemotishCapabilities) (abort : Abort)
    (revision path : Text) (entries : List DirectoryEntry)
    → directory transport capabilities abort revision path ≡ ok entries
    → All (IsEntryOf path) entries
unfolding directory
directory-AreEntries transport capabilities abort revision path entries h =
    let payload =
      object (prop "revision" (string revision) (prop "path" (string path) no_fields)) in
    let (es, e, h1) =
      and_then-ok (and_then (call transport abort read_directory payload) as_entries) _ h in
    let (only, h2) = unless-ok (any_of (is_not_child path) es) _ _ h1 in
    let (r, c, e1) = and_then-ok (call transport abort read_directory payload) as_entries e in
    let (v, d) = call-result transport abort read_directory payload r c in
    let named : All IsNamed es =
      decode_rpc_result-AreNamed v es (d ∙ ap ok (as_entries-directory r es e1)) in
    subst (All (IsEntryOf path)) (ok_injective h2) (entries-AreOf path es only named)
