-- ===== src/Rpc/Commits.antt =====
-- adapters/rpc/src/rpc-request-codec.ts: commit requests on the wire, and those that an endpoint
-- accepts.
use remotish.Shared.{
  Text, text, ok, and_then, and_then-ok, ok_injective, unless-ok, Bytes, contains, List, [], ◌∷◌,
  All, Bool, true, false, if◌then◌else◌, is_nil, text_eq, ◌≡◌, refl, inl, inr, Bool-cases,
}
use mathlib.Core.Path.{subst}
use remotish.Sdk.{
  Change, add_file, modify_file, delete_file, CommitRequest, CommitRequestType, Push, normal,
  force_with_lease,
}
use remotish.Paths.{normalize_repo_path}
use remotish.Base64.RoundTrip.{IsBytes}
use remotish.Json.{
  Value, Fields, get, has, keys_within, is_text, items_of, decode_items, decode_items-items_of,
  decode_items-All,
}
use remotish.Rpc.{
  invalid, record_of, array_of, string_of, nonempty, repo_path, decode_rpc_bytes, require_version,
  is_operation, commit,
}
use remotish.Rpc.Contents.{
  decode_rpc_bytes-encode, decode_rpc_bytes-IsBytes, nonempty-string, nonempty_said,
  repo_path-string, repo_path_canonical,
}
use remotish.Rpc.Requests.{
  publish, encode_change, encode_push, encode_rpc_commit, decode_change, check_push, decode_push,
  decode_type, commit_request, decode_request_payload, decode_rpc_request,
}
use remotish.Rpc.Client.{request_envelope}

-- A change of a file of the repository, by its canonical path, to a list of bytes.
abbrev pub IsSendableChange : Change → Type 0
IsSendableChange (add_file path content) = (normalize_repo_path path ≡ ok path) × IsBytes content
IsSendableChange (modify_file path content) = (normalize_repo_path path ≡ ok path) × IsBytes content
IsSendableChange (delete_file path) = normalize_repo_path path ≡ ok path

-- An amending request has a lease, and a lease is not empty.
abbrev pub IsLeased : CommitRequestType → Push → Type 0
IsLeased type normal = type ≡ CommitRequestType.commit
IsLeased type (force_with_lease lease) = is_nil lease ≡ false

abbrev pub IsSendable : CommitRequest → Type 0
IsSendable r =
    (is_nil r.branch ≡ false)
    × (is_nil r.base_revision ≡ false)
    × IsLeased r.type r.push
    × All IsSendableChange r.changes

decode_change-encode : (c : Change) → IsSendableChange c → decode_change (encode_change c) ≡ ok c
unfolding decode_change encode_change record_of get has keys_within contains text_eq
decode_change-encode (delete_file path) h = rw (repo_path-string path h) refl
decode_change-encode (add_file path content) (h, b) =
    rw (repo_path-string path h, decode_rpc_bytes-encode content b) refl
decode_change-encode (modify_file path content) (h, b) =
    rw (repo_path-string path h, decode_rpc_bytes-encode content b) refl

decode_changes-encode :
    (cs : List Change)
    → All IsSendableChange cs
    → decode_items decode_change (items_of encode_change cs) ≡ ok cs
decode_changes-encode cs h =
    decode_items-items_of IsSendableChange decode_change encode_change cs decode_change-encode h

module _ (branch base_revision message : Text) (changes : List Change) where
  abbrev request_of : CommitRequestType → Push → CommitRequest
  request_of type push = record {
    type = type;
    branch = branch;
    base_revision = base_revision;
    message = message;
    changes = changes;
    push = push;
  }

  commit_request-encode_as :
      (type : CommitRequestType) (push : Push)
      → IsSendable (request_of type push)
      → commit_request (encode_rpc_commit (request_of type push)) ≡ ok (request_of type push)
  unfolding commit_request encode_rpc_commit encode_push check_push decode_push array_of string_of
      record_of get has keys_within contains text_eq
  commit_request-encode_as CommitRequestType.commit normal (b, r, l, c) =
      rw
        (decode_changes-encode changes c, nonempty-string branch b, nonempty-string base_revision r)
        refl
  commit_request-encode_as CommitRequestType.amend normal (b, r, l, c) = absurd cc
  commit_request-encode_as CommitRequestType.commit (force_with_lease lease) (b, r, l, c) =
      rw
        (
          decode_changes-encode changes c,
          nonempty-string branch b,
          nonempty-string base_revision r,
          nonempty-string lease l,
        )
        refl
  commit_request-encode_as CommitRequestType.amend (force_with_lease lease) (b, r, l, c) =
      rw
        (
          decode_changes-encode changes c,
          nonempty-string branch b,
          nonempty-string base_revision r,
          nonempty-string lease l,
        )
        refl

pub commit_request-encode :
    (r : CommitRequest) → IsSendable r → commit_request (encode_rpc_commit r) ≡ ok r
commit_request-encode r h =
    commit_request-encode_as r.branch r.base_revision r.message r.changes r.type r.push h

-- A commit request that has a branch and a base, whose changes are of canonical paths to lists of
-- bytes, that has a lease if it amends and no empty lease, is read back by the endpoint as it was:
-- type, branch, base, message, changes in their order and push mode.
pub decode_rpc_request-encode :
    (r : CommitRequest)
    → IsSendable r
    → decode_rpc_request (request_envelope commit (encode_rpc_commit r))
      ≡ ok (record { operation = commit; payload = publish r })
unfolding decode_rpc_request request_envelope record_of require_version string_of is_operation get
    keys_within contains text_eq decode_request_payload
decode_rpc_request-encode r h = rw (commit_request-encode r h) refl

-- What an endpoint reads.
deletes-IsSendableChange :
    (fields : Fields) (c : Change)
    → (if has (text "content") fields
        then invalid
        else (and_then (repo_path (get (text "path") fields)) λ path. ok (delete_file path)))
      ≡ ok c
    → IsSendableChange c
deletes-IsSendableChange fields c h =
    let (without, h1) = unless-ok (has (text "content") fields) _ _ h in
    let (path, e, h2) = and_then-ok (repo_path (get (text "path") fields)) _ h1 in
    subst IsSendableChange (ok_injective h2) (repo_path_canonical _ path e)

written-IsSendableChange :
    (adds : Bool) (path : Text) (content : Bytes)
    → normalize_repo_path path ≡ ok path
    → IsBytes content
    → IsSendableChange (if adds then add_file path content else modify_file path content)
written-IsSendableChange true path content e b = (e, b)
written-IsSendableChange false path content e b = (e, b)

decode_change-IsSendableChange :
    (v : Value) (c : Change) → decode_change v ≡ ok c → IsSendableChange c
unfolding decode_change
decode_change-IsSendableChange v c h =
    let (fields, f, h1) =
      and_then-ok (record_of v (text "type" ∷ text "path" ∷ text "content" ∷ [])) _ h in
    elim (Bool-cases (is_text (text "delete") (get (text "type") fields))) [
      | inl d ↦ deletes-IsSendableChange fields c (rw d at h1)
      | inr n ↦
          let (known, h2) = unless-ok _ _ _ (rw n at h1) in
          let (path, e, h3) = and_then-ok (repo_path (get (text "path") fields)) _ h2 in
          let (content, g, h4) =
            and_then-ok (decode_rpc_bytes (get (text "content") fields)) _ h3 in
          subst IsSendableChange (ok_injective h4) (
            written-IsSendableChange _ path content (repo_path_canonical _ path e)
              (decode_rpc_bytes-IsBytes _ content g))
    ]

-- A push mode that passes both checks, for the type that is read with it.
decode_push-IsLeased :
    (type : Value) (push : Fields) (mode : Push)
    → check_push type push ≡ ok tt
    → decode_push push ≡ ok mode
    → IsLeased (decode_type type mode) mode
unfolding decode_push
decode_push-IsLeased type push normal g h = refl
decode_push-IsLeased type push (force_with_lease lease) g h =
    elim (Bool-cases (is_text (text "normal") (get (text "mode") push))) [
      | inl y ↦ absurd (let x = rw y at h in cc)
      | inr n ↦
          let (said, e, h1) =
            and_then-ok (nonempty (get (text "expectedRevision") push)) _ (rw n at h) in
          let same : said ≡ lease = cc in
          subst (λ s. is_nil s ≡ false) same (nonempty_said _ said e)
    ]

-- A commit request that the endpoint accepts, from whatever value, has a branch and a base
-- revision, has a lease that is not empty if it amends or forces, and its changes are of canonical
-- paths to lists of bytes.
pub commit_request-IsSendable :
    (v : Value) (r : CommitRequest) → commit_request v ≡ ok r → IsSendable r
unfolding commit_request
commit_request-IsSendable v r h =
    let (fields, f, h1) = and_then-ok (record_of v _) _ h in
    let (push, p, h2) = and_then-ok (record_of (get (text "push") fields) _) _ h1 in
    let (checked, k, h3) = and_then-ok (check_push (get (text "type") fields) push) _ h2 in
    let (items, i, h4) = and_then-ok (array_of (get (text "changes") fields)) _ h3 in
    let (changes, c, h5) = and_then-ok (decode_items decode_change items) _ h4 in
    let (branch, b, h6) = and_then-ok (nonempty (get (text "branch") fields)) _ h5 in
    let (base, d, h7) = and_then-ok (nonempty (get (text "baseRevision") fields)) _ h6 in
    let (message, m, h8) = and_then-ok (string_of (get (text "message") fields)) _ h7 in
    let (mode, o, h9) = and_then-ok (decode_push push) _ h8 in
    subst IsSendable (ok_injective h9) (
      nonempty_said _ branch b,
      nonempty_said _ base d,
      decode_push-IsLeased _ push mode k o,
      decode_items-All IsSendableChange decode_change items changes decode_change-IsSendableChange
          c,
    )
