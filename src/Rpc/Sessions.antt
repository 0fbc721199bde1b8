-- ===== src/Rpc/Sessions.antt =====
-- adapters/rpc/src/rpc-adapter.ts and packages/core/src/adapter-contract.ts: a workspace over a remote
-- endpoint.
use remotish.Shared.{
  text, ok, and_then-ok, ok_injective, unless-ok, false, not, ◌&&◌, ◌||◌, ◌≡◌, arith,
}
use mathlib.Core.Path.{subst}
use remotish.Sdk.{RemotishCapabilities}
use remotish.Json.{Value, Fields, get}
use remotish.Rpc.{record_of, boolean_of, optional_boolean, require_version}
use remotish.Rpc.Requests.{decode_capabilities, decode_rpc_session}
use remotish.Workspace.{Host, validate_adapter_contract}

-- The constructor of `RpcAdapter`: a method is there if the session has its capability.
abbrev pub with_session : Host → RemotishCapabilities → Host
with_session host c = record host {
  capabilities = c;
  has_commit = c.commits;
  has_create_branch = c.create_branch;
  has_delete_branch = c.delete_branch;
}

IsSound : RemotishCapabilities → Type 0
IsSound c = (c.force_with_lease && not c.commits || c.amend && not c.force_with_lease) ≡ false

decode_capabilities-IsSound :
    (caps : Fields) (c : RemotishCapabilities) → decode_capabilities caps ≡ ok c → IsSound c
unfolding decode_capabilities IsSound
decode_capabilities-IsSound caps c h =
    let (commits, p, h1) = and_then-ok (boolean_of (get (text "commits") caps)) _ h in
    let (edits, q, h2) = and_then-ok (optional_boolean (get (text "localEdits") caps)) _ h1 in
    let (force, r, h3) = and_then-ok (optional_boolean (get (text "forceWithLease") caps)) _ h2 in
    let (amend, s, h4) = and_then-ok (optional_boolean (get (text "amend") caps)) _ h3 in
    let (creates, t, h5) = and_then-ok (optional_boolean (get (text "createBranch") caps)) _ h4 in
    let (deletes, u, h6) = and_then-ok (optional_boolean (get (text "deleteBranch") caps)) _ h5 in
    let (sound, h7) = unless-ok _ _ _ h6 in subst IsSound (ok_injective h7) sound

validate-IsSound :
    (host : Host) (c : RemotishCapabilities)
    → IsSound c
    → validate_adapter_contract (with_session host c) ≡ ok tt
unfolding validate_adapter_contract IsSound
validate-IsSound host c s = ground (arith, s)

-- An adapter over a session that is accepted passes the check of the adapter contract with which a
-- workspace opens.
pub validate_adapter_contract-decode :
    (host : Host) (session : Value) (c : RemotishCapabilities)
    → decode_rpc_session session ≡ ok c
    → validate_adapter_contract (with_session host c) ≡ ok tt
unfolding decode_rpc_session
validate_adapter_contract-decode host session c h =
    let (fields, f, h1) = and_then-ok (record_of session _) _ h in
    let (checked, k, h2) = and_then-ok (require_version (get (text "version") fields)) _ h1 in
    let (caps, g, h3) = and_then-ok (record_of (get (text "capabilities") fields) _) _ h2 in
    validate-IsSound host c (decode_capabilities-IsSound caps c h3)
