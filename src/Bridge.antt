-- ===== src/Bridge.antt =====
-- extensions/git-http-provider/src/bridge-frame.ts: the frames between the two sides of the bridge of
-- git over HTTP, after decryption.
pub mod Frames
use remotish.Shared.{
  Text, text, Dict, Result, ok, and_then, throw_code, RemotishErrorCode, List, [], ◌∷◌, Bool, true,
  not, ◌&&◌, ◌||◌, ◌==◌, leb, if◌then◌else◌, length, ℕ,
}
use remotish.Json.{
  Value, undefined, number, string, object, instance_of, Fields, no_fields, field, prop, get,
  is_text, is_number,
}

pub data BridgeFailureCode : Type 0 where
  offline unauthorized forbidden unsupported invalid_request unknown : BridgeFailureCode

pub data BridgeFrame : Type 0 where
  hello_request : Text → Text → BridgeFrame
  hello : Text → Text → Text → BridgeFrame
  request : Text → Text → Text → Text → Text → Dict Text → Text → BridgeFrame
  response : Text → Text → Text → ℕ → Dict Text → Text → BridgeFrame
  failure : Text → Text → Text → BridgeFailureCode → BridgeFrame
  cancel : Text → Text → Text → BridgeFrame

abbrev pub invalid_frame {ℓ} : {A : Type ℓ} → Result A
invalid_frame = throw_code RemotishErrorCode.invalid_request

-- `/^[0-9a-f]{32}$/u`
unfoldable pub are_hex_digits : Text → Bool
are_hex_digits [] = true
are_hex_digits (c ∷ s) = ((leb 48 c && leb c 57) || (leb 97 c && leb c 102)) && are_hex_digits s

unfoldable pub is_id : Text → Bool
is_id s = length s == 32 && are_hex_digits s

unfoldable pub require_fields : Value → Result Fields
require_fields (object fields) = ok fields
require_fields (instance_of fields) = ok fields
require_fields _ = invalid_frame

-- The type of a string, and the pattern of an identifier.
unfoldable pub string_field : Value → Result Text
string_field (string s) = ok s
string_field _ = invalid_frame

unfoldable pub require_id : Value → Result Text
require_id v = and_then (string_field v) λ s. if not (is_id s) then invalid_frame else ok s

unfoldable pub header_list : Fields → Result (Dict Text)
header_list no_fields = ok []
header_list (field key entry fields) = and_then (string_field entry) λ value.
    if not (leb (length key) 64 && leb (length value) 4096)
    then invalid_frame
    else (and_then (header_list fields) λ rest. ok ((key, value) ∷ rest))

-- `isHeaders`, with the names and values that it lets pass.
unfoldable pub require_headers : Value → Result (Dict Text)
require_headers v = and_then (require_fields v) λ fields.
    and_then (header_list fields)
      λ headers. if not (leb (length headers) 32) then invalid_frame else ok headers

unfoldable pub require_failure_code : Value → Result BridgeFailureCode
require_failure_code v =
    if is_text (text "OFFLINE") v
    then ok offline
    else if is_text (text "UNAUTHORIZED") v
    then ok unauthorized
    else if is_text (text "FORBIDDEN") v
    then ok forbidden
    else if is_text (text "UNSUPPORTED") v
    then ok unsupported
    else if is_text (text "INVALID_REQUEST") v
    then ok invalid_request
    else if is_text (text "UNKNOWN") v
    then ok unknown
    else invalid_frame

unfoldable pub require_status : Value → Result ℕ
require_status (number n) = if not (leb 100 n && leb n 599) then invalid_frame else ok n
require_status _ = invalid_frame

module _ (fields : Fields) (host_id id session_id : Text) where
  unfoldable pub decode_request : Result BridgeFrame
  decode_request = and_then (string_field (get (text "url") fields)) λ url.
      and_then (string_field (get (text "method") fields)) λ method.
        and_then (string_field (get (text "body") fields)) λ body.
          and_then (require_headers (get (text "headers") fields))
            λ headers. ok (request host_id id session_id url method headers body)

  unfoldable pub decode_response : Result BridgeFrame
  decode_response = and_then (require_status (get (text "status") fields)) λ status.
      and_then (string_field (get (text "body") fields)) λ body.
        and_then (require_headers (get (text "headers") fields))
          λ headers. ok (response host_id id session_id status headers body)

  unfoldable pub decode_failure : Result BridgeFrame
  decode_failure =
      and_then (require_failure_code (get (text "code") fields))
        λ code. ok (failure host_id id session_id code)

  -- The frames of a session, by their kind.
  unfoldable pub decode_kind : Value → Result BridgeFrame
  decode_kind kind =
      if is_text (text "hello") kind
      then ok (hello host_id id session_id)
      else if is_text (text "cancel") kind
      then ok (cancel host_id id session_id)
      else if is_text (text "failure") kind
      then decode_failure
      else if is_text (text "request") kind
      then decode_request
      else if is_text (text "response") kind
      then decode_response
      else invalid_frame

unfoldable pub decode_bridge_frame : Value → Result BridgeFrame
decode_bridge_frame v = and_then (require_fields v) λ fields.
    if not (is_number 1 (get (text "version") fields))
    then invalid_frame
    else (and_then (require_id (get (text "hostId") fields)) λ host_id.
        and_then (require_id (get (text "id") fields)) λ id.
          let kind = get (text "kind") fields in
          if is_text (text "hello-request") kind
          then ok (hello_request host_id id)
          else (and_then (require_id (get (text "sessionId") fields))
              λ session_id. decode_kind fields host_id id session_id kind))

-- A frame as an object, as both sides build it.
abbrev pub failure_code_name : BridgeFailureCode → Text
failure_code_name offline = text "OFFLINE"
failure_code_name unauthorized = text "UNAUTHORIZED"
failure_code_name forbidden = text "FORBIDDEN"
failure_code_name unsupported = text "UNSUPPORTED"
failure_code_name invalid_request = text "INVALID_REQUEST"
failure_code_name unknown = text "UNKNOWN"

abbrev pub fields_of_headers : Dict Text → Fields
fields_of_headers [] = no_fields
fields_of_headers ((key, value) ∷ headers) = field key (string value) (fields_of_headers headers)

abbrev pub frame_object : Text → Text → Text → Fields → Value
frame_object kind host_id id rest = object (
    prop "version" (number 1)
      (prop "kind" (string kind) (prop "hostId" (string host_id) (prop "id" (string id) rest))))

unfoldable pub value_of_frame : BridgeFrame → Value
value_of_frame (hello_request host id) = frame_object (text "hello-request") host id no_fields
value_of_frame (hello host id session) =
    frame_object (text "hello") host id (prop "sessionId" (string session) no_fields)
value_of_frame (cancel host id session) =
    frame_object (text "cancel") host id (prop "sessionId" (string session) no_fields)
value_of_frame (failure host id session code) =
    frame_object (text "failure") host id
      (prop "sessionId" (string session) (prop "code" (string (failure_code_name code)) no_fields))
value_of_frame (request host id session url method headers body) =
    frame_object (text "request") host id (
      prop "sessionId" (string session) (
        prop "url" (string url) (
          prop "method" (string method) (
            prop "headers" (object (fields_of_headers headers))
              (prop "body" (string body) no_fields)))))
value_of_frame (response host id session status headers body) =
    frame_object (text "response") host id (
      prop "sessionId" (string session) (
        prop "status" (number status) (
          prop "headers" (object (fields_of_headers headers))
            (prop "body" (string body) no_fields))))
