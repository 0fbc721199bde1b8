-- ===== src/Bridge/Frames.antt =====
-- extensions/git-http-provider/src/bridge-frame.ts: which frames are accepted, and that those are read
-- back as they were.
use remotish.Shared.{
  Text, text, text_eq, Dict, ok, and_then, and_then-ok, ok_injective, unless-ok, [], ◌∷◌, All, Bool,
  true, false, not, ◌&&◌, leb, if◌then◌else◌, length, ℕ, ◌≤◌, ◌≡◌, refl, arith, leb→le, Bool-cases,
  inl, inr,
}
use mathlib.Core.Path.{subst}
use remotish.Json.{
  Value, undefined, null, other, boolean, number, string, array, object, instance_of, Fields,
  no_fields, field, get, is_text, is_number,
}
use remotish.Bridge.{
  BridgeFailureCode, BridgeFrame, hello_request, hello, request, response, failure, cancel, is_id,
  require_fields, string_field, require_id, header_list, require_headers, require_failure_code,
  require_status, decode_request, decode_response, decode_failure, decode_kind, decode_bridge_frame,
  failure_code_name, fields_of_headers, value_of_frame,
}

abbrev pub IsHeaders : Dict Text → Type 0
IsHeaders headers =
    (length headers ≤ 32) × All (λ h. (length h.0 ≤ 64) × (length h.1 ≤ 4096)) headers

-- Identifiers are 32 hexadecimal digits, a status is one of HTTP, and headers are bounded.
abbrev pub IsFrame : BridgeFrame → Type 0
IsFrame (hello_request host id) = (is_id host ≡ true) × (is_id id ≡ true)
IsFrame (hello host id session) = (is_id host ≡ true) × (is_id id ≡ true) × (is_id session ≡ true)
IsFrame (cancel host id session) = (is_id host ≡ true) × (is_id id ≡ true) × (is_id session ≡ true)
IsFrame (failure host id session code) =
    (is_id host ≡ true) × (is_id id ≡ true) × (is_id session ≡ true)
IsFrame (request host id session url method headers body) =
    (is_id host ≡ true) × (is_id id ≡ true) × (is_id session ≡ true) × IsHeaders headers
IsFrame (response host id session status headers body) =
    (is_id host ≡ true)
    × (is_id id ≡ true)
    × (is_id session ≡ true)
    × ((100 ≤ status) × (status ≤ 599))
    × IsHeaders headers

require_id-string : (s : Text) → is_id s ≡ true → require_id (string s) ≡ ok s
unfolding require_id string_field
require_id-string s h = rw h refl

header_list-fields :
    (hs : Dict Text)
    → All (λ h. (length h.0 ≤ 64) × (length h.1 ≤ 4096)) hs
    → header_list (fields_of_headers hs) ≡ ok hs
unfolding header_list string_field
header_list-fields [] a = refl
header_list-fields ((key, value) ∷ hs) ((k, v), a) =
    let short : (leb (length key) 64 && leb (length value) 4096) ≡ true = ground (arith, k, v) in
    rw (short, header_list-fields hs a) refl

require_headers-fields :
    (hs : Dict Text) → IsHeaders hs → require_headers (object (fields_of_headers hs)) ≡ ok hs
unfolding require_headers require_fields
require_headers-fields hs (l, a) =
    let few : leb (length hs) 32 ≡ true = ground (arith, l) in
    rw (header_list-fields hs a, few) refl

require_status-number : (n : ℕ) → 100 ≤ n → n ≤ 599 → require_status (number n) ≡ ok n
unfolding require_status
require_status-number n l u =
    let fits : (leb 100 n && leb n 599) ≡ true = ground (arith, l, u) in rw fits refl

require_failure_code-name :
    (c : BridgeFailureCode) → require_failure_code (string (failure_code_name c)) ≡ ok c
unfolding require_failure_code text_eq
require_failure_code-name BridgeFailureCode.offline = refl
require_failure_code-name BridgeFailureCode.unauthorized = refl
require_failure_code-name BridgeFailureCode.forbidden = refl
require_failure_code-name BridgeFailureCode.unsupported = refl
require_failure_code-name BridgeFailureCode.invalid_request = refl
require_failure_code-name BridgeFailureCode.unknown = refl

pub decode_bridge_frame-value :
    (f : BridgeFrame) → IsFrame f → decode_bridge_frame (value_of_frame f) ≡ ok f
unfolding decode_bridge_frame value_of_frame require_fields get text_eq decode_kind decode_failure
    decode_request decode_response string_field
decode_bridge_frame-value (hello_request host id) (h, i) =
    rw (require_id-string host h, require_id-string id i) refl
decode_bridge_frame-value (hello host id session) (h, i, s) =
    rw (require_id-string host h, require_id-string id i, require_id-string session s) refl
decode_bridge_frame-value (cancel host id session) (h, i, s) =
    rw (require_id-string host h, require_id-string id i, require_id-string session s) refl
decode_bridge_frame-value (failure host id session code) (h, i, s) =
    rw
      (
        require_id-string host h,
        require_id-string id i,
        require_id-string session s,
        require_failure_code-name code,
      )
      refl
decode_bridge_frame-value (request host id session url method headers body) (h, i, s, hs) =
    rw
      (
        require_id-string host h,
        require_id-string id i,
        require_id-string session s,
        require_headers-fields headers hs,
      )
      refl
decode_bridge_frame-value (response host id session status headers body) (h, i, s, (l, u), hs) =
    rw
      (
        require_id-string host h,
        require_id-string id i,
        require_id-string session s,
        require_status-number status l u,
        require_headers-fields headers hs,
      )
      refl

-- What is accepted.
not-false : (b : Bool) → not b ≡ false → b ≡ true
not-false true h = refl
not-false false h = cc

require_id-is_id : (v : Value) (s : Text) → require_id v ≡ ok s → is_id s ≡ true
unfolding require_id
require_id-is_id v s h =
    let (t, e, h1) = and_then-ok (string_field v) _ h in
    let (fits, h2) = unless-ok (not (is_id t)) _ _ h1 in
    subst (λ u. is_id u ≡ true) (ok_injective h2) (not-false (is_id t) fits)

header_list-AreShort :
    (fields : Fields) (hs : Dict Text)
    → header_list fields ≡ ok hs
    → All (λ h. (length h.0 ≤ 64) × (length h.1 ≤ 4096)) hs
unfolding header_list
header_list-AreShort no_fields hs e =
    subst (All (λ h. (length h.0 ≤ 64) × (length h.1 ≤ 4096))) (ok_injective e) tt
header_list-AreShort (field key entry fields) hs e =
    let (value, f, h1) = and_then-ok (string_field entry) _ e in
    let (short, h2) = unless-ok (not (leb (length key) 64 && leb (length value) 4096)) _ _ h1 in
    let (rest, g, h3) = and_then-ok (header_list fields) _ h2 in
    let fits = not-false (leb (length key) 64 && leb (length value) 4096) short in
    subst (All (λ h. (length h.0 ≤ 64) × (length h.1 ≤ 4096))) (ok_injective h3)
      ((ground (arith, fits), ground (arith, fits)), header_list-AreShort fields rest g)

require_headers-IsHeaders : (v : Value) (hs : Dict Text) → require_headers v ≡ ok hs → IsHeaders hs
unfolding require_headers
require_headers-IsHeaders v hs h =
    let (fields, e, h1) = and_then-ok (require_fields v) _ h in
    let (headers, f, h2) = and_then-ok (header_list fields) _ h1 in
    let (few, h3) = unless-ok (not (leb (length headers) 32)) _ _ h2 in
    let fits = not-false (leb (length headers) 32) few in
    subst IsHeaders (ok_injective h3)
      (leb→le (length headers) 32 fits, header_list-AreShort fields headers f)

require_status-bounds : (v : Value) (n : ℕ) → require_status v ≡ ok n → (100 ≤ n) × (n ≤ 599)
unfolding require_status
require_status-bounds (number m) n h =
    let (fits, h1) = unless-ok (not (leb 100 m && leb m 599)) _ _ h in
    let within = not-false (leb 100 m && leb m 599) fits in
    subst (λ k. (100 ≤ k) × (k ≤ 599)) (ok_injective h1)
      (ground (arith, within), ground (arith, within))
require_status-bounds undefined n h = absurd cc
require_status-bounds null n h = absurd cc
require_status-bounds other n h = absurd cc
require_status-bounds (boolean b) n h = absurd cc
require_status-bounds (string s) n h = absurd cc
require_status-bounds (array _) n h = absurd cc
require_status-bounds (object _) n h = absurd cc
require_status-bounds (instance_of _) n h = absurd cc

module _ (fields : Fields) (host id session : Text) (h : is_id host ≡ true) (i : is_id id ≡ true)
    (s : is_id session ≡ true) where
  decode_request-IsFrame :
      (f : BridgeFrame) → decode_request fields host id session ≡ ok f → IsFrame f
  unfolding decode_request
  decode_request-IsFrame f e =
      let (url, e1, h1) = and_then-ok (string_field (get (text "url") fields)) _ e in
      let (method, e2, h2) = and_then-ok (string_field (get (text "method") fields)) _ h1 in
      let (body, e3, h3) = and_then-ok (string_field (get (text "body") fields)) _ h2 in
      let (headers, e4, h4) = and_then-ok (require_headers (get (text "headers") fields)) _ h3 in
      subst IsFrame (ok_injective h4) (h, i, s, require_headers-IsHeaders _ headers e4)

  decode_response-IsFrame :
      (f : BridgeFrame) → decode_response fields host id session ≡ ok f → IsFrame f
  unfolding decode_response
  decode_response-IsFrame f e =
      let (status, e1, h1) = and_then-ok (require_status (get (text "status") fields)) _ e in
      let (body, e2, h2) = and_then-ok (string_field (get (text "body") fields)) _ h1 in
      let (headers, e3, h3) = and_then-ok (require_headers (get (text "headers") fields)) _ h2 in
      subst IsFrame (ok_injective h3)
        (h, i, s, require_status-bounds _ status e1, require_headers-IsHeaders _ headers e3)

  decode_failure-IsFrame :
      (f : BridgeFrame) → decode_failure fields host id session ≡ ok f → IsFrame f
  unfolding decode_failure
  decode_failure-IsFrame f e =
      let (code, e1, h1) = and_then-ok (require_failure_code (get (text "code") fields)) _ e in
      subst IsFrame (ok_injective h1) (h, i, s)

  decode_kind-IsFrame :
      (kind : Value) (f : BridgeFrame) → decode_kind fields host id session kind ≡ ok f → IsFrame f
  unfolding decode_kind
  decode_kind-IsFrame kind f e = elim (Bool-cases (is_text (text "hello") kind)) [
    | inl y ↦ subst IsFrame (ok_injective (rw y at e)) (h, i, s)
    | inr n1 ↦ elim (Bool-cases (is_text (text "cancel") kind)) [
      | inl y ↦ subst IsFrame (ok_injective (rw (n1, y) at e)) (h, i, s)
      | inr n2 ↦ elim (Bool-cases (is_text (text "failure") kind)) [
        | inl y ↦ decode_failure-IsFrame f (rw (n1, n2, y) at e)
        | inr n3 ↦ elim (Bool-cases (is_text (text "request") kind)) [
          | inl y ↦ decode_request-IsFrame f (rw (n1, n2, n3, y) at e)
          | inr n4 ↦ elim (Bool-cases (is_text (text "response") kind)) [
            | inl y ↦ decode_response-IsFrame f (rw (n1, n2, n3, n4, y) at e)
            | inr n5 ↦ absurd (let x = rw (n1, n2, n3, n4, n5) at e in cc)
          ]
        ]
      ]
    ]
  ]

in_session-IsFrame :
    (fields : Fields) (host id : Text) (f : BridgeFrame)
    → is_id host ≡ true
    → is_id id ≡ true
    → (if is_text (text "hello-request") (get (text "kind") fields)
        then ok (hello_request host id)
        else (and_then
            (require_id (get (text "sessionId") fields))
            λ session. decode_kind fields host id session (get (text "kind") fields)))
      ≡ ok f
    → IsFrame f
in_session-IsFrame fields host id f h i e =
    elim (Bool-cases (is_text (text "hello-request") (get (text "kind") fields))) [
      | inl y ↦ subst IsFrame (ok_injective (rw y at e)) (h, i)
      | inr n ↦
          let (session, e5, h5) =
            and_then-ok (require_id (get (text "sessionId") fields)) _ (rw n at e) in
          decode_kind-IsFrame fields host id session h i (require_id-is_id _ session e5)
            (get (text "kind") fields) f h5
    ]

accepted-IsFrame : (v : Value) (f : BridgeFrame) → decode_bridge_frame v ≡ ok f → IsFrame f
unfolding decode_bridge_frame
accepted-IsFrame v f e =
    let (fields, e1, h1) = and_then-ok (require_fields v) _ e in
    let (right, h2) = unless-ok (not (is_number 1 (get (text "version") fields))) _ _ h1 in
    let (host, e3, h3) = and_then-ok (require_id (get (text "hostId") fields)) _ h2 in
    let (id, e4, h4) = and_then-ok (require_id (get (text "id") fields)) _ h3 in
    in_session-IsFrame fields host id f (require_id-is_id _ host e3) (require_id-is_id _ id e4) h4

-- A frame of the bridge of git over HTTP that is accepted, from whatever value, has identifiers of
-- 32 hexadecimal digits, a status from 100 to 599 if it is a response, and at most 32 headers of
-- names of at most 64 and values of at most 4,096 characters; and the object that is built of it is
-- read back as it.
pub decode_bridge_frame-IsFrame :
    (v : Value) (f : BridgeFrame)
    → decode_bridge_frame v ≡ ok f
    → IsFrame f × (decode_bridge_frame (value_of_frame f) ≡ ok f)
decode_bridge_frame-IsFrame v f e =
    let is_frame = accepted-IsFrame v f e in (is_frame, decode_bridge_frame-value f is_frame)
