-- ===== src/Rpc/Contents.antt =====
-- adapters/rpc/src/rpc-codec-primitives.ts: file contents on the wire, and the decoders of strings.
use remotish.Shared.{
  Text, Bytes, text, text_eq, text_eq_refl, text_eq→eq, ok, err, and_then-ok, ok_injective,
  contains, [], ◌∷◌, true, false, not, ◌||◌, ◌==◌, if◌then◌else◌, is_nil, length, ℕ, ◌%◌, ◌<◌, ◌≡◌,
  refl, ap, ◌∙◌, arith, inl, inr, Bool-cases, Option-cases, Result-cases,
}
use mathlib.Core.Path.{subst}
use remotish.Paths.{normalize_repo_path}
use remotish.Base64.{pad, digit, btoa, atob}
use remotish.Base64.RoundTrip.{IsBytes, length-btoa, atob-btoa, atob-IsBytes}
use remotish.Json.{Value, string, get, keys_within}
use remotish.Rpc.{
  invalid, record_of, string_of, nonempty, repo_path, is_base64, encode_rpc_bytes, decode_rpc_bytes,
}

is_base64-digit : (x : ℕ) (s : Text) → x < 64 → is_base64 s ≡ true → is_base64 (digit x ∷ s) ≡ true
unfolding is_base64 digit
is_base64-digit x s h e = ground (arith, e)

is_base64_pads : (is_base64 (pad ∷ []) ≡ true) × (is_base64 (pad ∷ pad ∷ []) ≡ true)
unfolding is_base64
is_base64_pads = (refl, refl)

is_base64-btoa : (bs : Bytes) → IsBytes bs → is_base64 (btoa bs) ≡ true
unfolding btoa
is_base64-btoa [] h = unfold is_base64 in refl
is_base64-btoa (a ∷ []) (p, h) =
    is_base64-digit _ _ (omega arith) (is_base64-digit _ _ (omega arith) is_base64_pads.1)
is_base64-btoa (a ∷ b ∷ []) (p, (q, h)) =
    is_base64-digit _ _ (omega arith)
      (is_base64-digit _ _ (omega arith) (is_base64-digit _ _ (omega arith) is_base64_pads.0))
is_base64-btoa (a ∷ b ∷ c ∷ rest) (p, (q, (r, h))) = is_base64-digit _ _ (omega arith) (
    is_base64-digit _ _ (omega arith) (
      is_base64-digit _ _ (omega arith)
        (is_base64-digit _ _ (omega arith) (is_base64-btoa rest h))))

-- A list of bytes is read back from its form on the wire, in base 64.
pub decode_rpc_bytes-encode :
    (bs : Bytes) → IsBytes bs → decode_rpc_bytes (encode_rpc_bytes bs) ≡ ok bs
unfolding decode_rpc_bytes encode_rpc_bytes record_of string_of get keys_within contains text_eq
decode_rpc_bytes-encode bs h =
    rw (length-btoa bs, is_base64-btoa bs h, atob-btoa bs h, text_eq_refl (btoa bs)) refl

-- What is read from the wire is a list of bytes.
pub decode_rpc_bytes-IsBytes : (v : Value) (bs : Bytes) → decode_rpc_bytes v ≡ ok bs → IsBytes bs
unfolding decode_rpc_bytes
decode_rpc_bytes-IsBytes v bs h =
    let (fields, f, h1) = and_then-ok (record_of v (text "base64" ∷ [])) _ h in
    let (base64, g, h2) = and_then-ok (string_of (get (text "base64") fields)) _ h1 in
    elim (Bool-cases (not (length base64 % 4 == 0) || not (is_base64 base64))) [
      | inl bad ↦ absurd (let x = rw bad at h2 in cc)
      | inr fine ↦ elim (Option-cases (atob base64)) [
        | inl n ↦ absurd (let x = rw (fine, n) at h2 in cc)
        | inr (ds, e) ↦ elim (Bool-cases (text_eq (btoa ds) base64)) [
          | inl same ↦
              subst IsBytes (ok_injective (rw (fine, e, same) at h2)) (atob-IsBytes base64 ds e)
          | inr other ↦ absurd (let x = rw (fine, e, other) at h2 in cc)
        ]
      ]
    ]

pub nonempty-string : (s : Text) → is_nil s ≡ false → nonempty (string s) ≡ ok s
unfolding nonempty string_of
nonempty-string s h = rw h refl

pub nonempty_said : (v : Value) (s : Text) → nonempty v ≡ ok s → is_nil s ≡ false
unfolding nonempty
nonempty_said v s h =
    let (t, g, h1) = and_then-ok (string_of v) _ h in
    elim (Bool-cases (is_nil t)) [
      | inl n ↦ absurd (let x = rw n at h1 in cc)
      | inr y ↦ subst (λ u. is_nil u ≡ false) (ok_injective (rw y at h1)) y
    ]

pub repo_path-string : (p : Text) → normalize_repo_path p ≡ ok p → repo_path (string p) ≡ ok p
unfolding repo_path string_of
repo_path-string p h =
    ap
      (λ r. elim r [
        | err e ↦ invalid
        | ok normalized ↦ if text_eq normalized p then ok p else invalid
      ])
      h
    ∙ (rw (text_eq_refl p) refl)

pub repo_path_canonical : (v : Value) (p : Text) → repo_path v ≡ ok p → normalize_repo_path p ≡ ok p
unfolding repo_path
repo_path_canonical v p h =
    let (s, g, h1) = and_then-ok (string_of v) _ h in
    elim (Result-cases (normalize_repo_path s)) [
      | inr (e, n) ↦ absurd (let x = rw n at h1 in cc)
      | inl (t, n) ↦ elim (Bool-cases (text_eq t s)) [
        | inr o ↦ absurd (let x = rw (n, o) at h1 in cc)
        | inl y ↦
            let same : t ≡ s = text_eq→eq t s y in
            subst (λ u. normalize_repo_path u ≡ ok u) (ok_injective (rw (n, y) at h1))
              (rw same at n)
      ]
    ]
