-- ===== src/Json.antt =====
-- Untrusted JavaScript values, as the codecs meet them: adapters/rpc/src/rpc-codec-primitives.ts and
-- packages/vscode/src/persistence/workspace-persistence-schema.ts.
use remotish.Shared.{
  Text, text, text_eq, contains, Result, ok, and_then, Option, none, some, List, [], ◌∷◌, Bool,
  true, false, ◌&&◌, if◌then◌else◌, All, ◌≡◌, refl, ◌==◌, ℕ, and_then-ok, ok_injective,
}
use Prim.Native.String.{String}
use mathlib.Core.Path.{subst}

-- A plain object has `Object.prototype` or none as its prototype, an instance any other. `number`
-- is a non-negative safe integer; any other number, and any other primitive, is `other`.
mutual
  pub data Value : Type 0 where
    undefined null other : Value
    boolean : Bool → Value
    number : ℕ → Value
    string : Text → Value
    array : Items → Value
    object : Fields → Value
    instance_of : Fields → Value

  pub data Items : Type 0 where
    no_items : Items
    item : Value → Items → Items

  -- Own properties, in the order of insertion. A property may be there and be `undefined`.
  pub data Fields : Type 0 where
    no_fields : Fields
    field : Text → Value → Fields → Fields

-- An object literal's property, and one that a spread puts there only if it has a value.
abbrev pub prop : String → Value → Fields → Fields
prop name v fs = field (text name) v fs

abbrev pub optional_prop : String → Option Value → Fields → Fields
optional_prop name none fs = fs
optional_prop name (some v) fs = field (text name) v fs

-- `data[key]`
unfoldable pub get : Text → Fields → Value
get k no_fields = undefined
get k (field j v fs) = if text_eq j k then v else get k fs

-- `key in data`
unfoldable pub has : Text → Fields → Bool
has k no_fields = false
has k (field j v fs) = if text_eq j k then true else has k fs

-- `Object.keys(data).every((key) => keys.includes(key))`
unfoldable pub keys_within : List Text → Fields → Bool
keys_within keys no_fields = true
keys_within keys (field k v fs) = contains k keys && keys_within keys fs

-- `value === 'text'` and `value === n`
abbrev pub is_text : Text → Value → Bool
is_text t (string s) = text_eq s t
is_text t _ = false

abbrev pub is_number : ℕ → Value → Bool
is_number n (number m) = m == n
is_number n _ = false

-- `[...].map(encode)` and `[...].map(decode)`
abbrev pub items_of {ℓ} : {A : Type ℓ} → (A → Value) → List A → Items
items_of f [] = no_items
items_of f (x ∷ xs) = item (f x) (items_of f xs)

unfoldable pub decode_items {ℓ} : {A : Type ℓ} → (Value → Result A) → Items → Result (List A)
decode_items f no_items = ok []
decode_items f (item v vs) = and_then (f v) λ x. and_then (decode_items f vs) λ xs. ok (x ∷ xs)

module _ {ℓ κ} {A : Type ℓ} (P : A → Type κ) (decode : Value → Result A) where
  -- A list whose elements are read back one by one is read back.
  pub decode_items-items_of :
      (encode : A → Value) (xs : List A)
      → ((x : A) → P x → decode (encode x) ≡ ok x)
      → All P xs
      → decode_items decode (items_of encode xs) ≡ ok xs
  unfolding decode_items
  decode_items-items_of encode [] h a = refl
  decode_items-items_of encode (x ∷ xs) h (p, a) =
      rw (h x p, decode_items-items_of encode xs h a) refl

  -- What holds of every element that is read holds of a list that is read.
  pub decode_items-All :
      (vs : Items) (xs : List A)
      → ((v : Value) (x : A) → decode v ≡ ok x → P x)
      → decode_items decode vs ≡ ok xs
      → All P xs
  unfolding decode_items
  decode_items-All no_items [] h e = tt
  decode_items-All no_items (x ∷ xs) h e = absurd cc
  decode_items-All (item v vs) xs h e =
      let (x, first, e') =
        and_then-ok (decode v) (λ x. and_then (decode_items decode vs) λ rest. ok (x ∷ rest)) e in
      let (rest, later, e'') = and_then-ok (decode_items decode vs) (λ rest. ok (x ∷ rest)) e' in
      subst (All P) (ok_injective e'') (h v x first, decode_items-All vs rest h later)
