-- ===== src/Base64.antt =====
-- `btoa` and `atob` of the host, as the codecs of adapters/rpc/src/rpc-codec-primitives.ts and
-- packages/vscode/src/persistence/workspace-snapshot-codec.ts use them: on strings whose characters
-- are bytes.
pub mod RoundTrip
use remotish.Shared.{
  Text, Bytes, Option, none, some, List, [], ◌∷◌, ◌++◌, Bool, true, false, not, ◌&&◌, ◌||◌, ltb,
  leb, ◌==◌, if◌then◌else◌, length, keep, any_of, text_eq, ℕ, ◌+◌, ◌-◌, ◌*◌, ◌/◌, ◌%◌,
}

abbrev pub pad : ℕ
pad = b'='

-- The character of a digit of base 64.
unfoldable pub digit : ℕ → ℕ
digit x =
    if ltb x 26
    then 65 + x
    else if ltb x 52
    then 71 + x
    else if ltb x 62
    then x - 4
    else if x == 62
    then 43
    else 47

unfoldable pub digit_value : ℕ → Option ℕ
digit_value c =
    if leb 65 c && leb c 90
    then some (c - 65)
    else if leb 97 c && leb c 122
    then some (c - 71)
    else if leb 48 c && leb c 57
    then some (c + 4)
    else if c == 43
    then some 62
    else if c == 47
    then some 63
    else none

unfoldable pub btoa : Bytes → Text
btoa [] = []
btoa (a ∷ []) = digit (a / 4) ∷ digit (a % 4 * 16) ∷ pad ∷ pad ∷ []
btoa (a ∷ b ∷ []) = digit (a / 4) ∷ digit (a % 4 * 16 + b / 16) ∷ digit (b % 16 * 4) ∷ pad ∷ []
btoa (a ∷ b ∷ c ∷ rest) =
    digit (a / 4)
    ∷ digit (a % 4 * 16 + b / 16)
    ∷ digit (b % 16 * 4 + c / 64)
    ∷ digit (c % 64)
    ∷ btoa rest

abbrev pub is_ascii_space : ℕ → Bool
is_ascii_space c = c == 9 || c == 10 || c == 12 || c == 13 || c == 32

-- The string without one or two `=` at its end.
unfoldable pub without_padding : Text → Text
without_padding [] = []
without_padding (c ∷ []) = if c == pad then [] else c ∷ []
without_padding (c ∷ d ∷ []) = if d == pad then (if c == pad then [] else c ∷ []) else c ∷ d ∷ []
without_padding (c ∷ d ∷ e ∷ s) = c ∷ without_padding (d ∷ e ∷ s)

abbrev pub put_digit : Option ℕ → Option (List ℕ) → Option (List ℕ)
put_digit none xs = none
put_digit (some x) none = none
put_digit (some x) (some xs) = some (x ∷ xs)

unfoldable pub digit_values : Text → Option (List ℕ)
unfolding digit_value
digit_values [] = some []
digit_values (c ∷ s) = put_digit (digit_value c) (digit_values s)

abbrev pub put_three : ℕ → ℕ → ℕ → Option Bytes → Option Bytes
put_three a b c none = none
put_three a b c (some rest) = some (a ∷ b ∷ c ∷ rest)

-- The bytes of a run of digits; bits that are left over go.
unfoldable pub join_digits : List ℕ → Option Bytes
join_digits [] = some []
join_digits (x ∷ []) = none
join_digits (x ∷ y ∷ []) = some ((x * 4 + y / 16) ∷ [])
join_digits (x ∷ y ∷ z ∷ []) = some ((x * 4 + y / 16) ∷ (y % 16 * 16 + z / 4) ∷ [])
join_digits (x ∷ y ∷ z ∷ w ∷ rest) =
    put_three (x * 4 + y / 16) (y % 16 * 16 + z / 4) (z % 4 * 64 + w) (join_digits rest)

-- `none` where `atob` throws.
unfoldable pub atob : Text → Option Bytes
unfolding keep without_padding digit_values join_digits
atob s =
    let t = keep (λ c. not (is_ascii_space c)) s in
    let u = if length t % 4 == 0 then without_padding t else t in
    elim (digit_values u) [ none ↦ none | some xs ↦ join_digits xs ]
