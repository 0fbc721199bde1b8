-- ===== src/Base64/RoundTrip.antt =====
-- `atob` on what `btoa` writes.
use remotish.Shared.{
  Text, Bytes, Option, none, some, List, [], ◌∷◌, Bool, true, false, not, ◌==◌, length, keep, ℕ,
  ◌+◌, ◌*◌, ◌/◌, ◌%◌, ◌<◌, ◌≡◌, refl, ap, arith, Option-cases, inl, inr, if◌then◌else◌,
}
use mathlib.Core.Path.{subst}
use remotish.Base64.{
  pad, digit, digit_value, btoa, is_ascii_space, without_padding, digit_values, put_three,
  join_digits, atob,
}

abbrev pub IsBytes : Bytes → Type 0
IsBytes [] = Unit
IsBytes (b ∷ bs) = (b < 256) × IsBytes bs

digit-not_pad : (x : ℕ) → x < 64 → (digit x == pad) ≡ false
unfolding digit
digit-not_pad x h = ground arith

digit-not_space : (x : ℕ) → x < 64 → is_ascii_space (digit x) ≡ false
unfolding digit
digit-not_space x h = ground arith

digit_value-digit : (x : ℕ) → x < 64 → digit_value (digit x) ≡ some x
unfolding digit_value digit
digit_value-digit x h = ground arith

without_padding-cons :
    (c : ℕ) (s : Text) → (c == pad) ≡ false → without_padding (c ∷ s) ≡ c ∷ without_padding s
unfolding without_padding
without_padding-cons c [] h = ground (arith, h)
without_padding-cons c (d ∷ []) h = ground (arith, h)
without_padding-cons c (d ∷ e ∷ s) h = refl

-- The digits of `btoa`, without the padding.
digits_of : Bytes → List ℕ
digits_of [] = []
digits_of (a ∷ []) = (a / 4) ∷ (a % 4 * 16) ∷ []
digits_of (a ∷ b ∷ []) = (a / 4) ∷ (a % 4 * 16 + b / 16) ∷ (b % 16 * 4) ∷ []
digits_of (a ∷ b ∷ c ∷ rest) =
    (a / 4) ∷ (a % 4 * 16 + b / 16) ∷ (b % 16 * 4 + c / 64) ∷ (c % 64) ∷ digits_of rest

join_digits-digits_of : (bs : Bytes) → IsBytes bs → join_digits (digits_of bs) ≡ some bs
unfolding join_digits digits_of
join_digits-digits_of [] h = refl
join_digits-digits_of (a ∷ []) (p, h) = ap (λ x. some (x ∷ [])) (omega arith)
join_digits-digits_of (a ∷ b ∷ []) (p, (q, h)) = ground arith
join_digits-digits_of (a ∷ b ∷ c ∷ rest) (p, (q, (r, h))) =
    ground (arith, join_digits-digits_of rest h)

module _ (a b c : ℕ) where
  -- The four digits of three bytes.
  abbrev IsGroup : Type 0
  IsGroup = (a / 4 < 64) × (a % 4 * 16 + b / 16 < 64) × (b % 16 * 4 + c / 64 < 64) × (c % 64 < 64)

  group_bounds : a < 256 → b < 256 → c < 256 → IsGroup
  group_bounds p q r = (omega arith, omega arith, omega arith, omega arith)

digit_values-digits :
    (x : ℕ) (xs : List ℕ) (s : Text)
    → x < 64
    → digit_values s ≡ some xs
    → digit_values (digit x ∷ s) ≡ some (x ∷ xs)
unfolding digit_values
digit_values-digits x xs s h e = rw (digit_value-digit x h, e) refl

unpadded-digit :
    (x : ℕ) (xs : List ℕ) (s : Text)
    → x < 64
    → digit_values (without_padding s) ≡ some xs
    → digit_values (without_padding (digit x ∷ s)) ≡ some (x ∷ xs)
unpadded-digit x xs s h e =
    rw (without_padding-cons (digit x) s (digit-not_pad x h)) (digit_values-digits x xs _ h e)

unpadded_pads :
    (digit_values (without_padding (pad ∷ [])) ≡ some [])
    × (digit_values (without_padding (pad ∷ pad ∷ [])) ≡ some [])
unfolding digit_values without_padding
unpadded_pads = (refl, refl)

-- `btoa` without its padding.
unpadded-btoa :
    (bs : Bytes) → IsBytes bs → digit_values (without_padding (btoa bs)) ≡ some (digits_of bs)
unfolding btoa digits_of
unpadded-btoa [] h = unfold digit_values without_padding in refl
unpadded-btoa (a ∷ []) (p, h) =
    unpadded-digit _ _ _ (omega arith) (unpadded-digit _ _ _ (omega arith) unpadded_pads.1)
unpadded-btoa (a ∷ b ∷ []) (p, (q, h)) =
    unpadded-digit _ _ _ (omega arith)
      (unpadded-digit _ _ _ (omega arith) (unpadded-digit _ _ _ (omega arith) unpadded_pads.0))
unpadded-btoa (a ∷ b ∷ c ∷ rest) (p, (q, (r, h))) =
    let (x, y, z, w) = group_bounds a b c p q r in
    unpadded-digit _ _ _ x (
      unpadded-digit _ _ _ y
        (unpadded-digit _ _ _ z (unpadded-digit _ _ _ w (unpadded-btoa rest h))))

keep_cons {ℓ} :
    {A : Type ℓ} (p : A → Bool) (x : A) (xs : List A)
    → p x ≡ true
    → keep p xs ≡ xs
    → keep p (x ∷ xs) ≡ x ∷ xs
unfolding keep
keep_cons p x xs h e = rw (h, e) refl

keep-digit :
    (x : ℕ) (s : Text)
    → x < 64
    → keep (λ c. not (is_ascii_space c)) s ≡ s
    → keep (λ c. not (is_ascii_space c)) (digit x ∷ s) ≡ digit x ∷ s
keep-digit x s h e = keep_cons _ (digit x) s (rw (digit-not_space x h) refl) e

keep_pads :
    (keep (λ c. not (is_ascii_space c)) (pad ∷ []) ≡ pad ∷ [])
    × (keep (λ c. not (is_ascii_space c)) (pad ∷ pad ∷ []) ≡ pad ∷ pad ∷ [])
unfolding keep
keep_pads = (refl, refl)

keep-btoa : (bs : Bytes) → IsBytes bs → keep (λ c. not (is_ascii_space c)) (btoa bs) ≡ btoa bs
unfolding btoa
keep-btoa [] h = unfold keep in refl
keep-btoa (a ∷ []) (p, h) = keep-digit _ _ (omega arith) (keep-digit _ _ (omega arith) keep_pads.1)
keep-btoa (a ∷ b ∷ []) (p, (q, h)) =
    keep-digit _ _ (omega arith)
      (keep-digit _ _ (omega arith) (keep-digit _ _ (omega arith) keep_pads.0))
keep-btoa (a ∷ b ∷ c ∷ rest) (p, (q, (r, h))) =
    let (x, y, z, w) = group_bounds a b c p q r in
    keep-digit _ _ x (keep-digit _ _ y (keep-digit _ _ z (keep-digit _ _ w (keep-btoa rest h))))

-- What `btoa` writes has full groups of four characters.
pub length-btoa : (bs : Bytes) → (length (btoa bs) % 4 == 0) ≡ true
unfolding btoa
length-btoa [] = refl
length-btoa (a ∷ []) = refl
length-btoa (a ∷ b ∷ []) = refl
length-btoa (a ∷ b ∷ c ∷ rest) = ground (arith, length-btoa rest)

-- `atob` reads back the bytes that `btoa` wrote.
pub atob-btoa : (bs : Bytes) → IsBytes bs → atob (btoa bs) ≡ some bs
unfolding atob
atob-btoa bs h =
    rw (atob, keep-btoa bs h, length-btoa bs, unpadded-btoa bs h) (join_digits-digits_of bs h)

abbrev IsDigits : List ℕ → Type 0
IsDigits [] = Unit
IsDigits (x ∷ xs) = (x < 64) × IsDigits xs

digit_value-lt : (c x : ℕ) → digit_value c ≡ some x → x < 64
unfolding digit_value
digit_value-lt c x h = ground arith

digit_values-IsDigits : (s : Text) (xs : List ℕ) → digit_values s ≡ some xs → IsDigits xs
unfolding digit_values
digit_values-IsDigits [] [] h = tt
digit_values-IsDigits [] (x ∷ xs) h = absurd cc
digit_values-IsDigits (c ∷ s) [] h = absurd (ground arith)
digit_values-IsDigits (c ∷ s) (x ∷ xs) h =
    (digit_value-lt c x (ground arith), digit_values-IsDigits s xs (ground arith))

put_three-some :
    (a b c : ℕ) (o : Option Bytes) (bs : Bytes)
    → put_three a b c o ≡ some bs
    → (rest : Bytes) × (o ≡ some rest) × (a ∷ b ∷ c ∷ rest ≡ bs)
put_three-some a b c none bs h = absurd cc
put_three-some a b c (some rest) bs h = (rest, refl, cc)

join_digits-IsBytes :
    (xs : List ℕ) (bs : Bytes) → IsDigits xs → join_digits xs ≡ some bs → IsBytes bs
unfolding join_digits
join_digits-IsBytes xs [] d h = tt
join_digits-IsBytes [] (b ∷ bs) d h = absurd cc
join_digits-IsBytes (x ∷ []) (b ∷ bs) d h = absurd cc
join_digits-IsBytes (x ∷ y ∷ []) (b ∷ []) (p, (q, d)) h =
    let e : x * 4 + y / 16 ≡ b = ground arith in (omega (arith, e), tt)
join_digits-IsBytes (x ∷ y ∷ []) (b ∷ c ∷ bs) d h = absurd (ground arith)
join_digits-IsBytes (x ∷ y ∷ z ∷ []) (b ∷ []) d h = absurd (ground arith)
join_digits-IsBytes (x ∷ y ∷ z ∷ []) (b ∷ c ∷ []) (p, (q, (r, d))) h =
    let e : x * 4 + y / 16 ≡ b = ground arith in
    let f : y % 16 * 16 + z / 4 ≡ c = ground arith in (omega (arith, e), (omega (arith, f), tt))
join_digits-IsBytes (x ∷ y ∷ z ∷ []) (b ∷ c ∷ d ∷ bs) i h = absurd (ground arith)
join_digits-IsBytes (x ∷ y ∷ z ∷ w ∷ rest) (b ∷ bs) (p, (q, (r, (t, i)))) h =
    let (ds, e, same) = put_three-some _ _ _ (join_digits rest) (b ∷ bs) h in
    subst IsBytes same (omega arith, (omega arith, (omega arith, join_digits-IsBytes rest ds i e)))

-- `atob` makes bytes.
pub atob-IsBytes : (s : Text) (bs : Bytes) → atob s ≡ some bs → IsBytes bs
unfolding atob
atob-IsBytes s bs h =
    let t = keep (λ c. not (is_ascii_space c)) s in
    let u = if length t % 4 == 0 then without_padding t else t in
    elim (Option-cases (digit_values u)) [
      | inl n ↦ absurd (ground (arith, h, n))
      | inr (xs, e) ↦
          join_digits-IsBytes xs bs (digit_values-IsDigits u xs e) (ground (arith, h, e))
    ]
