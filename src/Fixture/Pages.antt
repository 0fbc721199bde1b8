-- ===== src/Fixture/Pages.antt =====
-- packages/adapter-fixture/src/repository-view.ts and support.ts: the pages of the history.
use remotish.Shared.{
  Text, ok, Option, none, some, List, [], ◌∷◌, ◌++◌, true, false, ◌&&◌, ◌==◌, ltb, leb, take, drop,
  length, ℕ, zero, suc, ◌+◌, ◌/◌, ◌%◌, ◌≤◌, ◌<◌, ◌≡◌, refl, sym, ap, ◌∙◌, ◌⊎◌, ltb→lt, append-nil,
  arith, Bool-cases, inl, inr,
}
use mathlib.Core.Path.{subst}
use remotish.Sdk.History.{CommitInfo, CommitPage, CommitQuery}
use remotish.Fixture.{Fixture}
use remotish.Workspace.Commits.{trim_left, is_white_space}
use remotish.Fixture.Commits.{decimal_digits, decimal}
use remotish.Fixture.View.{
  leading_digits, max_safe_integer, parse_cursor, page_of, page_limit, get_commits,
  resolve_query_revision, first_parent_history,
}
use remotish.Fixture.Numbers.{leading_digits-decimal}

-- A text that begins with a digit.
BeginsWithDigit : Text → Type 0
BeginsWithDigit t = (c : ℕ) × (s : Text) × (t ≡ c ∷ s) × ((leb 48 c && leb c 57) ≡ true)

begins_append : (t u : Text) → BeginsWithDigit t → BeginsWithDigit (t ++ u)
unfolding BeginsWithDigit
begins_append t u (c, s, e, d) = (c, s ++ u, ap (λ x. x ++ u) e, d)

decimal_digits-BeginsWithDigit : (fuel n : ℕ) → n < fuel → BeginsWithDigit (decimal_digits fuel n)
unfolding decimal_digits
decimal_digits-BeginsWithDigit zero n h = absurd (omega (arith, h))
decimal_digits-BeginsWithDigit (suc fuel) n h = elim (Bool-cases (ltb n 10)) [
  | inl low ↦ rw low (unfold BeginsWithDigit in (48 + n, [], refl, ground (arith, low)))
  | inr high ↦ rw high (
      begins_append (decimal_digits fuel (n / 10)) ((48 + n % 10) ∷ [])
        (decimal_digits-BeginsWithDigit fuel (n / 10) (ground (arith, high, h))))
]

digit-not_space : (c : ℕ) → (leb 48 c && leb c 57) ≡ true → is_white_space c ≡ false
digit-not_space c d = ground (arith, d)

digit-not_sign : (c : ℕ) → (leb 48 c && leb c 57) ≡ true → ((c == 43) ≡ false) × ((c == 45) ≡ false)
digit-not_sign c d = (ground (arith, d), ground (arith, d))

-- A cursor that begins with a digit is read as the number of its leading digits.
parse_cons :
    (c : ℕ) (s : Text) (n : ℕ)
    → (leb 48 c && leb c 57) ≡ true
    → leading_digits (c ∷ s) 0 ≡ n
    → n ≤ max_safe_integer
    → parse_cursor (some (c ∷ s)) ≡ ok n
unfolding parse_cursor trim_left
parse_cons c s n d h b =
    let (plus, minus) = digit-not_sign c d in
    let safe : ltb max_safe_integer n ≡ false = ground (arith, b) in
    rw (digit-not_space c d, plus, minus, d, h, safe) refl

parse_digits :
    (t : Text) (n : ℕ)
    → BeginsWithDigit t
    → leading_digits t 0 ≡ n
    → n ≤ max_safe_integer
    → parse_cursor (some t) ≡ ok n
unfolding BeginsWithDigit
parse_digits t n (c, s, e, d) h b =
    subst (λ u. leading_digits u 0 ≡ n → parse_cursor (some u) ≡ ok n) (sym e)
      (λ k. parse_cons c s n d k b) h

parse_cursor-decimal : (n : ℕ) → n ≤ max_safe_integer → parse_cursor (some (decimal n)) ≡ ok n
unfolding decimal
parse_cursor-decimal n b =
    parse_digits (decimal_digits (suc n) n) n
      (decimal_digits-BeginsWithDigit (suc n) n (omega arith)) (leading_digits-decimal n) b

module _ {ℓ} {A : Type ℓ} where
  take-drop : (n : ℕ) (xs : List A) → take n xs ++ drop (length (take n xs)) xs ≡ xs
  take-drop zero xs = refl
  take-drop (suc n) [] = refl
  take-drop (suc n) (x ∷ xs) = ap (λ ys. x ∷ ys) (take-drop n xs)

  drop-nil : (n : ℕ) → drop {A = A} n [] ≡ []
  drop-nil zero = refl
  drop-nil (suc n) = refl

  drop-drop : (m n : ℕ) (xs : List A) → drop m (drop n xs) ≡ drop (n + m) xs
  drop-drop m zero xs = ap (λ k. drop k xs) (omega arith)
  drop-drop m (suc n) [] = drop-nil m ∙ sym (drop-nil (suc n + m))
  drop-drop m (suc n) (x ∷ xs) =
      let e : suc (n + m) ≡ suc n + m = omega arith in
      drop-drop m n xs ∙ ap (λ k. drop k (x ∷ xs)) e

  drop-all : (n : ℕ) (xs : List A) → length xs ≤ n → drop n xs ≡ []
  drop-all zero [] h = refl
  drop-all zero (x ∷ xs) h = absurd (omega (arith, h))
  drop-all (suc n) [] h = refl
  drop-all (suc n) (x ∷ xs) h = drop-all n xs (omega (arith, h))

  take_some : (n m : ℕ) (xs : List A) → 1 ≤ n → m < length xs → 1 ≤ length (take n (drop m xs))
  take_some zero m xs l h = absurd (omega (arith, l))
  take_some (suc n) zero [] l h = absurd (omega (arith, h))
  take_some (suc n) zero (x ∷ xs) l h = omega arith
  take_some n (suc m) [] l h = absurd (omega (arith, h))
  take_some (suc n) (suc m) (x ∷ xs) l h = take_some (suc n) m xs l (omega (arith, h))

-- What a page says of the commits after an offset: there are no more, or there are some, at the
-- offset that its cursor is read as.
abbrev pub Continues : ℕ → List CommitInfo → CommitPage → Type 0
Continues offset history page =
    ((page.next_cursor ≡ none) × (drop offset history ≡ page.commits))
    ⊎ ((cursor : Text) × (next : ℕ) × (page.next_cursor ≡ some cursor)
        × (parse_cursor (some cursor) ≡ ok next)
        × (offset < next)
        × (drop offset history ≡ page.commits ++ drop next history))

page_limit-positive : (o : Option ℕ) → 1 ≤ page_limit o
page_limit-positive none = omega arith
page_limit-positive (some n) = ground arith

page_of-Continues :
    (offset limit : ℕ) (history : List CommitInfo)
    → 1 ≤ limit
    → length history ≤ max_safe_integer
    → Continues offset history (page_of offset limit history)
unfolding page_of
page_of-Continues offset limit history l b =
    let commits = take limit (drop offset history) in
    let next = offset + length commits in
    let split : commits ++ drop next history ≡ drop offset history =
      ap (λ rest. commits ++ rest) (sym (drop-drop (length commits) offset history))
      ∙ take-drop limit (drop offset history) in
    elim (Bool-cases (ltb next (length history))) [
      | inl more ↦
          let below : next < length history = ltb→lt next (length history) more in
          let some' = take_some limit offset history l (omega (arith, below)) in
          rw more (
            inr (
              decimal next,
              next,
              refl,
              parse_cursor-decimal next (omega (arith, below, b)),
              omega (arith, some'),
              sym split,
            ))
      | inr last ↦
          let past : length history ≤ next = ground (arith, last) in
          rw last (
            inl (
              refl,
              sym split
                  ∙ ap (λ rest. commits ++ rest) (drop-all next history past)
                  ∙ append-nil commits,
            ))
    ]

-- Where the revision of a query is found, its cursor is read as an offset, and the walk along first
-- parents from the revision returns a history of no more commits than there are safe integers, a
-- page is returned, and it either holds all commits after the offset and has no cursor, or has a
-- cursor that is read as a greater offset, and the commits after the first offset are those of the
-- page and then those after the second.
pub get_commits-Continues :
    (query : CommitQuery) (f : Fixture) (start : Text) (offset : ℕ) (history : List CommitInfo)
    → resolve_query_revision query f ≡ ok start
    → parse_cursor query.cursor ≡ ok offset
    → first_parent_history (suc (length f.commits)) start f ≡ ok history
    → length history ≤ max_safe_integer
    → (page : CommitPage) × (get_commits query f ≡ ok page) × Continues offset history page
unfolding get_commits
get_commits-Continues query f start offset history s o h b = (
  page_of offset (page_limit query.limit) history,
  rw (s, o, h) refl,
  page_of-Continues offset (page_limit query.limit) history (page_limit-positive query.limit) b,
)
