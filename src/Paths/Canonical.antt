-- ===== src/Paths/Canonical.antt =====
-- packages/adapter-sdk/src/path.ts: canonical paths.
use remotish.Shared.{
  Text, ok, ◌≡◌, ◌≢◌, refl, ap, List, [], ◌∷◌, ◌==◌, is_nil, any_of, arith, Bool-cases, inl, inr, ℕ,
  if◌then◌else◌, throw_code, invalid_request,
}
use remotish.Paths.{
  slash, replace_backslashes, trim_start, trim_end, split_path, join_path, is_bad_part,
  normalize_repo_path, on_first_part,
}

-- A path that `normalize_repo_path` leaves as it is.
abbrev pub IsCanonical : Text → Type 0
IsCanonical path = normalize_repo_path path ≡ ok path

replace-replace : (s : Text) → replace_backslashes (replace_backslashes s) ≡ replace_backslashes s
unfolding replace_backslashes
replace-replace [] = refl
replace-replace (c ∷ s) = ground (arith, replace-replace s)

replace-trim_start :
    (s : Text) → replace_backslashes s ≡ s → replace_backslashes (trim_start s) ≡ trim_start s
unfolding replace_backslashes trim_start
replace-trim_start [] h = refl
replace-trim_start (c ∷ s) h = ground (arith, replace-trim_start s)

replace-trim_end :
    (s : Text) → replace_backslashes s ≡ s → replace_backslashes (trim_end s) ≡ trim_end s
unfolding replace_backslashes trim_end
replace-trim_end [] h = refl
replace-trim_end (c ∷ s) h = ground (arith, replace-trim_end s)

trim_end-trim_end : (s : Text) → trim_end (trim_end s) ≡ trim_end s
unfolding trim_end
trim_end-trim_end [] = refl
trim_end-trim_end (c ∷ s) = ground (arith, trim_end-trim_end s)

trim_start-trim_end_cons :
    (c : ℕ) (s : Text) → c ≢ slash → trim_start (trim_end (c ∷ s)) ≡ trim_end (c ∷ s)
unfolding trim_start trim_end
trim_start-trim_end_cons c s h = ground arith

trim_start-trim_end : (s : Text) → trim_start (trim_end (trim_start s)) ≡ trim_end (trim_start s)
unfolding trim_start
trim_start-trim_end [] = unfold trim_end in refl
trim_start-trim_end (c ∷ s) = elim (Bool-cases (c == slash)) [
  | inl e ↦ rw e (trim_start-trim_end s)
  | inr e ↦ rw e (unfold trim_start in trim_start-trim_end_cons c s (ground arith))
]

-- the text that `normalize_repo_path` splits
abbrev pub trimmed : Text → Text
trimmed path = trim_end (trim_start (replace_backslashes path))

trimmed-trimmed : (path : Text) → trimmed (trimmed path) ≡ trimmed path
trimmed-trimmed path =
    let s = trim_start (replace_backslashes path) in
    let e : replace_backslashes (trim_end s) ≡ trim_end s =
      replace-trim_end s (replace-trim_start (replace_backslashes path) (replace-replace path)) in
    rw (e, trim_start-trim_end, trim_end-trim_end)

split-ne-nil : (s : Text) → split_path s ≢ []
unfolding split_path
split-ne-nil [] = ground arith
split-ne-nil (c ∷ s) = ground (arith, split-ne-nil s)

join-on_first_part :
    (c : ℕ) (parts : List Text) → join_path (on_first_part c parts) ≡ c ∷ join_path parts
unfolding join_path
join-on_first_part c [] = refl
join-on_first_part c (part ∷ []) = refl
join-on_first_part c (part ∷ next ∷ parts) = refl

join-nil_cons : (parts : List Text) → parts ≢ [] → join_path ([] ∷ parts) ≡ slash ∷ join_path parts
unfolding join_path
join-nil_cons [] h = absurd (h refl)
join-nil_cons (part ∷ parts) h = refl

pub join-split : (s : Text) → join_path (split_path s) ≡ s
unfolding split_path
join-split [] = unfold join_path in refl
join-split (c ∷ s) = elim (Bool-cases (c == slash)) [
  | inl e ↦ rw (e, join-nil_cons (split_path s) (split-ne-nil s), join-split s) (ground arith)
  | inr e ↦ rw (e, join-on_first_part, join-split s)
]

unfoldable pub parts_of : Text → List Text
parts_of normalized = if is_nil normalized then [] else split_path normalized

pub join-parts_of : (s : Text) → join_path (parts_of s) ≡ s
unfolding parts_of
join-parts_of [] = unfold join_path in refl
join-parts_of (c ∷ s) = join-split (c ∷ s)

pub normalize-eq :
    (path : Text)
    → normalize_repo_path path ≡ (
        if any_of is_bad_part (parts_of (trimmed path))
        then throw_code invalid_request
        else ok (trimmed path))
unfolding normalize_repo_path parts_of
normalize-eq path =
    let parts = parts_of (trimmed path) in
    ap (λ (t : Text). if any_of is_bad_part parts then throw_code invalid_request else ok t)
      (join-parts_of (trimmed path))

normalize-IsCanonical : (path q : Text) → normalize_repo_path path ≡ ok q → IsCanonical q
normalize-IsCanonical path q h = rw (normalize-eq q) (good q (rw normalize-eq at h))
  where
    good :
        (q : Text)
        → (if any_of is_bad_part (parts_of (trimmed path))
            then throw_code invalid_request
            else ok (trimmed path))
          ≡ ok q
        → (if any_of is_bad_part (parts_of (trimmed q))
            then throw_code invalid_request
            else ok (trimmed q))
          ≡ ok q
    good q e = elim (Bool-cases (any_of is_bad_part (parts_of (trimmed path)))) [
      | inl bad ↦ absurd (ground (arith, e, bad))
      | inr fine ↦
          let same : trimmed path ≡ q = ground (arith, e, fine) in
          rw (← same, trimmed-trimmed, fine)
    ]
