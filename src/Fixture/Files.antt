-- ===== src/Fixture/Files.antt =====
-- packages/adapter-fixture/src/files.ts: what changes do to files, and what a comparison finds.
use remotish.Shared.{
  Text, Bytes, text_eq, text_eq→eq, text_eq_iff, text_eq_refl, text_le, contains, contains-add,
  contains-sort_by, add, Dict, lookup, insert, delete, lookup-insert, lookup-without, Result, ok,
  err, and_then-ok, ok_injective, unless-ok, Option, none, some, is_some, List, [], ◌∷◌, Bool, true,
  false, ◌&&◌, ◌||◌, if◌then◌else◌, is_nil, sort_by, ◌≡◌, ◌≢◌, refl, sym, ap, ◌∙◌, arith,
  Bool-cases, inl, inr,
}
use remotish.Sdk.{Change, path_of, add_file, modify_file, delete_file}
use remotish.Sdk.History.{CommitChange, CommitChangeType, added, modified, deleted, renamed}
use remotish.Paths.{normalize_repo_path}
use remotish.WorkingTree.Mutations.{equal_bytes}
use remotish.WorkingTree.Writes.{equal_bytes→eq}
use remotish.Fixture.{
  apply_change, apply_each, apply_changes, add_keys, change_at, put_change, diff_each, diff_files,
}

contains-add_keys :
    (p : Text) (files : Dict Bytes) (ps : List Text)
    → contains p (add_keys files ps) ≡ (is_some (lookup p files) || contains p ps)
unfolding add_keys lookup
contains-add_keys p [] ps = refl
contains-add_keys p ((q, content) ∷ files) ps =
    ground (arith, contains-add_keys p files (add q ps), contains-add q p ps)

-- The type of the first change of a path in a list.
unfoldable pub find_change : Text → List CommitChange → Option CommitChangeType
find_change p [] = none
find_change p (c ∷ cs) = if text_eq c.path p then some c.type else find_change p cs

find_change-put_change :
    (p q : Text) (o : Option CommitChangeType) (cs : List CommitChange)
    → find_change p (put_change q o cs) ≡ (if text_eq q p && is_some o then o else find_change p cs)
unfolding find_change
find_change-put_change p q none cs = ground arith
find_change-put_change p q (some type) cs = ground arith

first_or_same :
    (o : Option CommitChangeType) (listed : Bool)
    → (if is_some o then o else (if listed then o else none)) ≡ o
first_or_same none true = refl
first_or_same none false = refl
first_or_same (some type) listed = refl

-- The type of a change, by what a path held before and what it holds after; `none` for no change.
abbrev pub IsChange : Option CommitChangeType → Option Bytes → Option Bytes → Type 0
IsChange none left right = left ≡ right
IsChange (some added) left right = (left ≡ none) × (content : Bytes) × (right ≡ some content)
IsChange (some deleted) left right = (right ≡ none) × (content : Bytes) × (left ≡ some content)
IsChange (some modified) left right =
    (old new : Bytes) × (left ≡ some old) × (right ≡ some new) × (old ≢ new)
IsChange (some renamed) left right = ⊥

equal_bytes_refl : (a : Bytes) → equal_bytes a a ≡ true
unfolding equal_bytes
equal_bytes_refl [] = refl
equal_bytes_refl (a ∷ rest) = ground (arith, equal_bytes_refl rest)

change_at-IsChange : (left right : Option Bytes) → IsChange (change_at left right) left right
change_at-IsChange none none = refl
change_at-IsChange none (some new) = (refl, new, refl)
change_at-IsChange (some old) none = (refl, old, refl)
change_at-IsChange (some old) (some new) = elim (Bool-cases (equal_bytes old new)) [
  | inl same ↦ rw same (ap some (equal_bytes→eq old new same))
  | inr other ↦
      rw other
        (old, new, refl, refl, λ e. absurd (let x = rw (e, equal_bytes_refl new) at other in cc))
]

module _ (p : Text) (before after : Dict Bytes) where
  abbrev expected_change : Option CommitChangeType
  expected_change = change_at (lookup p before) (lookup p after)

  find_change-diff_each :
      (ps : List Text)
      → find_change p (diff_each before after ps)
        ≡ (if contains p ps then expected_change else none)
  unfolding diff_each contains
  find_change-diff_each [] = unfold find_change in refl
  find_change-diff_each (q ∷ ps) = elim (Bool-cases (text_eq q p)) [
    | inl same ↦
        rw
          (
            text_eq→eq q p same,
            find_change-put_change p p expected_change (diff_each before after ps),
            text_eq_refl p,
            find_change-diff_each ps,
          )
          (first_or_same expected_change (contains p ps))
    | inr other ↦
        rw
          (
            find_change-put_change p q (change_at (lookup q before) (lookup q after))
                (diff_each before after ps),
            other,
            find_change-diff_each ps,
          )
          refl
  ]

  listed_or_same :
      (l r : Option Bytes)
      → (if is_some r || (is_some l || false) then change_at l r else none) ≡ change_at l r
  listed_or_same none none = refl
  listed_or_same none (some r) = refl
  listed_or_same (some l) none = refl
  listed_or_same (some l) (some r) = refl

  diff_files_lem : find_change p (diff_files before after) ≡ expected_change
  unfolding diff_files contains
  diff_files_lem =
      rw
        (
          find_change-diff_each (sort_by text_le (add_keys after (add_keys before []))),
          contains-sort_by text_le p (add_keys after (add_keys before [])),
          contains-add_keys p after (add_keys before []),
          contains-add_keys p before [],
        )
        (listed_or_same (lookup p before) (lookup p after))

  -- The comparison of two sets of files lists a path as added just if only the second has it, as
  -- deleted just if only the first has it, and as modified just if both have it with contents that
  -- are not equal; a path that it does not list holds the same in both.
  pub find_change-diff_files :
      IsChange (find_change p (diff_files before after)) (lookup p before) (lookup p after)
  find_change-diff_files = rw diff_files_lem (change_at-IsChange (lookup p before) (lookup p after))

abbrev pub content_of : Change → Option Bytes
content_of (add_file path content) = some content
content_of (modify_file path content) = some content
content_of (delete_file path) = none

abbrev pub is_of : Text → Result Text → Bool
is_of p (ok q) = text_eq q p
is_of p (err e) = false

-- What a path holds after changes, by what it held before them.
unfoldable pub after_changes : Text → List Change → Option Bytes → Option Bytes
after_changes p [] held = held
after_changes p (c ∷ cs) held =
    after_changes p cs (if is_of p (normalize_repo_path (path_of c)) then content_of c else held)

lookup-apply_change :
    (p path : Text) (c : Change) (files files' : Dict Bytes)
    → apply_change path c files ≡ ok files'
    → lookup p files' ≡ (if text_eq path p then content_of c else lookup p files)
unfolding apply_change
lookup-apply_change p path (add_file q content) files files' h =
    let (fits, e) = unless-ok (is_some (lookup path files)) _ (ok (insert path content files)) h in
    rw (← ok_injective e) (lookup-insert path p content files)
lookup-apply_change p path (modify_file q content) files files' h =
    elim (Bool-cases (is_some (lookup path files))) [
      | inr no' ↦ absurd (let x = rw no' at h in cc)
      | inl yes' ↦
          let e : ok (insert path content files) ≡ ok files' = rw yes' at h in
          rw (← ok_injective e) (lookup-insert path p content files)
    ]
lookup-apply_change p path (delete_file q) files files' h =
    elim (Bool-cases (is_some (lookup path files))) [
      | inr no' ↦ absurd (let x = rw no' at h in cc)
      | inl yes' ↦
          let e : ok (delete path files) ≡ ok files' = rw yes' at h in
          rw (← ok_injective e) (
            lookup-without (λ j. text_eq j path) p files
            ∙ ground (arith, text_eq_iff p path, text_eq_iff path p))
    ]

lookup-apply_each :
    (p : Text) (cs : List Change) (seen : List Text) (files files' : Dict Bytes)
    → apply_each cs seen files ≡ ok files'
    → lookup p files' ≡ after_changes p cs (lookup p files)
unfolding apply_each after_changes
lookup-apply_each p [] seen files files' h = ap (lookup p) (sym (ok_injective h))
lookup-apply_each p (c ∷ cs) seen files files' h =
    let (path, n, h1) = and_then-ok (normalize_repo_path (path_of c)) _ h in
    let (fresh, h2) = unless-ok (is_nil path || contains path seen) _ _ h1 in
    let (changed, e, h3) = and_then-ok (apply_change path c files) _ h2 in
    rw n (
      lookup-apply_each p cs (add path seen) changed files' h3
      ∙ ap (after_changes p cs) (lookup-apply_change p path c files changed e))

-- After changes that are accepted, each path holds what the last change whose normalized path it is
-- says, its content or nothing, and what it held before if no change is of it.
pub lookup-apply_changes :
    (p : Text) (cs : List Change) (files files' : Dict Bytes)
    → apply_changes files cs ≡ ok files'
    → lookup p files' ≡ after_changes p cs (lookup p files)
unfolding apply_changes
lookup-apply_changes p cs files files' h =
    let (after, e, h1) = and_then-ok (apply_each cs [] files) _ h in
    let (apart, h2) = unless-ok _ _ _ h1 in
    ap (lookup p) (sym (ok_injective h2)) ∙ lookup-apply_each p cs [] files after e
