-- ===== src/Repository/Entries.antt =====
-- packages/core/src/repository/repository-reader.ts: directory listings and `stat`.
use remotish.Shared.{
  Text, text_eq, text_eq→eq, text_eq_refl, contains, contains-add, add, ok, some, List, [], ◌∷◌,
  false, is_nil, any_of, find_first, length, ◌≤◌, ◌≡◌, refl, arith, Bool-cases, inl, inr,
  Result-cases, and_then-ok, ◌⊎◌,
}
use remotish.Sdk.{DirectoryEntry}
use remotish.Paths.{normalize_repo_path, parent_path, base_name}
use remotish.Paths.Canonical.{IsCanonical}
use remotish.Paths.Tree.{has_slash, parent-child_path}
use remotish.Repository.{
  Unknown, string, RawEntry, object, RawDirectory, array, not_an_array, not_an_object, Adapter,
  max_directory_entries, max_repo_path_segment_length, max_repo_path_length, is_not_segment,
  is_not_canonical, read_name, child_path, validate_entry, validate_entries,
  validate_directory_entries, stat_of, read_directory, stat, find_named,
}

-- A name that is one canonical path segment, of limited length.
pub record IsName (name : Text) : Type 0 where
  pub canonical : IsCanonical name
  pub non_empty : is_nil name ≡ false
  pub segment : is_not_segment name ≡ false
  pub short : length name ≤ max_repo_path_segment_length

pub record IsEntry (parent : Text) (e : DirectoryEntry) : Type 0 where
  pub named : IsName e.name
  pub derived : e.path ≡ child_path parent e.name
  pub short : length e.path ≤ max_repo_path_length

-- Entries of `parent` whose names differ from one another and from `names`.
abbrev pub IsListing : Text → List Text → List DirectoryEntry → Type 0
IsListing parent names [] = Unit
IsListing parent names (e ∷ es) =
    IsEntry parent e × (contains e.name names ≡ false) × IsListing parent (add e.name names) es

IsCanonical-of_test : (name : Text) → is_not_canonical name ≡ false → IsCanonical name
unfolding is_not_canonical
IsCanonical-of_test name h = elim (Result-cases (normalize_repo_path name)) [
  | inl (n, e) ↦ ground (arith, text_eq→eq n name)
  | inr (f, e) ↦ absurd (ground arith)
]

read_name-IsName : (raw : Unknown) (name : Text) → read_name raw ≡ ok name → IsName name
unfolding read_name
read_name-IsName (string n) name h = record {
  canonical = IsCanonical-of_test name (ground arith);
  non_empty = ground arith;
  segment = ground arith;
  short = ground arith;
}
read_name-IsName _ name h = cc

validate_entry-IsEntry :
    (parent : Text) (names : List Text) (raw : RawEntry) (e : DirectoryEntry)
    → validate_entry parent names raw ≡ ok e
    → IsEntry parent e × (contains e.name names ≡ false)
unfolding validate_entry
validate_entry-IsEntry parent names not_an_object e h = cc
validate_entry-IsEntry parent names (object raw_name raw_type raw_size) e h = (
  record {
    named = read_name-IsName raw_name e.name (ground arith);
    derived = ground arith;
    short = ground arith;
  },
  ground arith,
)

validate_entries-IsListing :
    (parent : Text) (names : List Text) (raws : List RawEntry) (es : List DirectoryEntry)
    → validate_entries parent names raws ≡ ok es
    → IsListing parent names es × (length es ≡ length raws)
unfolding validate_entries
validate_entries-IsListing parent names [] [] h = (tt, refl)
validate_entries-IsListing parent names [] (e ∷ es) h = absurd (ground arith)
validate_entries-IsListing parent names (raw ∷ raws) [] h = absurd (ground arith)
validate_entries-IsListing parent names (raw ∷ raws) (e ∷ es) h =
    let first : validate_entry parent names raw ≡ ok e = ground arith in
    let (listed, size) =
      validate_entries-IsListing parent (add e.name names) raws es (ground arith) in
    let (entry, fresh) = validate_entry-IsEntry parent names raw e first in
    ((entry, fresh, listed), ground arith)

-- A listing that passes the validation has at most 50,000 entries; the name of each is a canonical
-- path segment of at most 1,024 characters that no other entry has, and its path, of at most 8,192
-- characters, is made of the listed directory and that name, whatever path the adapter gave.
pub validate-IsListing :
    (parent : Text) (raw : RawDirectory) (es : List DirectoryEntry)
    → validate_directory_entries parent raw ≡ ok es
    → IsListing parent [] es × (length es ≤ max_directory_entries)
unfolding validate_directory_entries
validate-IsListing parent not_an_array es h = cc
validate-IsListing parent (array raws) es h =
    let (listed, size) = validate_entries-IsListing parent [] raws es (ground arith) in
    (listed, ground arith)

has_slash-segment : (name : Text) → is_not_segment name ≡ false → has_slash name ≡ false
unfolding is_not_segment has_slash any_of
has_slash-segment [] h = refl
has_slash-segment (c ∷ s) h = ground (arith, has_slash-segment s)

-- The path of an entry, taken apart again.
pub entry-path :
    (parent : Text) (e : DirectoryEntry)
    → IsEntry parent e
    → (parent_path e.path ≡ some parent) × (base_name e.path ≡ e.name)
unfolding child_path
entry-path parent e i = rw i.derived (
    parent-child_path parent e.name (has_slash-segment e.name i.named.segment)
      (ground (arith, i.named.non_empty)))

find-listed :
    (parent name : Text) (names : List Text) (es : List DirectoryEntry) (e : DirectoryEntry)
    → IsListing parent names es
    → find_named name es ≡ some e
    → IsEntry parent e × (e.name ≡ name)
unfolding find_named find_first
find-listed parent name names [] e l h = absurd (ground arith)
find-listed parent name names (d ∷ ds) e (i, _, l) h = elim (Bool-cases (text_eq d.name name)) [
  | inl same ↦ let here : d ≡ e = ground arith in rw (← here) (i, text_eq→eq d.name name same)
  | inr other ↦ find-listed parent name (add d.name names) ds e l (ground arith)
]

abbrev pub Listed : DirectoryEntry → List DirectoryEntry → Type 0
Listed e [] = ⊥
Listed e (d ∷ ds) = (d ≡ e) ⊎ Listed e ds

Listed-fresh :
    (parent : Text) (names : List Text) (es : List DirectoryEntry) (e : DirectoryEntry)
    → IsListing parent names es
    → Listed e es
    → contains e.name names ≡ false
Listed-fresh parent names [] e l h = absurd h
Listed-fresh parent names (d ∷ ds) e (i, fresh, l) (inl same) = rw (← same) fresh
Listed-fresh parent names (d ∷ ds) e (i, fresh, l) (inr later) =
    let rest = Listed-fresh parent (add d.name names) ds e l later in
    ground (arith, rest, contains-add d.name e.name names)

pub Listed-IsEntry :
    (parent : Text) (names : List Text) (es : List DirectoryEntry) (e : DirectoryEntry)
    → IsListing parent names es
    → Listed e es
    → IsEntry parent e
Listed-IsEntry parent names [] e l h = absurd h
Listed-IsEntry parent names (d ∷ ds) e (i, fresh, l) (inl same) = rw (← same) i
Listed-IsEntry parent names (d ∷ ds) e (i, fresh, l) (inr later) =
    Listed-IsEntry parent (add d.name names) ds e l later

find_self :
    (parent : Text) (names : List Text) (es : List DirectoryEntry) (e : DirectoryEntry)
    → IsListing parent names es
    → Listed e es
    → find_named e.name es ≡ some e
unfolding find_named find_first
find_self parent names [] e l h = absurd h
find_self parent names (d ∷ ds) e (i, fresh, l) (inl same) =
    rw (← same) (ground (arith, text_eq_refl d.name))
find_self parent names (d ∷ ds) e (i, fresh, l) (inr later) = ground (
  arith,
  find_self parent (add d.name names) ds e l later,
  Listed-fresh parent (add d.name names) ds e l later,
  contains-add d.name e.name names,
)

module _ (adapter : Adapter) (revision : Text) where
  pub read_directory-IsListing :
      (path : Text) (es : List DirectoryEntry)
      → read_directory adapter revision path ≡ ok es
      → IsListing path [] es
  unfolding read_directory
  read_directory-IsListing path es h =
      let (raw, _, valid) = and_then-ok (adapter.read_directory revision path) _ h in
      (validate-IsListing path raw es valid).0

  -- What a directory listing shows of an entry is what `stat` says of the entry's path.
  pub stat-Listed :
      (path : Text) (es : List DirectoryEntry) (e : DirectoryEntry)
      → read_directory adapter revision path ≡ ok es
      → Listed e es
      → stat adapter revision e.path ≡ ok (stat_of e)
  unfolding stat
  stat-Listed path es e h l =
      let listing = read_directory-IsListing path es h in
      let (p, b) = entry-path path e (Listed-IsEntry path [] es e listing l) in
      rw (stat, p, h, b, find_self path [] es e listing l)
