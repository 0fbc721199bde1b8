-- ===== src/Fixture/View.antt =====
-- packages/adapter-fixture/src/repository-view.ts.
use remotish.Shared.{
  Text, Bytes, text_eq, starts_with, Dict, lookup, insert, Result, ok, err, and_then, throw_code,
  invalid_request, not_found, Option, none, some, is_some, List, [], ◌∷◌, ◌++◌, map, Bool, true,
  false, not, ◌&&◌, ◌||◌, ◌==◌, ltb, leb, if◌then◌else◌, is_nil, any_of, drop, length, take,
  Failure, sort_by, ℕ, zero, suc, ◌+◌, ◌-◌, ◌*◌,
}
use remotish.Sdk.{DirectoryEntry, file, directory}
use remotish.Sdk.History.{ListedBranch, CommitInfo, CommitChange, CommitQuery, CommitPage}
use remotish.Paths.{normalize_repo_path, slash}
use remotish.WorkingTree.{compare_directory_entries}
use remotish.Workspace.Commits.{trim_left}
use remotish.Fixture.{Fixture, diff_files, require_commit}
use remotish.Fixture.Commits.{decimal, head_of}

-- The first segment of a path, and whether another follows.
unfoldable pub first_segment : Text → Text × Bool
first_segment [] = ([], false)
first_segment (c ∷ s) =
    let (name, more) = first_segment s in if c == slash then ([], true) else (c ∷ name, more)

unfoldable pub entry_for : Text → Text → Bytes → DirectoryEntry
entry_for directory_path remainder content =
    let (name, more) = first_segment remainder in
    let path = if is_nil directory_path then name else directory_path ++ slash ∷ name in
    if more
    then record { name = name; path = path; type = directory; size = none }
    else record { name = name; path = path; type = file; size = some (length content) }

unfoldable pub collect_entries :
    Text → Text → Dict Bytes → Dict DirectoryEntry → Dict DirectoryEntry
collect_entries path prefix [] entries = entries
collect_entries path prefix ((file_path, content) ∷ files) entries =
    let entry = entry_for path (drop (length prefix) file_path) content in
    collect_entries path prefix files (
      if not (starts_with file_path prefix) || is_nil entry.name
      then entries
      else insert entry.name entry entries)

module _ (locale_le : Text → Text → Bool) where
  unfoldable pub read_directory : Text → Text → Fixture → Result (List DirectoryEntry)
  read_directory revision path f = and_then (require_commit revision f) λ commit.
      and_then (normalize_repo_path path) λ normalized.
        let prefix = if is_nil normalized then [] else normalized ++ slash ∷ [] in
        if not (is_nil normalized) && is_some (lookup normalized commit.files)
        then throw_code invalid_request
        else if not (is_nil normalized) && not (any_of (λ e. starts_with e.0 prefix) commit.files)
        then throw_code not_found
        else ok (
            sort_by (compare_directory_entries locale_le)
              (map (λ e. e.1) (collect_entries normalized prefix commit.files [])))

  unfoldable pub get_branches : Fixture → List ListedBranch
  get_branches f =
      sort_by (λ l r. locale_le l.name r.name)
        (map
          (λ b. record {
            name = b.0;
            revision = b.1;
            is_default = if text_eq b.0 f.info.default_branch then some true else none;
          })
          f.branches)

unfoldable pub read_file : Text → Text → Fixture → Result Bytes
read_file revision path f = and_then (normalize_repo_path path) λ normalized.
    and_then (require_commit revision f) λ commit. elim (lookup normalized commit.files) [
      | none ↦ throw_code not_found
      | some content ↦ ok content
    ]

abbrev pub first_of : List Text → Text
first_of [] = []
first_of (parent ∷ parents) = parent

abbrev pub first_parent : CommitInfo → Text
first_parent info = first_of info.parents

-- The fuel is the number of commits: a parent is an earlier commit (Fixture/History).
unfoldable pub first_parent_history : ℕ → Text → Fixture → Result (List CommitInfo)
first_parent_history zero current f = err Failure.other_error
first_parent_history (suc fuel) current f =
    if is_nil current
    then ok []
    else (and_then (require_commit current f) λ commit.
        and_then (first_parent_history fuel (first_parent commit.info) f)
          λ rest. ok (commit.info ∷ rest))

unfoldable pub get_commit_changes : Text → Fixture → Result (List CommitChange)
get_commit_changes revision f = and_then (require_commit revision f) λ commit.
    if is_nil (first_parent commit.info)
    then ok (diff_files [] commit.files)
    else (and_then (require_commit (first_parent commit.info) f)
        λ parent. ok (diff_files parent.files commit.files))

-- `Number.parseInt(cursor, 10)`, or nothing where it is `NaN` or negative: white space, a sign, and
-- the digits before any other character.
unfoldable pub leading_digits : Text → ℕ → ℕ
leading_digits [] n = n
leading_digits (c ∷ s) n =
    let rest = leading_digits s (n * 10 + (c - 48)) in if leb 48 c && leb c 57 then rest else n

abbrev pub starts_with_digit : Text → Bool
starts_with_digit [] = false
starts_with_digit (c ∷ s) = leb 48 c && leb c 57

abbrev pub unsigned : Text → Option ℕ
unsigned s = if starts_with_digit s then some (leading_digits s 0) else none

-- `-0` is not below 0.
abbrev pub signed : Text → Option ℕ
signed [] = none
signed (c ∷ s) =
    if c == b'+'
    then unsigned s
    else if c == b'-'
    then elim (unsigned s) [ none ↦ none | some n ↦ if n == 0 then some 0 else none ]
    else unsigned (c ∷ s)

abbrev pub max_safe_integer : ℕ
max_safe_integer = 9007199254740991

unfoldable pub parse_cursor : Option Text → Result ℕ
parse_cursor none = ok 0
parse_cursor (some cursor) = if is_nil cursor then ok 0 else elim (signed (trim_left cursor)) [
  | none ↦ throw_code invalid_request
  | some n ↦ if ltb max_safe_integer n then throw_code invalid_request else ok n
]

-- A limit is a non-negative integer here.
abbrev pub page_limit : Option ℕ → ℕ
page_limit none = 50
page_limit (some n) = if ltb n 1 then 1 else if ltb 100 n then 100 else n

abbrev pub or_else : Option Text → Text → Text
or_else none t = t
or_else (some t) u = t

unfoldable pub resolve_query_revision : CommitQuery → Fixture → Result Text
resolve_query_revision query f =
    let revision = or_else query.revision [] in
    if not (is_nil revision)
    then (and_then (require_commit revision f) λ commit. ok revision)
    else head_of (or_else query.branch f.info.default_branch) f

-- `history.slice(offset, offset + limit)` with its cursor.
unfoldable pub page_of : ℕ → ℕ → List CommitInfo → CommitPage
page_of offset limit history =
    let commits = take limit (drop offset history) in
    let next = offset + length commits in
    record {
      commits = commits;
      next_cursor = if ltb next (length history) then some (decimal next) else none;
    }

unfoldable pub get_commits : CommitQuery → Fixture → Result CommitPage
get_commits query f = and_then (resolve_query_revision query f) λ start.
    and_then (parse_cursor query.cursor) λ offset.
      and_then (first_parent_history (suc (length f.commits)) start f)
        λ history. ok (page_of offset (page_limit query.limit) history)
