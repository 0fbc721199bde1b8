-- ===== src/Repository.antt =====
-- packages/core/src/repository/repository-reader.ts and packages/core/src/util/traversal-budget.ts:
-- reads of an immutable revision through an adapter.
--
-- The adapter is a parameter: what it answers for one revision and path does not change, as its
-- contract (docs/adapter-contract.md) has it for immutable revisions, and a read that misses its
-- deadline is one that answers with the error `offline`. Repository/Reader has the cache in front of
-- it.
pub mod Entries
pub mod Walk
pub mod Reader
pub mod Transparency
use remotish.Shared.{
  Text, Bytes, text, text_eq, starts_with, contains, add, Result, ok, err, and_then, throw_code,
  Failure, remotish_error, not_found, unknown, unsupported, Option, none, some, List, [], ◌∷◌, ◌++◌,
  Bool, true, false, not, ◌&&◌, ◌||◌, ltb, ◌==◌, if◌then◌else◌, is_nil, any_of, find_first, length,
  ℕ, zero, suc, ◌+◌, ◌-◌, ◌*◌,
}
use remotish.Sdk.{DirectoryEntryType, file, directory, DirectoryEntry}
use remotish.Paths.{slash, normalize_repo_path, parent_path, base_name}

-- An untrusted JavaScript value, as far as the validation tells values apart. `safe_number` is a
-- non-negative safe integer.
pub data Unknown : Type 0 where
  string : Text → Unknown
  safe_number : ℕ → Unknown
  undefined other : Unknown

pub data RawEntry : Type 0 where
  object : Unknown → Unknown → Unknown → RawEntry
  not_an_object : RawEntry

pub data RawDirectory : Type 0 where
  array : List RawEntry → RawDirectory
  not_an_array : RawDirectory

pub record Adapter : Type 0 where
  pub read_file : Text → Text → Result Bytes
  pub read_directory : Text → Text → Result RawDirectory

pub record FileStat : Type 0 where
  pub type : DirectoryEntryType
  pub size : ℕ

abbrev pub max_directory_entries : ℕ
max_directory_entries = 50000

abbrev pub max_repo_path_segment_length : ℕ
max_repo_path_segment_length = 1024

abbrev pub max_repo_path_length : ℕ
max_repo_path_length = 8192

-- `name.includes('\u0000') || name.includes('/') || name.includes('\\')`
unfoldable pub is_not_segment : Text → Bool
is_not_segment name = any_of (λ c. c == 0 || c == slash || c == 92) name

-- `normalizePath(name) !== name`, or it throws
unfoldable pub is_not_canonical : Text → Bool
is_not_canonical name = elim (normalize_repo_path name) [
  | ok normalized ↦ not (text_eq normalized name)
  | err e ↦ true
]

unfoldable pub read_name : Unknown → Result Text
read_name (string name) =
    if is_nil name
      || ltb max_repo_path_segment_length (length name)
      || is_not_segment name
      || is_not_canonical name
    then throw_code unknown
    else ok name
read_name _ = throw_code unknown

unfoldable pub read_type : Unknown → Result DirectoryEntryType
read_type (string type) =
    if text_eq type (text "file")
    then ok file
    else if text_eq type (text "directory")
    then ok directory
    else throw_code unknown
read_type _ = throw_code unknown

unfoldable pub read_size : Unknown → Result (Option ℕ)
read_size undefined = ok none
read_size (safe_number n) = ok (some n)
read_size _ = throw_code unknown

-- `parent ? `${parent}/${name}` : name`
unfoldable pub child_path : Text → Text → Text
child_path parent name = if is_nil parent then name else parent ++ slash ∷ name

-- One entry; `names` are those that came before it.
unfoldable pub validate_entry : Text → List Text → RawEntry → Result DirectoryEntry
validate_entry parent names not_an_object = throw_code unknown
validate_entry parent names (object raw_name raw_type raw_size) =
    and_then (read_name raw_name) λ name.
      if contains name names
      then throw_code unknown
      else (and_then (read_type raw_type) λ type. and_then (read_size raw_size) λ size.
          if ltb max_repo_path_length (length (child_path parent name))
          then throw_code unknown
          else ok (record { name = name; path = child_path parent name; type = type; size = size }))

unfoldable pub validate_entries : Text → List Text → List RawEntry → Result (List DirectoryEntry)
validate_entries parent names [] = ok []
validate_entries parent names (raw ∷ rest) =
    and_then (validate_entry parent names raw)
      λ e. and_then (validate_entries parent (add e.name names) rest) λ es. ok (e ∷ es)

unfoldable pub validate_directory_entries : Text → RawDirectory → Result (List DirectoryEntry)
validate_directory_entries parent not_an_array = throw_code unknown
validate_directory_entries parent (array entries) =
    if ltb max_directory_entries (length entries)
    then throw_code unknown
    else validate_entries parent [] entries

abbrev pub root_stat : FileStat
root_stat = record { type = directory; size = 0 }

-- `entry.size ?? 0`
abbrev pub stat_of : DirectoryEntry → FileStat
stat_of e = record { type = e.type; size = elim e.size [ none ↦ 0 | some n ↦ n ] }

-- `entries.find((candidate) => candidate.name === baseName(normalized))`
unfoldable pub find_named : Text → List DirectoryEntry → Option DirectoryEntry
find_named name entries = find_first (λ candidate. text_eq candidate.name name) entries

abbrev pub stat_found : Option DirectoryEntry → Result FileStat
stat_found none = throw_code not_found
stat_found (some e) = ok (stat_of e)

-- `tryStat`: only the error `not_found` is an answer.
unfoldable pub catch_not_found {ℓ} : {A : Type ℓ} → Result A → Result (Option A)
catch_not_found (ok a) = ok (some a)
catch_not_found (err (remotish_error not_found)) = ok none
catch_not_found (err e) = err e

-- What a walk has seen: `visitedNodes` of its budget, and its output.
pub record WalkState : Type 0 where
  pub visited : ℕ
  pub output : List Text

abbrev pub max_traversal_depth : ℕ
max_traversal_depth = 256

abbrev pub max_traversal_nodes : ℕ
max_traversal_nodes = 100000

unfoldable pub visit : WalkState → Result WalkState
visit s =
    if ltb max_traversal_nodes (s.visited + 1)
    then throw_code unsupported
    else ok (record s { visited = s.visited + 1 })

-- `output.push(entry.path)`, where the output takes the entry
unfoldable pub note_entry : (DirectoryEntryType → Bool) → DirectoryEntry → WalkState → WalkState
note_entry selects e s = if selects e.type then record s { output = s.output ++ e.path ∷ [] } else s

unfoldable pub enter_entry :
    (Text → WalkState → Result WalkState) → DirectoryEntry → WalkState → Result WalkState
enter_entry enter e s = elim e.type [ file ↦ ok s | directory ↦ enter e.path s ]

-- The loop over one directory. `selects` says which entries the output takes, and `enter` walks a
-- subdirectory.
unfoldable pub walk_entries :
    (DirectoryEntryType → Bool)
    → (Text → WalkState → Result WalkState)
    → List DirectoryEntry
    → WalkState
    → Result WalkState
walk_entries selects enter [] s = ok s
walk_entries selects enter (e ∷ es) s = and_then (visit s) λ visited.
    and_then (enter_entry enter e (note_entry selects e visited))
      λ t. walk_entries selects enter es t

-- `levels` is how many directories may still be entered on the way down, one more than
-- `maxDepth - depth`; `enterDirectory` throws when there is none left.
unfoldable pub walk :
    (DirectoryEntryType → Bool)
    → (Text → Result (List DirectoryEntry))
    → ℕ
    → Text
    → WalkState
    → Result WalkState
walk selects read zero path s = throw_code unsupported
walk selects read (suc levels) path s =
    and_then (read path) λ entries. walk_entries selects (walk selects read levels) entries s

abbrev pub start_walk : WalkState
start_walk = record { visited = 0; output = [] }

abbrev pub takes_files : DirectoryEntryType → Bool
takes_files file = true
takes_files directory = false

abbrev pub takes_directories : DirectoryEntryType → Bool
takes_directories file = false
takes_directories directory = true

unfoldable pub walk_from :
    (DirectoryEntryType → Bool) → (Text → Result (List DirectoryEntry)) → Text → Result (List Text)
walk_from selects read path =
    and_then (walk selects read (max_traversal_depth + 1) path start_walk) λ s. ok s.output

module _ (adapter : Adapter) (revision : Text) where
  -- `readFile` and `readDirectory` of a canonical path, without the cache
  unfoldable pub read_file : Text → Result Bytes
  read_file path = adapter.read_file revision path

  unfoldable pub read_directory : Text → Result (List DirectoryEntry)
  read_directory path =
      and_then (adapter.read_directory revision path) λ raw. validate_directory_entries path raw

  unfoldable pub stat : Text → Result FileStat
  stat path = elim (parent_path path) [
    | none ↦ ok root_stat
    | some parent ↦
        and_then (read_directory parent) λ entries. stat_found (find_named (base_name path) entries)
  ]

  unfoldable pub try_stat : Text → Result (Option FileStat)
  try_stat path = catch_not_found (stat path)

  unfoldable pub list_files_recursively : Text → Result (List Text)
  list_files_recursively path = and_then (stat path) λ s. elim s.type [
    | file ↦ ok (path ∷ [])
    | directory ↦ walk_from takes_files read_directory path
  ]
