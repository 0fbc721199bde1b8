-- ===== src/Fixture.antt =====
-- The repository in memory: packages/adapter-fixture/src. This file is model.ts and files.ts.
--
-- Files are kept under canonical paths, so `parentPath` is taken of canonical paths only.
pub mod Commits
pub mod View
pub mod Branches
pub mod Engine
pub mod Files
pub mod History
pub mod Numbers
pub mod Invariant
pub mod Seed
pub mod Sessions
pub mod Pages
use remotish.Shared.{
  Text, Bytes, text_eq, text_le, contains, add, Dict, lookup, insert, delete, Result, ok, err,
  and_then, throw_code, invalid_request, not_found, Option, none, some, is_some, List, [], ◌∷◌, map,
  Bool, true, false, not, ◌&&◌, ◌||◌, if◌then◌else◌, is_nil, any_of, sort_by, ℕ,
}
use remotish.Sdk.{Change, path_of, add_file, modify_file, delete_file}
use remotish.Sdk.History.{
  RepositoryInfo, CommitInfo, CommitChange, CommitChangeType, added, modified, deleted,
}
use remotish.Paths.{normalize_repo_path, parent_path}
use remotish.WorkingTree.Mutations.{equal_bytes}

pub record StoredCommit : Type 0 where
  pub info : CommitInfo
  pub files : Dict Bytes

-- The repository, with the sequence number of the commit engine.
pub record Fixture : Type 0 where
  pub info : RepositoryInfo
  pub commits : Dict StoredCommit
  pub branches : Dict Text
  pub sequence : ℕ

-- One change, at its normalized path.
unfoldable pub apply_change : Text → Change → Dict Bytes → Result (Dict Bytes)
apply_change path (delete_file _) files =
    if is_some (lookup path files) then ok (delete path files) else throw_code invalid_request
apply_change path (add_file _ content) files =
    if is_some (lookup path files)
    then throw_code invalid_request
    else ok (insert path content files)
apply_change path (modify_file _ content) files =
    if is_some (lookup path files)
    then ok (insert path content files)
    else throw_code invalid_request

unfoldable pub apply_each : List Change → List Text → Dict Bytes → Result (Dict Bytes)
apply_each [] seen files = ok files
apply_each (change ∷ changes) seen files = and_then (normalize_repo_path (path_of change)) λ path.
    if is_nil path || contains path seen
    then throw_code invalid_request
    else (and_then (apply_change path change files)
        λ files'. apply_each changes (add path seen) files')

-- Two changes at `a` and at `a/b/c` leave the file `a` above another: only the parent is looked at.
unfoldable pub is_below_file : Dict Bytes → Text → Bool
is_below_file files path = elim (parent_path path) [
  | none ↦ false
  | some parent ↦ not (is_nil parent) && is_some (lookup parent files)
]

unfoldable pub apply_changes : Dict Bytes → List Change → Result (Dict Bytes)
apply_changes files changes = and_then (apply_each changes [] files) λ after.
    if any_of (λ e. is_below_file after e.0) after then throw_code invalid_request else ok after

-- `new Set([...before.keys(), ...after.keys()])`
unfoldable pub add_keys : Dict Bytes → List Text → List Text
add_keys [] paths = paths
add_keys ((path, content) ∷ files) paths = add_keys files (add path paths)

abbrev pub change_at : Option Bytes → Option Bytes → Option CommitChangeType
change_at none none = none
change_at none (some right) = some added
change_at (some left) none = some deleted
change_at (some left) (some right) = if equal_bytes left right then none else some modified

abbrev pub put_change : Text → Option CommitChangeType → List CommitChange → List CommitChange
put_change path none changes = changes
put_change path (some type) changes =
    record { type = type; path = path; previous_path = none } ∷ changes

unfoldable pub diff_each : Dict Bytes → Dict Bytes → List Text → List CommitChange
diff_each before after [] = []
diff_each before after (path ∷ paths) =
    put_change path (change_at (lookup path before) (lookup path after))
      (diff_each before after paths)

unfoldable pub diff_files : Dict Bytes → Dict Bytes → List CommitChange
diff_files before after =
    diff_each before after (sort_by text_le (add_keys after (add_keys before [])))

abbrev pub found {ℓ} : {A : Type ℓ} → Option A → Result A
found none = throw_code not_found
found (some a) = ok a

-- `requireCommit`
unfoldable pub require_commit : Text → Fixture → Result StoredCommit
require_commit revision f = found (lookup revision f.commits)
