-- ===== src/ChangeSet.antt =====
-- packages/core/src/working-tree/change-set.ts, change.ts and published-revision.ts: the changes of
-- an overlay against its base, and an overlay carried over to a published revision.
pub mod Commits
pub mod Deleted
pub mod Rebase
use remotish.Shared.{
  Text, Bytes, text_eq, Dict, lookup, insert, add, contains, Result, ok, err, and_then, Option,
  none, some, List, [], ◌∷◌, Bool, true, false, not, ◌&&◌, ◌||◌, if◌then◌else◌, is_some, is_nil,
  keep, any_of, sort_by, text_le, map,
}
use remotish.Sdk.{Change, add_file, modify_file, delete_file, path_of}
use remotish.Paths.{normalize_repo_path}
use remotish.Overlay
use remotish.Overlay.{Overlay, OverlayFileSnapshot, RenameSnapshot}
use remotish.Repository
use remotish.Repository.{Adapter, FileStat}
use remotish.WorkingTree.{is_file}
use remotish.WorkingTree.Mutations.{equal_bytes, try_read_base, is_directory_stat, is_file_stat}

pub data WorkingTreeChange : Type 0 where
  added : Text → WorkingTreeChange
  modified : Text → WorkingTreeChange
  deleted : Text → WorkingTreeChange
  renamed : Text → Text → WorkingTreeChange

abbrev pub changed_path : WorkingTreeChange → Text
changed_path (added path) = path
changed_path (modified path) = path
changed_path (deleted path) = path
changed_path (renamed path original_path) = path

unfoldable pub add_all : List Text → List Text → List Text
add_all [] result = result
add_all (p ∷ ps) result = add_all ps (add p result)

unfoldable pub set_renames : List RenameSnapshot → Dict WorkingTreeChange → Dict WorkingTreeChange
set_renames [] changes = changes
set_renames (r ∷ rs) changes = set_renames rs (insert r.to (renamed r.to r.from) changes)

unfoldable pub set_deleted :
    List RenameSnapshot → List Text → Dict WorkingTreeChange → Dict WorkingTreeChange
set_deleted renames [] changes = changes
set_deleted renames (path ∷ rest) changes = set_deleted renames rest (
    if any_of (λ rename. text_eq rename.from path) renames
    then changes
    else insert path (deleted path) changes)

-- What one overlay file is against the base.
unfoldable pub compare_file :
    OverlayFileSnapshot → Option Bytes → Dict WorkingTreeChange → Dict WorkingTreeChange
compare_file f none changes = insert f.path (added f.path) changes
compare_file f (some base) changes =
    if equal_bytes base f.content then changes else insert f.path (modified f.path) changes

unfoldable pub commit_file : OverlayFileSnapshot → Option Bytes → Dict Change → Dict Change
commit_file f none changes = insert f.path (add_file f.path f.content) changes
commit_file f (some base) changes =
    if equal_bytes base f.content
    then changes
    else insert f.path (modify_file f.path f.content) changes

unfoldable pub commit_deletes : List Text → Dict Change → Dict Change
commit_deletes [] changes = changes
commit_deletes (path ∷ rest) changes =
    commit_deletes rest
      (if is_some (lookup path changes) then changes else insert path (delete_file path) changes)

module _ (adapter : Adapter) (revision : Text) where
  -- `deletedBaseFiles`: the base files that the tombstones stand for.
  abbrev pub files_of_tombstone : Text → Option FileStat → List Text → Result (List Text)
  files_of_tombstone path none result = ok result
  files_of_tombstone path (some s) result =
      if is_file s
      then ok (add path result)
      else (and_then (Repository.list_files_recursively adapter revision path)
          λ files. ok (add_all files result))

  unfoldable pub collect_deleted : List Text → List Text → Result (List Text)
  collect_deleted [] result = ok result
  collect_deleted (path ∷ rest) result =
      and_then (Repository.try_stat adapter revision path)
        λ s. and_then (files_of_tombstone path s result) λ result'. collect_deleted rest result'

  unfoldable pub deleted_base_files : Overlay → Result (List Text)
  deleted_base_files o =
      and_then (collect_deleted (Overlay.list_deleted_paths o) [])
        λ result. ok (sort_by text_le result)

  unfoldable pub compare_files :
      List OverlayFileSnapshot → Dict WorkingTreeChange → Result (Dict WorkingTreeChange)
  compare_files [] changes = ok changes
  compare_files (f ∷ fs) changes =
      let skipped = compare_files fs changes in
      let compared =
        and_then (try_read_base adapter revision f.path)
          λ base. compare_files fs (compare_file f base changes) in
      if is_some (lookup f.path changes) then skipped else compared

  unfoldable pub commit_files : List OverlayFileSnapshot → Dict Change → Result (Dict Change)
  commit_files [] changes = ok changes
  commit_files (f ∷ fs) changes =
      and_then (try_read_base adapter revision f.path)
        λ base. commit_files fs (commit_file f base changes)

  module _ (locale_le : Text → Text → Bool) where
    unfoldable pub get_working_tree_changes : Overlay → Result (List WorkingTreeChange)
    get_working_tree_changes o =
        and_then
          (compare_files (Overlay.list_files locale_le o) (set_renames (Overlay.list_renames o) []))
          λ changes. and_then (deleted_base_files o) λ paths. ok (
            sort_by (λ left right. locale_le (changed_path left) (changed_path right))
              (map (λ e. e.1) (set_deleted (Overlay.list_renames o) paths changes)))

    unfoldable pub build_all_commit_changes : Overlay → Result (List Change)
    build_all_commit_changes o =
        and_then (commit_files (Overlay.list_files locale_le o) []) λ changes.
          and_then (deleted_base_files o) λ paths. ok (
            sort_by (λ left right. locale_le (path_of left) (path_of right))
              (map (λ e. e.1) (commit_deletes paths changes)))

    -- `selectedPaths.map(normalizePath)`, as a set
    unfoldable pub normalize_all : List Text → List Text → Result (List Text)
    normalize_all [] paths = ok paths
    normalize_all (p ∷ ps) paths =
        and_then (normalize_repo_path p) λ normalized. normalize_all ps (add normalized paths)

    -- The paths that a selection of changes publishes: a rename publishes both of its sides.
    abbrev pub add_sides : WorkingTreeChange → List Text → List Text
    add_sides (renamed path original_path) paths = add original_path (add path paths)
    add_sides change paths = add (changed_path change) paths

    unfoldable pub selected_commit_paths :
        List Text → List WorkingTreeChange → List Text → List Text
    selected_commit_paths selected [] paths = paths
    selected_commit_paths selected (change ∷ rest) paths =
        selected_commit_paths selected rest
          (if contains (changed_path change) selected then add_sides change paths else paths)

    unfoldable pub build_commit_changes : Overlay → Option (List Text) → Result (List Change)
    build_commit_changes o none = build_all_commit_changes o
    build_commit_changes o (some selected_paths) =
        and_then (build_all_commit_changes o) λ all_changes.
          and_then (normalize_all selected_paths []) λ selected.
            if is_nil selected
            then ok []
            else (and_then (get_working_tree_changes o) λ changes.
                let paths = selected_commit_paths selected changes [] in
                ok (keep (λ change. contains (path_of change) paths) all_changes))

  -- published-revision.ts: the four loops of `rebaseOverlayAfterPartialPublish`.
  abbrev pub drop_equal_file : OverlayFileSnapshot → Option Bytes → Overlay → Overlay
  drop_equal_file f none o = o
  drop_equal_file f (some remote) o =
      if equal_bytes remote f.content then Overlay.remove_file f.path o else o

  unfoldable pub rebase_files : List OverlayFileSnapshot → Overlay → Result Overlay
  rebase_files [] o = ok o
  rebase_files (f ∷ fs) o =
      and_then (try_read_base adapter revision f.path)
        λ remote. rebase_files fs (drop_equal_file f remote o)

  unfoldable pub rebase_directories : List Text → Overlay → Result Overlay
  rebase_directories [] o = ok o
  rebase_directories (d ∷ ds) o =
      and_then (Repository.try_stat adapter revision d)
        λ s. rebase_directories ds (if is_directory_stat s then Overlay.remove_directory d o else o)

  unfoldable pub rebase_deleted : List Text → Overlay → Result Overlay
  rebase_deleted [] o = ok o
  rebase_deleted (p ∷ ps) o =
      and_then (Repository.try_stat adapter revision p)
        λ s. rebase_deleted ps (if is_some s then o else Overlay.unmark_deleted p false o)

  unfoldable pub rebase_renames : List RenameSnapshot → Overlay → Result Overlay
  rebase_renames [] o = ok o
  rebase_renames (r ∷ rs) o = and_then (Repository.try_stat adapter revision r.from) λ source.
      and_then (Repository.try_stat adapter revision r.to) λ target.
        rebase_renames rs (
          if not (is_some source) && is_some target then Overlay.remove_rename r.from r.to o else o)

  unfoldable pub rebase_overlay_after_partial_publish :
      (Text → Text → Bool) → Overlay → Result Overlay
  rebase_overlay_after_partial_publish locale_le o =
      and_then (rebase_files (Overlay.list_files locale_le o) o) λ o1.
        and_then (rebase_directories (Overlay.list_directories o1) o1) λ o2.
          and_then (rebase_deleted (Overlay.list_deleted_paths o2) o2)
            λ o3. rebase_renames (Overlay.list_renames o3) o3
