-- ===== src/Overlay.antt =====
-- packages/core/src/overlay/overlay.ts: the class `Overlay`. Paths are canonical (see Paths), but
-- in `restore`, which reads what a storage holds.
pub mod Deletion
pub mod Lookup
pub mod Invariant
pub mod Restore
pub mod Restored
pub mod Saved
use remotish.Shared.{
  Text, Bytes, text_eq, Dict, lookup, insert, without, delete, contains, add, remove, leave_out,
  keep, any_of, sort_by, text_le, Result, ok, err, and_then, Option, none, some, List, [], ◌∷◌,
  ◌++◌, Bool, true, false, not, ◌&&◌, ◌||◌, if◌then◌else◌, is_nil, length, ℕ, map,
}
use remotish.Sdk.{DirectoryEntryType, file, directory}
use remotish.Paths.{normalize_repo_path, is_same_or_child, is_direct_child}

pub record OverlayFileSnapshot : Type 0 where
  pub path : Text
  pub content : Bytes

pub record RenameSnapshot : Type 0 where
  pub from : Text
  pub to : Text

pub record OverlaySnapshot : Type 0 where
  pub files : List OverlayFileSnapshot
  pub directories : List Text
  pub deleted_paths : List Text
  pub renames : List RenameSnapshot

pub record OverlayEntry : Type 0 where
  pub path : Text
  pub type : DirectoryEntryType
  pub size : ℕ

pub record Overlay : Type 0 where
  pub files : Dict Bytes
  pub directories : List Text
  pub deleted_paths : List Text
  pub renames : List RenameSnapshot

-- What `new Overlay()` holds.
abbrev pub new_overlay : Overlay
new_overlay = record { files = []; directories = []; deleted_paths = []; renames = [] }

abbrev pub clear : Overlay → Overlay
clear o = record o { files = []; directories = []; deleted_paths = []; renames = [] }

unfoldable pub is_empty : Overlay → Bool
is_empty o = is_nil o.files && is_nil o.directories && is_nil o.deleted_paths

unfoldable pub get_file : Text → Overlay → Option Bytes
get_file path o = lookup path o.files

unfoldable pub remove_file : Text → Overlay → Overlay
remove_file path o = record o { files = delete path o.files }

unfoldable pub remove_directory : Text → Overlay → Overlay
remove_directory path o = record o { directories = remove path o.directories }

unfoldable pub has_directory : Text → Overlay → Bool
has_directory path o = contains path o.directories

-- `includeAncestors` also removes the tombstones above the path.
unfoldable pub unmark_deleted : Text → Bool → Overlay → Overlay
unmark_deleted path include_ancestors o = record o {
  deleted_paths =
      leave_out
        (λ deleted. text_eq deleted path || (include_ancestors && is_same_or_child path deleted))
        o.deleted_paths;
}

unfoldable pub clear_deletion_for_recreated_path : Text → Bool → Overlay → Overlay
unfolding unmark_deleted
clear_deletion_for_recreated_path path is_directory o =
    if is_directory
    then record o { deleted_paths = remove path o.deleted_paths }
    else unmark_deleted path true o

unfoldable pub set_file : Text → Bytes → Overlay → Overlay
unfolding clear_deletion_for_recreated_path
set_file path content o =
    clear_deletion_for_recreated_path path false
      (record o { files = insert path content o.files; directories = remove path o.directories })

unfoldable pub set_directory : Text → Overlay → Overlay
unfolding clear_deletion_for_recreated_path
set_directory path o =
    clear_deletion_for_recreated_path path true
      (record o { directories = add path o.directories; files = delete path o.files })

unfoldable pub touches : Text → RenameSnapshot → Bool
touches path rename = is_same_or_child rename.from path || is_same_or_child rename.to path

unfoldable pub remove_overlay_path : Text → Overlay → Overlay
unfolding touches
remove_overlay_path path o = record o {
  files = without (λ f. is_same_or_child f path) o.files;
  directories = leave_out (λ d. is_same_or_child d path) o.directories;
  renames = keep (λ rename. not (touches path rename)) o.renames;
}

unfoldable pub mark_deleted : Text → Overlay → Overlay
unfolding remove_overlay_path
mark_deleted path o =
    let cleared = remove_overlay_path path o in
    record cleared { deleted_paths = add path cleared.deleted_paths }

unfoldable pub is_deleted : Text → Overlay → Bool
is_deleted path o = any_of (λ deleted. is_same_or_child path deleted) o.deleted_paths

unfoldable pub add_rename : Text → Text → Overlay → Overlay
add_rename from to o = record o { renames = o.renames ++ record { from = from; to = to } ∷ [] }

-- `findIndex` and `splice`: the first rename that meets the test, and the others.
unfoldable pub take_rename :
    (RenameSnapshot → Bool) → List RenameSnapshot → Option RenameSnapshot × List RenameSnapshot
take_rename p [] = (none, [])
take_rename p (r ∷ rs) =
    let (found, rest) = take_rename p rs in if p r then (some r, rs) else (found, r ∷ rest)

unfoldable pub remove_rename_to : Text → Overlay → Option RenameSnapshot × Overlay
unfolding take_rename
remove_rename_to path o =
    let (found, rest) = take_rename (λ r. text_eq r.to path) o.renames in
    (found, record o { renames = rest })

unfoldable pub remove_rename : Text → Text → Overlay → Overlay
unfolding take_rename
remove_rename from to o = record o {
  renames = (take_rename (λ r. text_eq r.from from && text_eq r.to to) o.renames).1;
}

abbrev pub to_file_snapshot : Text × Bytes → OverlayFileSnapshot
to_file_snapshot (path, content) = record { path = path; content = content }

-- `localeCompare` is the host's: `locale_le a b` says that `a` does not come after `b`.
module _ (locale_le : Text → Text → Bool) where
  unfoldable pub list_files : Overlay → List OverlayFileSnapshot
  list_files o =
      sort_by (λ left right. locale_le left.path right.path) (map to_file_snapshot o.files)

unfoldable pub list_directories : Overlay → List Text
list_directories o = sort_by text_le o.directories

unfoldable pub list_deleted_paths : Overlay → List Text
list_deleted_paths o = sort_by text_le o.deleted_paths

abbrev pub list_renames : Overlay → List RenameSnapshot
list_renames o = o.renames

-- `result.set` of each file, then of each directory marker
unfoldable pub child_files : Text → Overlay → Dict Bytes → Dict OverlayEntry → Dict OverlayEntry
child_files parent o [] result = result
child_files parent o ((path, content) ∷ rest) result = child_files parent o rest (
    if is_direct_child path parent && not (is_deleted path o)
    then insert path (record { path = path; type = file; size = length content }) result
    else result)

unfoldable pub child_directories :
    Text → Overlay → List Text → Dict OverlayEntry → Dict OverlayEntry
child_directories parent o [] result = result
child_directories parent o (path ∷ rest) result = child_directories parent o rest (
    if is_direct_child path parent && not (is_deleted path o)
    then insert path (record { path = path; type = directory; size = 0 }) result
    else result)

unfoldable pub direct_children : Text → Overlay → List OverlayEntry
unfolding child_files child_directories is_deleted
direct_children path o =
    map (λ e. e.1) (child_directories path o o.directories (child_files path o o.files []))

unfoldable pub snapshot : (Text → Text → Bool) → Overlay → OverlaySnapshot
unfolding list_files list_directories list_deleted_paths
snapshot locale_le o = record {
  files = list_files locale_le o;
  directories = list_directories o;
  deleted_paths = list_deleted_paths o;
  renames = list_renames o;
}

unfoldable pub restore_files : List OverlayFileSnapshot → Dict Bytes → Result (Dict Bytes)
restore_files [] files = ok files
restore_files (f ∷ rest) files =
    and_then (normalize_repo_path f.path) λ path. restore_files rest (insert path f.content files)

unfoldable pub restore_paths : List Text → List Text → Result (List Text)
restore_paths [] paths = ok paths
restore_paths (p ∷ rest) paths =
    and_then (normalize_repo_path p) λ path. restore_paths rest (add path paths)

unfoldable pub restore_renames :
    List RenameSnapshot → List RenameSnapshot → Result (List RenameSnapshot)
restore_renames [] renames = ok renames
restore_renames (r ∷ rest) renames = and_then (normalize_repo_path r.from) λ from.
    and_then (normalize_repo_path r.to)
      λ to. restore_renames rest (renames ++ record { from = from; to = to } ∷ [])

-- `restore` into a cleared overlay, which is also `Overlay.fromSnapshot`. It throws where a stored
-- path is no repository path.
unfoldable pub restore : OverlaySnapshot → Result Overlay
unfolding restore_files restore_paths restore_renames
restore s = and_then (restore_files s.files []) λ files.
    and_then (restore_paths s.directories []) λ directories.
      and_then (restore_paths s.deleted_paths []) λ deleted_paths.
        and_then (restore_renames s.renames []) λ renames. ok (record {
          files = files;
          directories = directories;
          deleted_paths = deleted_paths;
          renames = renames;
        })
