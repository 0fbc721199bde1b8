-- ===== src/WorkingTree.antt =====
-- packages/core/src/working-tree/working-tree.ts and traversal.ts: the visible tree, a base revision
-- under an overlay. The names with a `_at` take canonical paths.
pub mod Mutations
pub mod Writes
pub mod Deletes
pub mod Reverts
use remotish.Shared.{
  Text, Bytes, Dict, insert, Result, ok, err, and_then, throw_code, Failure, not_found,
  invalid_request, Option, none, some, List, [], ◌∷◌, Bool, true, false, not, ◌&&◌, ◌||◌,
  if◌then◌else◌, is_nil, length, map, sort_by, text_eq, ℕ,
}
use remotish.Sdk.{DirectoryEntryType, file, directory, DirectoryEntry}
use remotish.Paths.{normalize_repo_path, base_name}
use remotish.Overlay
use remotish.Overlay.{Overlay, OverlayEntry, is_deleted, get_file, has_directory, direct_children}
use remotish.Repository
use remotish.Repository.{
  Adapter, FileStat, root_stat, catch_not_found, walk_from, takes_files, takes_directories,
}

pub record WorkingTree : Type 0 where
  pub base_revision : Text
  pub overlay : Overlay

unfoldable pub has_changes : WorkingTree → Bool
has_changes t = not (Overlay.is_empty t.overlay)

-- `result.set(entry.name, entry)` of the base entries that no tombstone hides
unfoldable pub base_entries :
    Overlay → List DirectoryEntry → Dict DirectoryEntry → Dict DirectoryEntry
base_entries o [] entries = entries
base_entries o (e ∷ es) entries =
    base_entries o es (if is_deleted e.path o then entries else insert e.name e entries)

abbrev pub entry_of_overlay : OverlayEntry → DirectoryEntry
entry_of_overlay child = record {
  name = base_name child.path;
  path = child.path;
  type = child.type;
  size = elim child.type [ file ↦ some child.size | directory ↦ none ];
}

unfoldable pub overlay_entries : List OverlayEntry → Dict DirectoryEntry → Dict DirectoryEntry
overlay_entries [] entries = entries
overlay_entries (child ∷ rest) entries =
    overlay_entries rest (insert (base_name child.path) (entry_of_overlay child) entries)

abbrev pub is_directory : FileStat → Bool
is_directory s = elim s.type [ file ↦ false | directory ↦ true ]

abbrev pub is_file : FileStat → Bool
is_file s = not (is_directory s)

-- `localeCompare` is the host's: `locale_le a b` says that `a` does not come after `b`.
unfoldable pub compare_directory_entries :
    (Text → Text → Bool) → DirectoryEntry → DirectoryEntry → Bool
compare_directory_entries locale_le left right = elim left.type [
  | directory ↦ elim right.type [ directory ↦ locale_le left.name right.name | file ↦ true ]
  | file ↦ elim right.type [ directory ↦ false | file ↦ locale_le left.name right.name ]
]

module _ (adapter : Adapter) where
  unfoldable pub stat_at : Text → WorkingTree → Result FileStat
  stat_at path t =
      if is_nil path
      then ok root_stat
      else if is_deleted path t.overlay
      then throw_code not_found
      else elim (get_file path t.overlay) [
        | some content ↦ ok (record { type = file; size = length content })
        | none ↦
            if has_directory path t.overlay
            then ok root_stat
            else Repository.stat adapter t.base_revision path
      ]

  unfoldable pub stat : Text → WorkingTree → Result FileStat
  stat path t = and_then (normalize_repo_path path) λ normalized. stat_at normalized t

  unfoldable pub read_file_at : Text → WorkingTree → Result Bytes
  read_file_at path t =
      if is_deleted path t.overlay then throw_code not_found else elim (get_file path t.overlay) [
        | some content ↦ ok content
        | none ↦ Repository.read_file adapter t.base_revision path
      ]

  unfoldable pub read_file : Text → WorkingTree → Result Bytes
  read_file path t = and_then (normalize_repo_path path) λ normalized. read_file_at normalized t

  -- `tryStat`
  unfoldable pub try_stat_at : Text → WorkingTree → Result (Option FileStat)
  try_stat_at path t = catch_not_found (stat_at path t)

  -- The entries that the base gives to a listing.
  unfoldable pub listed_base : Text → WorkingTree → Option FileStat → Result (Dict DirectoryEntry)
  listed_base path t none = ok []
  listed_base path t (some base) =
      if is_directory base
      then (and_then (Repository.read_directory adapter t.base_revision path)
          λ es. ok (base_entries t.overlay es []))
      else ok []

  module _ (locale_le : Text → Text → Bool) where
    unfoldable pub read_directory_at : Text → WorkingTree → Result (List DirectoryEntry)
    read_directory_at path t = and_then (stat_at path t) λ s.
        if not (is_directory s)
        then throw_code invalid_request
        else (and_then (Repository.try_stat adapter t.base_revision path) λ base.
            and_then (listed_base path t base) λ entries. ok (
              sort_by (compare_directory_entries locale_le)
                (map (λ e. e.1) (overlay_entries (direct_children path t.overlay) entries))))

    unfoldable pub read_directory : Text → WorkingTree → Result (List DirectoryEntry)
    read_directory path t =
        and_then (normalize_repo_path path) λ normalized. read_directory_at normalized t

    -- traversal.ts
    unfoldable pub list_visible_files : Text → WorkingTree → Result (List Text)
    list_visible_files path t = and_then (stat_at path t) λ s.
        if is_directory s
        then walk_from takes_files (λ d. read_directory_at d t) path
        else ok (path ∷ [])

    unfoldable pub list_visible_directories : Text → WorkingTree → Result (List Text)
    list_visible_directories path t = walk_from takes_directories (λ d. read_directory_at d t) path

-- A new remote revision under the same overlay, allowed while nothing has changed.
unfoldable pub rebind_clean_base : Text → WorkingTree → Result WorkingTree
rebind_clean_base revision t =
    if has_changes t then throw_code invalid_request else ok (record t { base_revision = revision })

unfoldable pub accept_published_revision : Text → WorkingTree → WorkingTree
accept_published_revision revision t = record t {
  base_revision = revision;
  overlay = Overlay.clear t.overlay;
}

pub record WorkingTreeSnapshot : Type 0 where
  pub base_revision : Text
  pub overlay : Overlay.OverlaySnapshot

unfoldable pub snapshot : (Text → Text → Bool) → WorkingTree → WorkingTreeSnapshot
snapshot locale_le t = record {
  base_revision = t.base_revision;
  overlay = Overlay.snapshot locale_le t.overlay;
}
