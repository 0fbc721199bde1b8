-- ===== src/Examples/Trees.antt =====
-- Reads and writes of a working tree, run on a small repository.
use remotish.Shared.{
  Text, text, text_eq, starts_with, any_of, lookup, insert, without, ok, ok_injective, throw_code,
  not_found, invalid_request, remotish_error, none, [], ◌∷◌, Bool, true, false, ◌≡◌, refl, contains,
  add, ◌⊎◌, ◌>>=◌, find_first, keep, sort_by, insert_sorted, text_le, leave_out,
}
use remotish.Sdk.{file, modify_file}
use remotish.Paths.{
  normalize_repo_path, is_same_or_child, parent_path, base_name, split_last, is_direct_child,
}
use remotish.Overlay
use remotish.Overlay.Restored.{IsConsistent}
use remotish.Overlay.{OverlaySnapshot, Overlay, is_deleted, get_file, has_directory}
use remotish.Overlay.Invariant.{IsWellFormed, Made, Made-IsWellFormed}
use remotish.Repository
use remotish.Repository.{
  FileStat, validate_directory_entries, validate_entries, validate_entry, read_name, read_type,
  read_size, is_not_segment, is_not_canonical, child_path, find_named, catch_not_found, root_stat,
}
use remotish.WorkingTree.{
  WorkingTree, stat_at, try_stat_at, read_file_at, read_file, is_directory, has_changes,
  listed_base, overlay_entries, read_directory_at, list_visible_files,
}
use remotish.WorkingTree.Mutations.{
  require_non_root, try_read_base, store, equal_bytes, write_file, require_directory, delete,
  delete_internal, delete_file_internal, create_directory, delete_directory_internal, for_each,
  revert, revert_all,
}
use remotish.WorkingTree.Writes.{read_file-write_file, write_file_throws, write_file_keeps}
use remotish.WorkingTree.Deletes.{stat-delete}
use remotish.WorkingTree.Reverts.{ShowsBase, revert-ShowsBase, revert_all-ShowsBase}
use remotish.ChangeSet.{
  get_working_tree_changes, build_commit_changes, build_all_commit_changes, commit_files,
  commit_file, commit_deletes, deleted_base_files, collect_deleted,
}
use remotish.ChangeSet.Commits.{DescribesOverlay, build_commit_changes-Describes}
use remotish.Examples.{sample_adapter}

abbrev pub locale_le : Text → Text → Bool
locale_le = text_le

abbrev clean : WorkingTree
clean = record { base_revision = text "r"; overlay = Overlay.new_overlay }

abbrev pub changed_b : WorkingTree
changed_b = record {
  base_revision = text "r";
  overlay = record {
    files = (text "d/b", 7 ∷ []) ∷ [];
    directories = [];
    deleted_paths = [];
    renames = [];
  };
}

write_b : write_file sample_adapter (text "/d/b") (7 ∷ []) false true clean ≡ (ok tt, changed_b)
unfolding write_file ◌>>=◌ require_non_root normalize_repo_path try_stat_at stat_at is_deleted
    any_of get_file lookup has_directory contains Repository.stat parent_path split_last base_name
    Repository.read_directory text_eq validate_directory_entries validate_entries validate_entry
    read_name read_type read_size is_not_segment is_not_canonical child_path add find_named
    find_first catch_not_found require_directory try_read_base Repository.try_stat
    Repository.read_file store equal_bytes Overlay.set_file insert keep
write_b = refl

read_file-write_file_example : read_file sample_adapter (text "/d/b") changed_b ≡ ok (7 ∷ [])
read_file-write_file_example =
    read_file-write_file sample_adapter (text "/d/b") (7 ∷ []) false true clean changed_b write_b

write_file_throws_example : clean ≡ clean
unfolding write_file ◌>>=◌ require_non_root normalize_repo_path any_of
write_file_throws_example =
    write_file_throws sample_adapter (text "/") (7 ∷ []) true true clean clean
      (remotish_error invalid_request) refl

write_file_keeps_example : read_file_at sample_adapter (text "a") changed_b ≡ ok (1 ∷ [])
unfolding require_non_root normalize_repo_path any_of is_same_or_child text_eq starts_with
    read_file_at is_deleted get_file lookup Repository.read_file
write_file_keeps_example =
    write_file_keeps sample_adapter (text "/d/b") (text "d/b") (text "a") (7 ∷ []) (1 ∷ []) false
      true clean changed_b refl write_b refl refl

abbrev deleted_b : WorkingTree
deleted_b = record {
  base_revision = text "r";
  overlay = record { files = []; directories = []; deleted_paths = text "d/b" ∷ []; renames = [] };
}

abbrev size_1 : FileStat
size_1 = record { type = file; size = 1 }

abbrev size_0 : FileStat
size_0 = record { type = file; size = 0 }

delete_b : delete sample_adapter locale_le (text "d/b") false changed_b ≡ (ok tt, deleted_b)
unfolding delete ◌>>=◌ require_non_root delete_internal delete_file_internal
    Overlay.remove_overlay_path Overlay.mark_deleted without keep is_same_or_child starts_with
    normalize_repo_path stat_at is_deleted any_of get_file lookup has_directory contains
    Repository.stat parent_path split_last base_name Repository.read_directory text_eq
    validate_directory_entries validate_entries validate_entry read_name read_type read_size
    is_not_segment is_not_canonical child_path add find_named find_first catch_not_found
    Repository.try_stat
delete_b = refl

stat-delete_example :
    (stat_at sample_adapter (text "d/b") deleted_b ≡ throw_code not_found)
    ⊎ ((base : FileStat) × (Repository.stat sample_adapter (text "r") (text "d/b") ≡ ok base)
        × (is_directory base ≡ true)
        × (stat_at sample_adapter (text "d/b") deleted_b ≡ ok base))
unfolding require_non_root normalize_repo_path stat_at is_deleted any_of get_file lookup
    has_directory contains Repository.stat parent_path split_last base_name
    Repository.read_directory text_eq validate_directory_entries validate_entries validate_entry
    read_name read_type read_size is_not_segment is_not_canonical child_path add find_named
    find_first catch_not_found Repository.try_stat
stat-delete_example =
    stat-delete sample_adapter locale_le (text "d/b") (text "d/b") false size_1 changed_b deleted_b
      refl refl delete_b

revert-ShowsBase_example :
    ((revert (text "/d/b") deleted_b).0 ≡ ok tt)
    × ((revert (text "/d/b") deleted_b).1.base_revision ≡ text "r")
    × ShowsBase sample_adapter (text "d/b") (revert (text "/d/b") deleted_b).1
unfolding normalize_repo_path any_of Overlay.remove_rename_to
revert-ShowsBase_example =
    revert-ShowsBase sample_adapter (text "/d/b") (text "d/b") deleted_b refl refl

revert_all-ShowsBase_example :
    ((revert_all changed_b).0 ≡ ok tt)
    × (has_changes (revert_all changed_b).1 ≡ false)
    × ((revert_all changed_b).1.base_revision ≡ text "r")
    × (get_working_tree_changes sample_adapter (text "r") locale_le (revert_all changed_b).1.overlay
        ≡ ok [])
    × ShowsBase sample_adapter (text "d/b") (revert_all changed_b).1
revert_all-ShowsBase_example = revert_all-ShowsBase sample_adapter locale_le (text "d/b") changed_b

abbrev stored_overlay : OverlaySnapshot
stored_overlay = record {
  files = record { path = text "/d/b"; content = 7 ∷ [] } ∷ [];
  directories = text "e" ∷ [];
  deleted_paths = text "a" ∷ [];
  renames = [];
}

abbrev restored_overlay : Overlay
restored_overlay = record {
  files = (text "d/b", 7 ∷ []) ∷ [];
  directories = text "e" ∷ [];
  deleted_paths = text "a" ∷ [];
  renames = [];
}

restore_stored : Overlay.restore stored_overlay ≡ ok restored_overlay
unfolding Overlay.restore normalize_repo_path insert add contains text_eq
restore_stored = refl

stored-IsConsistent : IsConsistent stored_overlay
unfolding normalize_repo_path is_same_or_child text_eq starts_with
stored-IsConsistent = (
  λ p n. (
    (λ q m. rw (← ok_injective n, ← ok_injective m) refl, tt),
    (λ q m. rw (← ok_injective n, ← ok_injective m) refl, tt),
  ),
  tt,
)

Made-IsWellFormed_example : IsWellFormed (Overlay.set_file (text "a/x") (9 ∷ []) restored_overlay)
Made-IsWellFormed_example = Made-IsWellFormed (
    Made.set_file (text "a/x") (9 ∷ [])
      (Made.restore stored_overlay restore_stored stored-IsConsistent))

pub commit_b :
    build_commit_changes sample_adapter (text "r") locale_le changed_b.overlay none
    ≡ ok (modify_file (text "d/b") (7 ∷ []) ∷ [])
unfolding build_commit_changes build_all_commit_changes commit_files commit_file commit_deletes
    deleted_base_files collect_deleted Overlay.list_files Overlay.list_deleted_paths sort_by
    insert_sorted Repository.read_file try_read_base equal_bytes insert normalize_repo_path stat_at
    is_deleted any_of get_file lookup has_directory contains Repository.stat parent_path split_last
    base_name Repository.read_directory text_eq validate_directory_entries validate_entries
    validate_entry read_name read_type read_size is_not_segment is_not_canonical child_path add
    find_named find_first catch_not_found Repository.try_stat
commit_b = refl

build_commit_changes-Describes_example :
    DescribesOverlay sample_adapter
      (text "r")
      locale_le
      changed_b.overlay
      (modify_file (text "d/b") (7 ∷ []) ∷ [])
build_commit_changes-Describes_example =
    build_commit_changes-Describes sample_adapter (text "r") locale_le changed_b.overlay none
      (modify_file (text "d/b") (7 ∷ []) ∷ []) commit_b

-- The file `a` of the base, deleted, and a directory made in its place.
abbrev deleted_a : WorkingTree
deleted_a = record {
  base_revision = text "r";
  overlay = record { files = []; directories = []; deleted_paths = text "a" ∷ []; renames = [] };
}

abbrev replaced_a : WorkingTree
replaced_a = record {
  base_revision = text "r";
  overlay = record { files = []; directories = text "a" ∷ []; deleted_paths = []; renames = [] };
}

delete_a : delete sample_adapter locale_le (text "a") false clean ≡ (ok tt, deleted_a)
unfolding delete ◌>>=◌ require_non_root delete_internal delete_file_internal
    Overlay.remove_overlay_path Overlay.mark_deleted without keep is_same_or_child starts_with
    normalize_repo_path stat_at is_deleted any_of get_file lookup has_directory contains
    Repository.stat parent_path split_last base_name Repository.read_directory text_eq
    validate_directory_entries validate_entries validate_entry read_name read_type read_size
    is_not_segment is_not_canonical child_path add find_named find_first catch_not_found
    Repository.try_stat
delete_a = refl

replace_a : create_directory sample_adapter (text "a") deleted_a ≡ (ok tt, replaced_a)
unfolding create_directory ◌>>=◌ require_non_root try_stat_at require_directory
    Overlay.set_directory without keep is_same_or_child starts_with leave_out normalize_repo_path
    stat_at is_deleted any_of get_file lookup has_directory contains Repository.stat parent_path
    split_last base_name Repository.read_directory text_eq validate_directory_entries
    validate_entries validate_entry read_name read_type read_size is_not_segment is_not_canonical
    child_path add find_named find_first catch_not_found Repository.try_stat
replace_a = refl

-- No change of a commit says that the file is gone.
commit_replaced_a :
    build_commit_changes sample_adapter (text "r") locale_le replaced_a.overlay none ≡ ok []
unfolding build_commit_changes build_all_commit_changes commit_files commit_file commit_deletes
    deleted_base_files collect_deleted Overlay.list_files Overlay.list_deleted_paths sort_by
    insert_sorted Repository.read_file try_read_base equal_bytes insert normalize_repo_path stat_at
    is_deleted any_of get_file lookup has_directory contains Repository.stat parent_path split_last
    base_name Repository.read_directory text_eq validate_directory_entries validate_entries
    validate_entry read_name read_type read_size is_not_segment is_not_canonical child_path add
    find_named find_first catch_not_found Repository.try_stat
commit_replaced_a = refl

-- Without the directory, the file of the base is there again.
stat_reverted_a : stat_at sample_adapter (text "a") clean ≡ ok size_0
unfolding normalize_repo_path stat_at is_deleted any_of get_file lookup has_directory contains
    Repository.stat parent_path split_last base_name Repository.read_directory text_eq
    validate_directory_entries validate_entries validate_entry read_name read_type read_size
    is_not_segment is_not_canonical child_path add find_named find_first catch_not_found
    Repository.try_stat
stat_reverted_a = refl

clean_again : delete sample_adapter locale_le (text "a") true replaced_a ≡ (ok tt, clean)
unfolding delete ◌>>=◌ require_non_root delete_internal delete_directory_internal read_directory_at
    list_visible_files for_each delete_file_internal Overlay.remove_overlay_path
    Overlay.mark_deleted without keep is_same_or_child starts_with normalize_repo_path stat_at
    is_deleted any_of get_file lookup has_directory contains Repository.stat parent_path split_last
    base_name Repository.read_directory text_eq validate_directory_entries validate_entries
    validate_entry read_name read_type read_size is_not_segment is_not_canonical child_path add
    find_named find_first catch_not_found Repository.try_stat listed_base Repository.walk_from
    Repository.walk Repository.walk_entries sort_by overlay_entries Overlay.direct_children
    is_direct_child
clean_again = refl
