-- ===== src/Examples/Publications.antt =====
-- The overlay after a partial publication, run on a small repository.
use remotish.Shared.{
  text, text_eq, text_le, lookup, without, ok, some, [], ◌∷◌, ◌≡◌, refl, ◌⊎◌, any_of, contains, add,
  find_first, sort_by, insert_sorted, keep,
}
use remotish.Paths.{normalize_repo_path, parent_path, base_name, split_last}
use remotish.Overlay
use remotish.Overlay.{Overlay, get_file}
use remotish.Repository
use remotish.Repository.{
  validate_directory_entries, validate_entries, validate_entry, read_name, read_type, read_size,
  is_not_segment, is_not_canonical, child_path, find_named, catch_not_found,
}
use remotish.WorkingTree.Mutations.{try_read_base, equal_bytes}
use remotish.ChangeSet.{
  rebase_overlay_after_partial_publish, rebase_files, rebase_directories, rebase_deleted,
  rebase_renames,
}
use remotish.ChangeSet.Rebase.{Published, rebase-Kept}
use remotish.Examples.{sample_adapter}

-- `a` is published with its content, and `d/b` is not.
abbrev two_files : Overlay
two_files = record {
  files = (text "a", 1 ∷ []) ∷ (text "d/b", 7 ∷ []) ∷ [];
  directories = text "d" ∷ [];
  deleted_paths = text "gone" ∷ [];
  renames = [];
}

abbrev one_file_left : Overlay
one_file_left = record {
  files = (text "d/b", 7 ∷ []) ∷ [];
  directories = [];
  deleted_paths = [];
  renames = [];
}

rebase_two :
    rebase_overlay_after_partial_publish sample_adapter (text "r") text_le two_files
    ≡ ok one_file_left
unfolding rebase_overlay_after_partial_publish rebase_files rebase_directories rebase_deleted
    rebase_renames Overlay.list_files Overlay.list_directories Overlay.list_deleted_paths
    Overlay.list_renames Overlay.remove_file Overlay.remove_directory Overlay.unmark_deleted without
    sort_by insert_sorted text_le try_read_base equal_bytes Repository.read_file normalize_repo_path
    any_of get_file lookup contains Repository.stat parent_path split_last base_name
    Repository.read_directory text_eq validate_directory_entries validate_entries validate_entry
    read_name read_type read_size is_not_segment is_not_canonical child_path add find_named
    find_first catch_not_found Repository.try_stat keep
rebase_two = refl

rebase-Kept_example :
    (get_file (text "d/b") one_file_left ≡ some (7 ∷ []))
    ⊎ Published sample_adapter (text "r") (Overlay.list_files text_le two_files) (text "d/b")
unfolding get_file lookup text_eq
rebase-Kept_example =
    rebase-Kept sample_adapter (text "r") text_le (text "d/b") (7 ∷ []) two_files one_file_left refl
      rebase_two
