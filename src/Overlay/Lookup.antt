-- ===== src/Overlay/Lookup.antt =====
-- packages/core/src/overlay/overlay.ts:
-- What `get_file` and `has_directory` read after each operation on an `Overlay`.
use remotish.Shared.{
  Text, Bytes, text_eq, lookup-insert, lookup-without, contains-add, contains-leave_out, ◌≡◌, Bool,
  not, ◌&&◌, ◌||◌, some, none, if◌then◌else◌, refl,
}
use remotish.Paths.{is_same_or_child}
use remotish.Overlay.{
  Overlay, set_file, set_directory, remove_file, remove_directory, remove_overlay_path, get_file,
  mark_deleted, has_directory, unmark_deleted,
}

module _ (p q : Text) (o : Overlay) where
  pub get_file-set_file :
      (c : Bytes) → get_file q (set_file p c o) ≡ (if text_eq p q then some c else get_file q o)
  unfolding get_file set_file
  get_file-set_file c = lookup-insert p q c o.files

  pub has_directory-set_file :
      (c : Bytes) → has_directory q (set_file p c o) ≡ (not (text_eq q p) && has_directory q o)
  unfolding has_directory set_file
  has_directory-set_file c = contains-leave_out (λ j. text_eq j p) q o.directories

  pub get_file-set_directory :
      get_file q (set_directory p o) ≡ (if text_eq q p then none else get_file q o)
  unfolding get_file set_directory
  get_file-set_directory = lookup-without (λ j. text_eq j p) q o.files

  pub has_directory-set_directory :
      has_directory q (set_directory p o) ≡ (text_eq p q || has_directory q o)
  unfolding has_directory set_directory
  has_directory-set_directory = contains-add p q o.directories

  pub get_file-remove_overlay_path :
      get_file q (remove_overlay_path p o) ≡ (if is_same_or_child q p then none else get_file q o)
  unfolding get_file remove_overlay_path
  get_file-remove_overlay_path = lookup-without (λ j. is_same_or_child j p) q o.files

  pub has_directory-remove_overlay_path :
      has_directory q (remove_overlay_path p o) ≡ (not (is_same_or_child q p) && has_directory q o)
  unfolding has_directory remove_overlay_path
  has_directory-remove_overlay_path = contains-leave_out (λ j. is_same_or_child j p) q o.directories

  pub get_file-mark_deleted :
      get_file q (mark_deleted p o) ≡ (if is_same_or_child q p then none else get_file q o)
  unfolding get_file mark_deleted
  get_file-mark_deleted = lookup-without (λ j. is_same_or_child j p) q o.files

  pub has_directory-mark_deleted :
      has_directory q (mark_deleted p o) ≡ (not (is_same_or_child q p) && has_directory q o)
  unfolding has_directory mark_deleted
  has_directory-mark_deleted = contains-leave_out (λ j. is_same_or_child j p) q o.directories

  pub get_file-remove_file :
      get_file q (remove_file p o) ≡ (if text_eq q p then none else get_file q o)
  unfolding get_file remove_file
  get_file-remove_file = lookup-without (λ j. text_eq j p) q o.files

  pub has_directory-remove_directory :
      has_directory q (remove_directory p o) ≡ (not (text_eq q p) && has_directory q o)
  unfolding has_directory remove_directory
  has_directory-remove_directory = contains-leave_out (λ j. text_eq j p) q o.directories

  -- Tombstones and renames are no entries.
  pub get_file-unmark_deleted : (b : Bool) → get_file q (unmark_deleted p b o) ≡ get_file q o
  unfolding get_file unmark_deleted
  get_file-unmark_deleted b = refl

  pub has_directory-unmark_deleted :
      (b : Bool) → has_directory q (unmark_deleted p b o) ≡ has_directory q o
  unfolding has_directory unmark_deleted
  has_directory-unmark_deleted b = refl
