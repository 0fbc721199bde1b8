-- ===== src/WorkingTree/Reverts.antt =====
-- packages/core/src/working-tree/mutation-service.ts: what `revert` and `revertAll` do.
use remotish.Shared.{
  Text, Bool, ok, none, [], sort_by, true, false, is_nil, ◌≡◌, refl, arith, lookup, contains,
  any_of,
}
use remotish.Paths.{normalize_repo_path}
use remotish.Paths.Tree.{same_or_child_refl}
use remotish.Overlay
use remotish.Overlay.{Overlay, get_file, has_directory, is_deleted}
use remotish.Overlay.Deletion.{is_deleted-unmark_self}
use remotish.Overlay.Lookup.{
  get_file-remove_overlay_path, has_directory-remove_overlay_path, get_file-unmark_deleted,
  has_directory-unmark_deleted,
}
use remotish.Repository
use remotish.Repository.{Adapter}
use remotish.WorkingTree.{WorkingTree, stat_at, read_file_at, has_changes}
use remotish.ChangeSet.{
  get_working_tree_changes, compare_files, set_renames, set_deleted, deleted_base_files,
  collect_deleted,
}
use remotish.WorkingTree.Mutations.{revert_overlay, revert, revert_all}

-- What the tree shows at `p` is what the base has there.
pub record ShowsBase (adapter : Adapter) (p : Text) (t : WorkingTree) : Type 0 where
  pub reads : read_file_at adapter p t ≡ Repository.read_file adapter t.base_revision p
  pub stats : is_nil p ≡ false → stat_at adapter p t ≡ Repository.stat adapter t.base_revision p

module _ (adapter : Adapter) where
  bare-ShowsBase :
      (p : Text) (t : WorkingTree)
      → is_deleted p t.overlay ≡ false
      → get_file p t.overlay ≡ none
      → has_directory p t.overlay ≡ false
      → ShowsBase adapter p t
  unfolding read_file_at stat_at
  bare-ShowsBase p t h f d = record {
    reads = ground (arith, h, f);
    stats = λ n. ground (arith, n, h, f, d);
  }

  cleared-ShowsBase :
      (p : Text) (t : WorkingTree) (o : Overlay)
      → ShowsBase adapter p
          (record t { overlay = Overlay.unmark_deleted p true (Overlay.remove_overlay_path p o) })
  cleared-ShowsBase p t o =
      let cleared = Overlay.remove_overlay_path p o in
      let self = same_or_child_refl p in
      bare-ShowsBase p (record t { overlay = Overlay.unmark_deleted p true cleared })
        (is_deleted-unmark_self p cleared)
        (ground (
          arith,
          self,
          get_file-unmark_deleted p p cleared true,
          get_file-remove_overlay_path p p o,
        ))
        (ground (
          arith,
          self,
          has_directory-unmark_deleted p p cleared true,
          has_directory-remove_overlay_path p p o,
        ))

  -- Reverting a path that normalizes and that no rename made returns, keeps the base revision, and shows at the path
  -- what the base has there, deleted and unreadable paths included.
  pub revert-ShowsBase :
      (path p : Text) (t : WorkingTree)
      → normalize_repo_path path ≡ ok p
      → (Overlay.remove_rename_to p t.overlay).0 ≡ none
      → ((revert path t).0 ≡ ok tt)
        × ((revert path t).1.base_revision ≡ t.base_revision)
        × ShowsBase adapter p (revert path t).1
  unfolding revert
  revert-ShowsBase path p t h n =
      let o = (Overlay.remove_rename_to p t.overlay).1 in
      rw h (refl, refl, unfold revert_overlay in rw (revert_overlay, n) (cleared-ShowsBase p t o))

  no_changes :
      (revision : Text) (locale_le : Text → Text → Bool) (o : Overlay)
      → get_working_tree_changes adapter revision locale_le (Overlay.clear o) ≡ ok []
  unfolding get_working_tree_changes compare_files set_renames set_deleted deleted_base_files
      collect_deleted Overlay.list_files Overlay.list_deleted_paths sort_by
  no_changes revision locale_le o = refl

  -- `revertAll` returns, keeps the base revision, and leaves a tree that has no changes and lists
  -- none, no renames either, and that shows the base at every path.
  pub revert_all-ShowsBase :
      (locale_le : Text → Text → Bool) (p : Text) (t : WorkingTree)
      → ((revert_all t).0 ≡ ok tt)
        × (has_changes (revert_all t).1 ≡ false)
        × ((revert_all t).1.base_revision ≡ t.base_revision)
        × (get_working_tree_changes adapter t.base_revision locale_le (revert_all t).1.overlay
            ≡ ok [])
        × ShowsBase adapter p (revert_all t).1
  unfolding revert_all
  revert_all-ShowsBase locale_le p t = (
    refl,
    unfold has_changes Overlay.is_empty in refl,
    refl,
    no_changes t.base_revision locale_le t.overlay,
    bare-ShowsBase p (record t { overlay = Overlay.clear t.overlay })
        (unfold is_deleted any_of in refl) (unfold get_file lookup in refl)
        (unfold has_directory contains in refl),
  )
