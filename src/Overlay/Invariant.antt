-- ===== src/Overlay/Invariant.antt =====
-- packages/core/src/overlay/overlay.ts:
-- The invariant of an overlay that only its own operations have changed.
use remotish.Shared.{
  List, lookup, Text, Bytes, text_eq, text_eq→eq, text_eq_iff, ok, ◌≡◌, Bool, false, some, arith,
  Bool-cases, inl, inr,
}
use remotish.Overlay
use remotish.Overlay.{RenameSnapshot, OverlaySnapshot, Overlay, is_deleted, get_file, has_directory}
use remotish.Overlay.Deletion.{
  is_deleted-mark_deleted, is_deleted-unmark, is_deleted-set_file, is_deleted-set_file_self,
  is_deleted-set_directory, is_deleted-remove_overlay_path,
}
use remotish.Overlay.Restored.{IsConsistent, restore-IsClear}
use remotish.Overlay.Lookup.{
  get_file-set_file, has_directory-set_file, get_file-set_directory, has_directory-set_directory,
  get_file-remove_overlay_path, has_directory-remove_overlay_path, get_file-mark_deleted,
  has_directory-mark_deleted, get_file-remove_file, has_directory-remove_directory,
}

-- No written file is hidden by a tombstone, and no path is both a file and a directory marker.
pub record IsWellFormed (o : Overlay) : Type 0 where
  pub visible : (p : Text) (c : Bytes) → get_file p o ≡ some c → is_deleted p o ≡ false
  pub disjoint : (p : Text) (c : Bytes) → get_file p o ≡ some c → has_directory p o ≡ false

-- The overlays that the operations make from a new one, in any order. `restore` takes a snapshot
-- from outside and does not look whether it is consistent; only those of consistent ones are here.
pub data Made : Overlay → Type 0 where
  made_new : Made Overlay.new_overlay
  clear : {o : Overlay} → Made o → Made (Overlay.clear o)
  restore : {o : Overlay} (s : OverlaySnapshot) → Overlay.restore s ≡ ok o → IsConsistent s → Made o
  set_file : {o : Overlay} (p : Text) (c : Bytes) → Made o → Made (Overlay.set_file p c o)
  set_directory : {o : Overlay} (p : Text) → Made o → Made (Overlay.set_directory p o)
  remove_file : {o : Overlay} (p : Text) → Made o → Made (Overlay.remove_file p o)
  remove_directory : {o : Overlay} (p : Text) → Made o → Made (Overlay.remove_directory p o)
  remove_overlay_path : {o : Overlay} (p : Text) → Made o → Made (Overlay.remove_overlay_path p o)
  mark_deleted : {o : Overlay} (p : Text) → Made o → Made (Overlay.mark_deleted p o)
  unmark_deleted :
      {o : Overlay} (p : Text) (ancestors : Bool)
      → Made o
      → Made (Overlay.unmark_deleted p ancestors o)
  add_rename : {o : Overlay} (from to : Text) → Made o → Made (Overlay.add_rename from to o)
  remove_rename : {o : Overlay} (from to : Text) → Made o → Made (Overlay.remove_rename from to o)
  remove_rename_to : {o : Overlay} (p : Text) → Made o → Made (Overlay.remove_rename_to p o).1

module _ {o : Overlay} (w : IsWellFormed o) where
  pub set_file-IsWellFormed : (p : Text) (c : Bytes) → IsWellFormed (Overlay.set_file p c o)
  set_file-IsWellFormed p c = record {
    visible = λ q d h. elim (Bool-cases (text_eq p q)) [
      | inl e ↦ rw (← text_eq→eq p q e) (is_deleted-set_file_self p c o)
      | inr e ↦
          is_deleted-set_file p q c o (w.visible q d (ground (arith, get_file-set_file p q o c)))
    ];
    disjoint = λ q d h. ground (
      arith,
      get_file-set_file p q o c,
      has_directory-set_file p q o c,
      text_eq_iff p q,
      text_eq_iff q p,
      w.disjoint q d,
    );
  }

  pub set_directory-IsWellFormed : (p : Text) → IsWellFormed (Overlay.set_directory p o)
  set_directory-IsWellFormed p = record {
    visible = λ q d h.
        is_deleted-set_directory p q o
          (w.visible q d (ground (arith, get_file-set_directory p q o)));
    disjoint = λ q d h. ground (
      arith,
      get_file-set_directory p q o,
      has_directory-set_directory p q o,
      text_eq_iff p q,
      text_eq_iff q p,
      w.disjoint q d,
    );
  }

  pub remove_overlay_path-IsWellFormed : (p : Text) → IsWellFormed (Overlay.remove_overlay_path p o)
  remove_overlay_path-IsWellFormed p = record {
    visible = λ q d h.
        rw is_deleted-remove_overlay_path
          (w.visible q d (ground (arith, get_file-remove_overlay_path p q o)));
    disjoint = λ q d h. ground (
      arith,
      get_file-remove_overlay_path p q o,
      has_directory-remove_overlay_path p q o,
      w.disjoint q d,
    );
  }

  pub mark_deleted-IsWellFormed : (p : Text) → IsWellFormed (Overlay.mark_deleted p o)
  mark_deleted-IsWellFormed p = record {
    visible = λ q d h.
        ground (arith, is_deleted-mark_deleted p q o, get_file-mark_deleted p q o, w.visible q d);
    disjoint = λ q d h.
        ground
          (arith, get_file-mark_deleted p q o, has_directory-mark_deleted p q o, w.disjoint q d);
  }

  pub remove_file-IsWellFormed : (p : Text) → IsWellFormed (Overlay.remove_file p o)
  remove_file-IsWellFormed p = record {
    visible = λ q d h.
        unfold is_deleted Overlay.remove_file in
        (unfold is_deleted in w.visible q d (ground (arith, get_file-remove_file p q o)));
    disjoint = λ q d h.
        unfold has_directory Overlay.remove_file in
        (unfold has_directory in w.disjoint q d (ground (arith, get_file-remove_file p q o)));
  }

  pub remove_directory-IsWellFormed : (p : Text) → IsWellFormed (Overlay.remove_directory p o)
  remove_directory-IsWellFormed p = record {
    visible = λ q d. unfold is_deleted get_file Overlay.remove_directory in w.visible q d;
    disjoint = λ q d h. ground (
      arith,
      has_directory-remove_directory p q o,
      w.disjoint q d (unfold get_file Overlay.remove_directory in h),
    );
  }

  pub unmark_deleted-IsWellFormed :
      (p : Text) (ancestors : Bool) → IsWellFormed (Overlay.unmark_deleted p ancestors o)
  unmark_deleted-IsWellFormed p b = record {
    visible = λ q d h.
        is_deleted-unmark p q b o (w.visible q d (unfold get_file Overlay.unmark_deleted in h));
    disjoint = λ q d. unfold has_directory get_file Overlay.unmark_deleted in w.disjoint q d;
  }

  renames-IsWellFormed : (rs : List RenameSnapshot) → IsWellFormed (record o { renames = rs })
  unfolding get_file has_directory is_deleted
  renames-IsWellFormed rs = record { visible = w.visible; disjoint = w.disjoint }

clear-IsWellFormed : (o : Overlay) → IsWellFormed (Overlay.clear o)
unfolding get_file lookup
clear-IsWellFormed o = record { visible = λ p c h. cc; disjoint = λ p c h. cc }

restore-IsWellFormed :
    (o : Overlay) (s : OverlaySnapshot) → Overlay.restore s ≡ ok o → IsConsistent s → IsWellFormed o
restore-IsWellFormed o s e h = record {
  visible = λ p c f. (restore-IsClear s o p c e h f).0;
  disjoint = λ p c f. (restore-IsClear s o p c e h f).1;
}

-- Whatever the operations and their order, from a new overlay on, the overlay is well formed: no
-- written file lies under a tombstone, and no path is both a written file and a directory marker.
-- Among the operations is the restoration of a snapshot in which no file lies at or below a deleted
-- path and none is a directory too; other snapshots, which `restore` takes as well, are left out.
pub Made-IsWellFormed : {o : Overlay} → Made o → IsWellFormed o
unfolding Overlay.add_rename Overlay.remove_rename Overlay.remove_rename_to
Made-IsWellFormed made_new = clear-IsWellFormed Overlay.new_overlay
Made-IsWellFormed (clear {o} m) = clear-IsWellFormed o
Made-IsWellFormed (restore {o} s e h) = restore-IsWellFormed o s e h
Made-IsWellFormed (set_file p c m) = set_file-IsWellFormed (Made-IsWellFormed m) p c
Made-IsWellFormed (set_directory p m) = set_directory-IsWellFormed (Made-IsWellFormed m) p
Made-IsWellFormed (remove_file p m) = remove_file-IsWellFormed (Made-IsWellFormed m) p
Made-IsWellFormed (remove_directory p m) = remove_directory-IsWellFormed (Made-IsWellFormed m) p
Made-IsWellFormed (remove_overlay_path p m) =
    remove_overlay_path-IsWellFormed (Made-IsWellFormed m) p
Made-IsWellFormed (mark_deleted p m) = mark_deleted-IsWellFormed (Made-IsWellFormed m) p
Made-IsWellFormed (unmark_deleted p b m) = unmark_deleted-IsWellFormed (Made-IsWellFormed m) p b
Made-IsWellFormed (add_rename from to m) = renames-IsWellFormed (Made-IsWellFormed m) _
Made-IsWellFormed (remove_rename from to m) = renames-IsWellFormed (Made-IsWellFormed m) _
Made-IsWellFormed (remove_rename_to p m) = renames-IsWellFormed (Made-IsWellFormed m) _
