-- ===== src/ChangeSet/Deleted.antt =====
-- Which files a commit deletes: packages/core/src/working-tree/change-set.ts.
use remotish.Shared.{
  ok_injective, All, All-add, All-ends, All-sort_by, Text, ok, Result, sym, ◌∙◌, and_then-ok,
  Option, none, some, List, [], ◌∷◌, ◌≡◌, refl, inl, inr, ◌⊎◌, add, contains, true, text_eq_refl,
  text_le, arith,
}
use mathlib.Core.Path.{subst}
use mathlib.Core.List.{Memᴰ}
use remotish.Sdk.{file, directory}
use remotish.Overlay
use remotish.Overlay.{Overlay, OverlayFileSnapshot}
use remotish.Repository.{
  Adapter, FileStat, try_stat, read_directory, list_files_recursively, takes_files, catch_not_found,
  stat,
}
use remotish.Repository.Walk.{Type-cases, Reaches, walk_from-Reaches}
use remotish.ChangeSet.{add_all, files_of_tombstone, collect_deleted, deleted_base_files}

module _ {κ} (P : Text → Type κ) where
  All-add_all : (ps qs : List Text) → All P ps → All P qs → All P (add_all ps qs)
  unfolding add_all
  All-add_all [] qs a b = b
  All-add_all (p ∷ ps) qs (h, a) b = All-add_all ps (add p qs) a (All-add P p qs h b)

  every_contained : (ps : List Text) → ((p : Text) → contains p ps ≡ true → P p) → All P ps
  unfolding contains
  every_contained [] h = tt
  every_contained (p ∷ ps) h =
      (h p (ground (arith, text_eq_refl p)), every_contained ps λ q c. h q (ground (arith, c)))

module _ (adapter : Adapter) (revision : Text) where
  -- A file of the base that a tombstone stands for: the base has a file at the tombstone, which is
  -- that file; or it has a directory there, from which the listings of the base lead to the file.
  abbrev pub IsFileOf : Text → Text → Type 0
  IsFileOf tombstone path =
      (s : FileStat) × (try_stat adapter revision tombstone ≡ ok (some s))
      × (((s.type ≡ file) × (path ≡ tombstone))
          ⊎ ((s.type ≡ directory)
              × Reaches takes_files (read_directory adapter revision) tombstone path))

  abbrev pub IsDeleted : List Text → Text → Type 0
  IsDeleted tombstones path =
      (tombstone : Text) × Memᴰ tombstone tombstones × IsFileOf tombstone path

  stat_found : {s : FileStat} (r : Result FileStat) → catch_not_found r ≡ ok (some s) → r ≡ ok s
  unfolding catch_not_found
  stat_found r h = ground arith

  walked_files :
      (path : Text) (s : FileStat) (files : List Text)
      → try_stat adapter revision path ≡ ok (some s)
      → s.type ≡ directory
      → list_files_recursively adapter revision path ≡ ok files
      → All (IsFileOf path) files
  unfolding list_files_recursively try_stat
  walked_files path s files h d e =
      let (t, found, e') = and_then-ok (stat adapter revision path) _ e in
      let same : t ≡ s = ok_injective (sym found ∙ stat_found (stat adapter revision path) h) in
      every_contained (IsFileOf path) files λ f c. (
        s,
        h,
        inr (
          d,
          (walk_from-Reaches takes_files (read_directory adapter revision) path f files
                (rw (same, d) at e')).0
              c,
        ),
      )

  every_of_tombstone :
      (path : Text) (tombstones : List Text)
      → Memᴰ path tombstones
      → (files : List Text) → All (IsFileOf path) files
      → All (IsDeleted tombstones) files
  every_of_tombstone path tombstones i [] a = tt
  every_of_tombstone path tombstones i (_ ∷ fs) (h, a) =
      ((path, i, h), every_of_tombstone path tombstones i fs a)

  tombstone_files :
      (path : Text) (found : Option FileStat) (result result' tombstones : List Text)
      → Memᴰ path tombstones
      → try_stat adapter revision path ≡ ok found
      → All (IsDeleted tombstones) result
      → files_of_tombstone adapter revision path found result ≡ ok result'
      → All (IsDeleted tombstones) result'
  tombstone_files path none result result' tombstones i h a e =
      subst (All (IsDeleted tombstones)) (ok_injective e) a
  tombstone_files path (some s) result result' tombstones i h a e = elim (Type-cases s.type) [
    | inl f ↦
        let e' : ok (add path result) ≡ ok result' = rw f at e in
        subst (All (IsDeleted tombstones)) (ok_injective e')
          (All-add _ path result (path, i, (s, h, inl (f, refl))) a)
    | inr d ↦
        let (files, w, e') =
          and_then-ok (list_files_recursively adapter revision path)
            (λ files. ok (add_all files result)) (rw d at e) in
        subst (All (IsDeleted tombstones)) (ok_injective e') (
          All-add_all _ files result
            (every_of_tombstone path tombstones i files (walked_files path s files h d w)) a)
  ]

  collect_deleted-All :
      (paths result result' tombstones : List Text)
      → All (λ p. Memᴰ p tombstones) paths
      → All (IsDeleted tombstones) result
      → collect_deleted adapter revision paths result ≡ ok result'
      → All (IsDeleted tombstones) result'
  unfolding collect_deleted
  collect_deleted-All [] result result' tombstones i a e =
      subst (All (IsDeleted tombstones)) (ok_injective e) a
  collect_deleted-All (path ∷ rest) result result' tombstones (i, is) a e =
      let (s, h, e1) = and_then-ok (try_stat adapter revision path) _ e in
      let (next, h', e2) = and_then-ok (files_of_tombstone adapter revision path s result) _ e1 in
      collect_deleted-All rest next result' tombstones is
        (tombstone_files path s result next tombstones i h a h') e2

  pub deleted_base_files-All :
      (o : Overlay) (deleted : List Text)
      → deleted_base_files adapter revision o ≡ ok deleted
      → All (IsDeleted o.deleted_paths) deleted
  unfolding deleted_base_files Overlay.list_deleted_paths
  deleted_base_files-All o deleted e =
      let paths = Overlay.list_deleted_paths o in
      let (result, h, e') = and_then-ok (collect_deleted adapter revision paths []) _ e in
      subst (All (IsDeleted o.deleted_paths)) (ok_injective e') (
        All-sort_by _ text_le result (
          collect_deleted-All paths [] result o.deleted_paths
            (All-sort_by _ text_le o.deleted_paths (All-ends o.deleted_paths)) tt h))
