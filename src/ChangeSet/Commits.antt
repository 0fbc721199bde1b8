-- ===== src/ChangeSet/Commits.antt =====
-- What the changes of a commit are: packages/core/src/working-tree/change-set.ts.
use remotish.Shared.{
  All, All-ends, All-keep, All-sort_by, Text, Bytes, text_eq, Dict, lookup, insert, ok, and_then,
  and_then-ok, Option, none, some, List, [], ◌∷◌, Bool, false, is_some, is_nil, sort_by, map,
  Bool-cases, ◌≡◌, inl, inr,
}
use mathlib.Core.Path.{subst}
use mathlib.Core.List.{Memᴰ}
use remotish.Sdk.{Change, add_file, modify_file, delete_file, path_of}
use remotish.Overlay
use remotish.Overlay.{Overlay, OverlayFileSnapshot}
use remotish.Repository.{Adapter}
use remotish.WorkingTree.Mutations.{equal_bytes, try_read_base}
use remotish.ChangeSet.Deleted.{IsDeleted, deleted_base_files-All}
use remotish.ChangeSet.{
  commit_file, commit_files, commit_deletes, deleted_base_files, build_all_commit_changes,
  build_commit_changes, normalize_all, get_working_tree_changes,
}

module _ {ℓ κ} {V : Type ℓ} (P : V → Type κ) where
  -- Every value of a dictionary.
  abbrev AllValues : Dict V → Type κ
  AllValues = All (λ e. P e.1)

  all_insert : (k : Text) (v : V) (m : Dict V) → P v → AllValues m → AllValues (insert k v m)
  unfolding insert
  all_insert k v [] p a = (p, tt)
  all_insert k v ((j, w) ∷ m) p (q, a) = elim (Bool-cases (text_eq j k)) [
    | inl h ↦ rw h (p, a)
    | inr n ↦ rw n (q, all_insert k v m p a)
  ]

  all_values : (m : Dict V) → AllValues m → All P (map (λ e. e.1) m)
  all_values [] a = tt
  all_values ((k, v) ∷ m) (p, a) = (p, all_values m a)

pub the_same {ℓ} : {A : Type ℓ} {x y : A} → ok x ≡ ok y → x ≡ y
the_same e = cc

module _ (adapter : Adapter) (revision : Text) where
  -- A change of a commit, read from the overlay's files and tombstones: an added file is no file of
  -- the base; a modified one is, and its content differs; a deleted one is a file of the base that
  -- a tombstone stands for.
  abbrev pub Describes : List OverlayFileSnapshot → List Text → Change → Type 0
  Describes files tombstones (add_file path content) =
      Memᴰ (record { path = path; content = content }) files
      × (try_read_base adapter revision path ≡ ok none)
  Describes files tombstones (modify_file path content) =
      Memᴰ (record { path = path; content = content }) files
      × (base : Bytes) × (try_read_base adapter revision path ≡ ok (some base))
      × (equal_bytes base content ≡ false)
  Describes files tombstones (delete_file path) = IsDeleted adapter revision tombstones path

  module _ (files : List OverlayFileSnapshot) (tombstones : List Text) where
    abbrev Described : Dict Change → Type 0
    Described = AllValues (Describes files tombstones)

    commit_file-Described :
        (f : OverlayFileSnapshot) (base : Option Bytes) (m : Dict Change)
        → Memᴰ f files
        → try_read_base adapter revision f.path ≡ ok base
        → Described m
        → Described (commit_file f base m)
    unfolding commit_file
    commit_file-Described f none m i h a =
        all_insert (Describes files tombstones) f.path _ m (i, h) a
    commit_file-Described f (some b) m i h a = elim (Bool-cases (equal_bytes b f.content)) [
      | inl y ↦ rw y a
      | inr n ↦ rw n (all_insert (Describes files tombstones) f.path _ m (i, b, h, n) a)
    ]

    commit_files-Described :
        (fs : List OverlayFileSnapshot) (m n : Dict Change)
        → All (λ f. Memᴰ f files) fs
        → Described m
        → commit_files adapter revision fs m ≡ ok n
        → Described n
    unfolding commit_files
    commit_files-Described [] m n i a e = subst Described (the_same e) a
    commit_files-Described (f ∷ fs) m n (i, is) a e =
        let (base, h, e') =
          and_then-ok (try_read_base adapter revision f.path)
            (λ base. commit_files adapter revision fs (commit_file f base m)) e in
        commit_files-Described fs (commit_file f base m) n is (commit_file-Described f base m i h a)
          e'

    commit_deletes-Described :
        (paths : List Text) (m : Dict Change)
        → All (IsDeleted adapter revision tombstones) paths
        → Described m
        → Described (commit_deletes paths m)
    unfolding commit_deletes
    commit_deletes-Described [] m i a = a
    commit_deletes-Described (p ∷ ps) m (i, is) a = elim (Bool-cases (is_some (lookup p m))) [
      | inl y ↦ rw y (commit_deletes-Described ps m is a)
      | inr n ↦ rw n (
          commit_deletes-Described ps _ is
            (all_insert (Describes files tombstones) p (delete_file p) m i a))
    ]

module _ (adapter : Adapter) (revision : Text) (locale_le : Text → Text → Bool) (o : Overlay) where
  abbrev pub DescribesOverlay : List Change → Type 0
  DescribesOverlay =
      All (Describes adapter revision (Overlay.list_files locale_le o) o.deleted_paths)

  build_all_lem :
      (changes : List Change)
      → build_all_commit_changes adapter revision locale_le o ≡ ok changes
      → DescribesOverlay changes
  unfolding build_all_commit_changes
  build_all_lem changes e =
      let files = Overlay.list_files locale_le o in
      let tombstones = o.deleted_paths in
      let before : Change → Change → Bool =
        λ left right. locale_le (path_of left) (path_of right) in
      let (m, h, e') =
        and_then-ok (commit_files adapter revision files [])
          (λ m.
            and_then (deleted_base_files adapter revision o)
              λ paths. ok (sort_by before (map (λ e. e.1) (commit_deletes paths m))))
          e in
      let (deleted, h', e'') =
        and_then-ok (deleted_base_files adapter revision o)
          (λ paths. ok (sort_by before (map (λ e. e.1) (commit_deletes paths m)))) e' in
      let described =
        commit_files-Described adapter revision files tombstones files [] m (All-ends files) tt h in
      subst (All (Describes adapter revision files tombstones)) (the_same e'') (
        All-sort_by _ before _ (
          all_values _ _ (
            commit_deletes-Described adapter revision files tombstones deleted m
              (deleted_base_files-All adapter revision o deleted h') described)))

  -- What is committed, all of it or a selection, describes the overlay against the base: an added
  -- file is a file of the overlay that the base has no file for, a modified one is a file of the
  -- overlay whose content differs from the base's, and a deleted one is a file of the base that a
  -- tombstone of the overlay stands for: the file at the tombstone, or one that the base's listings
  -- lead to from the directory there.
  pub build_commit_changes-Describes :
      (selected : Option (List Text)) (changes : List Change)
      → build_commit_changes adapter revision locale_le o selected ≡ ok changes
      → DescribesOverlay changes
  unfolding build_commit_changes
  build_commit_changes-Describes none changes e = build_all_lem changes e
  build_commit_changes-Describes (some paths) changes e =
      let (all_changes, h, e') =
        and_then-ok (build_all_commit_changes adapter revision locale_le o) _ e in
      let (selected, h', e'') =
        and_then-ok (normalize_all adapter revision locale_le paths []) _ e' in
      let described = build_all_lem all_changes h in
      elim (Bool-cases (is_nil selected)) [
        | inl y ↦ subst (All _) (the_same (rw y at e'')) tt
        | inr n ↦
            let (ws, _, e3) =
              and_then-ok (get_working_tree_changes adapter revision locale_le o) _ (rw n at e'') in
            subst (All _) (the_same e3) (All-keep _ _ all_changes described)
      ]
