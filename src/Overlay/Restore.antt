-- ===== src/Overlay/Restore.antt =====
-- packages/core/src/overlay/overlay.ts: an overlay that is restored from its snapshot.
use remotish.Shared.{
  Text, Bytes, text_eq, text_eq_iff, text_eq→eq, text_le, Dict, lookup, insert, lookup-insert,
  contains, contains-add, contains-sort_by, add, insert_sorted, sort_by, All, All-sort_by, ok,
  Option, none, some, is_some, List, [], ◌∷◌, ◌++◌, map, append-nil, append_assoc, Bool, true,
  false, ◌||◌, if◌then◌else◌, ◌≡◌, refl, sym, ap, ◌∙◌, arith, Bool-cases, Option-cases, inl, inr,
}
use remotish.Paths.{normalize_repo_path}
use remotish.Overlay.{
  Overlay, OverlayFileSnapshot, RenameSnapshot, to_file_snapshot, list_files, list_directories,
  list_deleted_paths, snapshot, restore_files, restore_paths, restore_renames, restore,
}

abbrev IsCanonical : Text → Type 0
IsCanonical path = normalize_repo_path path ≡ ok path

-- The content of the first file with a path.
held : Text → List OverlayFileSnapshot → Option Bytes
held p [] = none
held p (f ∷ fs) = if text_eq f.path p then some f.content else held p fs

abbrev AreDistinct : List OverlayFileSnapshot → Type 0
AreDistinct [] = Unit
AreDistinct (f ∷ fs) = (is_some (held f.path fs) ≡ false) × AreDistinct fs

module _ (before : OverlayFileSnapshot → OverlayFileSnapshot → Bool) where
  held-insert_sorted :
      (p : Text) (f : OverlayFileSnapshot) (fs : List OverlayFileSnapshot)
      → is_some (held f.path fs) ≡ false
      → held p (insert_sorted before f fs)
        ≡ (if text_eq f.path p then some f.content else held p fs)
  unfolding held insert_sorted
  held-insert_sorted p f [] h = refl
  held-insert_sorted p f (g ∷ gs) h = ground (
    arith,
    h,
    text_eq_iff g.path f.path,
    text_eq_iff g.path p,
    text_eq_iff f.path p,
    held-insert_sorted p f gs,
  )

  insert_sorted-AreDistinct :
      (f : OverlayFileSnapshot) (fs : List OverlayFileSnapshot)
      → is_some (held f.path fs) ≡ false
      → AreDistinct fs
      → AreDistinct (insert_sorted before f fs)
  unfolding held insert_sorted
  insert_sorted-AreDistinct f [] h d = (refl, tt)
  insert_sorted-AreDistinct f (g ∷ gs) h (k, d) = elim (Bool-cases (before f g)) [
    | inl first ↦ rw first (h, (k, d))
    | inr later ↦
        let apart : is_some (held f.path gs) ≡ false = ground (arith, h) in
        let new : is_some (held g.path (insert_sorted before f gs)) ≡ false =
          rw (held-insert_sorted g.path f gs apart)
            (ground (arith, h, k, text_eq_iff g.path f.path, text_eq_iff f.path g.path)) in
        rw later (new, insert_sorted-AreDistinct f gs apart d)
  ]

  sort_by-AreDistinct :
      (fs : List OverlayFileSnapshot)
      → AreDistinct fs
      → ((p : Text) → held p (sort_by before fs) ≡ held p fs) × AreDistinct (sort_by before fs)
  unfolding sort_by held
  sort_by-AreDistinct [] d = (λ p. refl, tt)
  sort_by-AreDistinct (f ∷ fs) (k, d) =
      let (same, sorted) = sort_by-AreDistinct fs d in
      let new : is_some (held f.path (sort_by before fs)) ≡ false = rw (same f.path) k in
      (
        λ p.
            held-insert_sorted p f (sort_by before fs) new
            ∙ ap (λ o. if text_eq f.path p then some f.content else o) (same p),
        insert_sorted-AreDistinct f (sort_by before fs) new sorted,
      )

abbrev over : Option Bytes → Option Bytes → Option Bytes
over none d = d
over (some c) d = some c

over_first :
    (same : Bool) (content : Bytes) (later older : Option Bytes)
    → (same ≡ true → later ≡ none)
    → over later (if same then some content else older)
      ≡ over (if same then some content else later) older
over_first true content later older h = rw (h refl) refl
over_first false content later older h = refl

not_held :
    (p q : Text) (fs : List OverlayFileSnapshot)
    → q ≡ p
    → is_some (held q fs) ≡ false
    → held p fs ≡ none
not_held p q fs e k = elim (Option-cases (held p fs)) [
  | inl n ↦ n
  | inr (c, h) ↦ absurd (let x = rw (e, h) at k in cc)
]

restore_files-held :
    (fs : List OverlayFileSnapshot) (m : Dict Bytes)
    → All (λ f. IsCanonical f.path) fs
    → AreDistinct fs
    → (m' : Dict Bytes) × (restore_files fs m ≡ ok m')
      × ((p : Text) → lookup p m' ≡ over (held p fs) (lookup p m))
unfolding restore_files held
restore_files-held [] m a d = (m, refl, λ p. refl)
restore_files-held (f ∷ fs) m (c, a) (k, d) =
    let (m', e, same) = restore_files-held fs (insert f.path f.content m) a d in
    (
      m',
      rw c e,
      λ p.
          same p
          ∙ ap (over (held p fs)) (lookup-insert f.path p f.content m)
          ∙ over_first (text_eq f.path p) f.content (held p fs) (lookup p m)
              (λ t. not_held p f.path fs (text_eq→eq f.path p t) k),
    )

restore_paths-contains :
    (ps qs : List Text)
    → All IsCanonical ps
    → (rs : List Text) × (restore_paths ps qs ≡ ok rs)
      × ((p : Text) → contains p rs ≡ (contains p ps || contains p qs))
unfolding restore_paths contains
restore_paths-contains [] qs a = (qs, refl, λ p. refl)
restore_paths-contains (q ∷ ps) qs (c, a) =
    let (rs, e, same) = restore_paths-contains ps (add q qs) a in
    (rs, rw c e, λ p. same p ∙ ground (arith, contains-add q p qs))

restore_renames-append :
    (rs acc : List RenameSnapshot)
    → All (λ r. IsCanonical r.from × IsCanonical r.to) rs
    → restore_renames rs acc ≡ ok (acc ++ rs)
unfolding restore_renames
restore_renames-append [] acc a = ap ok (sym (append-nil acc))
restore_renames-append (r ∷ rs) acc ((f, t), a) =
    rw (f, t) (restore_renames-append rs (acc ++ r ∷ []) a ∙ ap ok (append_assoc acc (r ∷ []) rs))

over_nothing : (o : Option Bytes) → over o none ≡ o
over_nothing none = refl
over_nothing (some c) = refl

or_false : (b : Bool) → (b || false) ≡ b
or_false true = refl
or_false false = refl

held-map : (p : Text) (files : Dict Bytes) → held p (map to_file_snapshot files) ≡ lookup p files
unfolding held lookup
held-map p [] = refl
held-map p ((q, content) ∷ files) =
    ap (λ o. if text_eq q p then some content else o) (held-map p files)

-- Entries of a `Map` with canonical keys, each of them once.
abbrev pub AreFiles : Dict Bytes → Type 0
AreFiles [] = Unit
AreFiles ((path, content) ∷ files) =
    (normalize_repo_path path ≡ ok path) × (is_some (lookup path files) ≡ false) × AreFiles files

-- What the overlay of a repository is: its keys and paths are canonical.
abbrev pub HasRepositoryPaths : Overlay → Type 0
HasRepositoryPaths o =
    AreFiles o.files
    × All (λ p. normalize_repo_path p ≡ ok p) o.directories
    × All (λ p. normalize_repo_path p ≡ ok p) o.deleted_paths
    × All (λ r. (normalize_repo_path r.from ≡ ok r.from) × (normalize_repo_path r.to ≡ ok r.to))
        o.renames

AreFiles-map :
    (files : Dict Bytes)
    → AreFiles files
    → All (λ f. IsCanonical f.path) (map to_file_snapshot files)
      × AreDistinct (map to_file_snapshot files)
AreFiles-map [] h = (tt, tt)
AreFiles-map ((path, content) ∷ files) (c, d, h) =
    let (canonical, distinct) = AreFiles-map files h in
    ((c, canonical), (rw (held-map path files) d, distinct))

abbrev pub LooksLike : Overlay → Overlay → Type 0
LooksLike o' o =
    ((p : Text) → lookup p o'.files ≡ lookup p o.files)
    × ((p : Text) → contains p o'.directories ≡ contains p o.directories)
    × ((p : Text) → contains p o'.deleted_paths ≡ contains p o.deleted_paths)
    × (o'.renames ≡ o.renames)

-- An overlay whose files are at distinct canonical paths and whose markers, tombstones and renames
-- are of canonical paths is restored from its snapshot, up to the order of files, markers and
-- tombstones: each path holds the same content, is marked and deleted just if it was, and the
-- renames are the same.
pub restore-snapshot :
    (locale_le : Text → Text → Bool) (o : Overlay)
    → HasRepositoryPaths o
    → (o' : Overlay) × (restore (snapshot locale_le o) ≡ ok o') × LooksLike o' o
unfolding restore snapshot list_files list_directories list_deleted_paths lookup contains
restore-snapshot locale_le o (files, directories, deleted, renames) =
    let before : OverlayFileSnapshot → OverlayFileSnapshot → Bool =
      λ l r. locale_le l.path r.path in
    let (canonical, distinct) = AreFiles-map o.files files in
    let (same, sorted) = sort_by-AreDistinct before (map to_file_snapshot o.files) distinct in
    let (fs, f, held_fs) =
      restore_files-held (sort_by before (map to_file_snapshot o.files)) []
        (All-sort_by (λ f. IsCanonical f.path) before (map to_file_snapshot o.files) canonical)
        sorted in
    let (ds, d, in_ds) =
      restore_paths-contains (sort_by text_le o.directories) []
        (All-sort_by IsCanonical text_le o.directories directories) in
    let (ts, t, in_ts) =
      restore_paths-contains (sort_by text_le o.deleted_paths) []
        (All-sort_by IsCanonical text_le o.deleted_paths deleted) in
    (
      record { files = fs; directories = ds; deleted_paths = ts; renames = o.renames },
      rw (f, d, t, restore_renames-append o.renames [] renames) refl,
      (
        λ p. held_fs p ∙ over_nothing _ ∙ same p ∙ held-map p o.files,
        λ p. in_ds p ∙ or_false _ ∙ contains-sort_by text_le p o.directories,
        λ p. in_ts p ∙ or_false _ ∙ contains-sort_by text_le p o.deleted_paths,
        refl,
      ),
    )
