-- ===== src/Overlay/Restored.antt =====
-- packages/core/src/overlay/overlay.ts: what `restore` makes of a snapshot that is consistent.
use remotish.Shared.{
  Text, Bytes, text_eq, Dict, lookup, insert, contains, add, any_of, All, ok, ok_injective,
  text_eq→eq, All-add, and_then-ok, some, List, [], ◌∷◌, Bool, false, ◌≡◌, refl, arith, Bool-cases,
  inl, inr,
}
use mathlib.Core.Path.{subst}
use remotish.Paths.{normalize_repo_path, is_same_or_child}
use remotish.Overlay.{
  OverlayFileSnapshot, OverlaySnapshot, Overlay, restore_files, restore_paths, restore_renames,
  restore, is_deleted, get_file, has_directory,
}

-- The paths of stored files, and of stored directories and tombstones, once they are normalized.
abbrev pub EachPath : (Text → Type 0) → List Text → Type 0
EachPath P = All (λ d. (path : Text) → normalize_repo_path d ≡ ok path → P path)

abbrev pub EachFile : (Text → Type 0) → List OverlayFileSnapshot → Type 0
EachFile P = All (λ f. (path : Text) → normalize_repo_path f.path ≡ ok path → P path)

-- A snapshot in which no file lies at or below a tombstone, and none is a directory marker.
abbrev pub IsConsistent : OverlaySnapshot → Type 0
IsConsistent s =
    EachFile
      (λ p.
        EachPath (λ q. is_same_or_child p q ≡ false) s.deleted_paths
        × EachPath (λ q. text_eq q p ≡ false) s.directories)
      s.files

every_insert_key :
    (P : Text → Type 0) (k : Text) (c : Bytes) (files : Dict Bytes)
    → P k
    → All (λ e. P e.0) files
    → All (λ e. P e.0) (insert k c files)
unfolding insert
every_insert_key P k c [] h a = (h, tt)
every_insert_key P k c ((j, w) ∷ files) h (g, a) = elim (Bool-cases (text_eq j k)) [
  | inl y ↦ rw y (g, a)
  | inr n ↦ rw n (g, every_insert_key P k c files h a)
]

restored_paths :
    (P : Text → Type 0) (ps paths paths' : List Text)
    → EachPath P ps
    → All P paths
    → restore_paths ps paths ≡ ok paths'
    → All P paths'
unfolding restore_paths
restored_paths P [] paths paths' h a e = subst (All P) (ok_injective e) a
restored_paths P (p ∷ ps) paths paths' (h, hs) a e =
    let (path, n, e') = and_then-ok (normalize_repo_path p) _ e in
    restored_paths P ps (add path paths) paths' hs (All-add P path paths (h path n) a) e'

restored_files :
    (P : Text → Type 0) (fs : List OverlayFileSnapshot) (files files' : Dict Bytes)
    → EachFile P fs
    → All (λ e. P e.0) files
    → restore_files fs files ≡ ok files'
    → All (λ e. P e.0) files'
unfolding restore_files
restored_files P [] files files' h a e = subst (All (λ e. P e.0)) (ok_injective e) a
restored_files P (f ∷ fs) files files' (h, hs) a e =
    let (path, n, e') = and_then-ok (normalize_repo_path f.path) _ e in
    restored_files P fs (insert path f.content files) files' hs
      (every_insert_key P path f.content files (h path n) a) e'

of_lookup :
    (P : Text → Type 0) (p : Text) (c : Bytes) (files : Dict Bytes)
    → All (λ e. P e.0) files
    → lookup p files ≡ some c
    → P p
unfolding lookup
of_lookup P p c [] a h = absurd (ground (arith, h))
of_lookup P p c ((q, content) ∷ files) (k, a) h = elim (Bool-cases (text_eq q p)) [
  | inl y ↦ subst P (text_eq→eq q p y) k
  | inr n ↦ of_lookup P p c files a (rw n at h)
]

none_of :
    (test : Text → Bool) (ps : List Text) → All (λ q. test q ≡ false) ps → any_of test ps ≡ false
unfolding any_of
none_of test [] a = refl
none_of test (p ∷ ps) (h, a) = rw h (none_of test ps a)

not_contained :
    (p : Text) (ps : List Text) → All (λ q. text_eq q p ≡ false) ps → contains p ps ≡ false
unfolding contains
not_contained p [] a = refl
not_contained p (q ∷ ps) (h, a) = rw h (not_contained p ps a)

-- Restored from a consistent snapshot, a file lies under no tombstone and is no directory marker.
pub restore-IsClear :
    (s : OverlaySnapshot) (o : Overlay) (p : Text) (c : Bytes)
    → restore s ≡ ok o
    → IsConsistent s
    → get_file p o ≡ some c
    → (is_deleted p o ≡ false) × (has_directory p o ≡ false)
unfolding restore is_deleted has_directory get_file
restore-IsClear s o p c e consistent h =
    let (files, ef, e1) = and_then-ok (restore_files s.files []) _ e in
    let (directories, ed, e2) = and_then-ok (restore_paths s.directories []) _ e1 in
    let (deleted, et, e3) = and_then-ok (restore_paths s.deleted_paths []) _ e2 in
    let (renames, er, e4) = and_then-ok (restore_renames s.renames []) _ e3 in
    let same = ok_injective e4 in
    let (under, marked) =
      of_lookup _ p c files (restored_files _ s.files [] files consistent tt ef)
        (rw (← same) at h) in
    rw (← same) (
      none_of (λ q. is_same_or_child p q) deleted
          (restored_paths _ s.deleted_paths [] deleted under tt et),
      not_contained p directories (restored_paths _ s.directories [] directories marked tt ed),
    )
