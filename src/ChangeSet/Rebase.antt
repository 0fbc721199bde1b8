-- ===== src/ChangeSet/Rebase.antt =====
-- What the rebase after a partial publication keeps:
-- packages/core/src/working-tree/published-revision.ts.
use remotish.Shared.{
  All, All-ends, Text, Bytes, text_eq, text_eq→eq, lookup, lookup-without, ok, and_then-ok, Option,
  none, some, List, [], ◌∷◌, Bool, true, false, not, ◌&&◌, if◌then◌else◌, is_some, Bool-cases, ◌≡◌,
  refl, inl, inr, ◌⊎◌, ap, sym, ◌∙◌,
}
use mathlib.Core.List.{Memᴰ}
use mathlib.Core.Path.{subst}
use remotish.Overlay
use remotish.Overlay.{Overlay, OverlayFileSnapshot, RenameSnapshot, get_file}
use remotish.Repository
use remotish.Repository.{Adapter}
use remotish.WorkingTree.Mutations.{equal_bytes, try_read_base, is_directory_stat}
use remotish.ChangeSet.{
  drop_equal_file, rebase_files, rebase_directories, rebase_deleted, rebase_renames,
  rebase_overlay_after_partial_publish,
}
use remotish.ChangeSet.Commits.{the_same}

get_file-remove_file :
    (p q : Text) (o : Overlay)
    → get_file q (Overlay.remove_file p o) ≡ (if text_eq q p then none else get_file q o)
unfolding get_file Overlay.remove_file
get_file-remove_file p q o = lookup-without (λ j. text_eq j p) q o.files

module _ (adapter : Adapter) (revision : Text) (files : List OverlayFileSnapshot) (p : Text) where
  -- The published revision has a file at `p` with a content that the overlay had there.
  abbrev pub Published : Type 0
  Published =
      (content remote : Bytes) × Memᴰ (record { path = p; content = content }) files
      × (try_read_base adapter revision p ≡ ok (some remote))
      × (equal_bytes remote content ≡ true)

  abbrev Kept : Bytes → Overlay → Type 0
  Kept c o = (get_file p o ≡ some c) ⊎ Published

  drop_equal_file-Kept :
      (f : OverlayFileSnapshot) (base : Option Bytes) (o : Overlay) (c : Bytes)
      → Memᴰ f files
      → try_read_base adapter revision f.path ≡ ok base
      → get_file p o ≡ some c
      → Kept c (drop_equal_file adapter revision f base o)
  drop_equal_file-Kept f none o c i h g = inl g
  drop_equal_file-Kept f (some remote) o c i h g =
      elim (Bool-cases (equal_bytes remote f.content)) [
        | inr n ↦ rw n (inl g)
        | inl y ↦ rw y (elim (Bool-cases (text_eq p f.path)) [
          | inl same ↦
              let e : f.path ≡ p = sym (text_eq→eq p f.path same) in
              inr (
                f.content,
                remote,
                subst (λ q. Memᴰ (record { path = q; content = f.content }) files) e i,
                subst (λ q. try_read_base adapter revision q ≡ ok (some remote)) e h,
                y,
              )
          | inr other ↦ inl (rw (get_file-remove_file f.path p o, other) g)
        ])
      ]

  rebase_files-Kept :
      (fs : List OverlayFileSnapshot) (o o' : Overlay) (c : Bytes)
      → All (λ f. Memᴰ f files) fs
      → get_file p o ≡ some c
      → rebase_files adapter revision fs o ≡ ok o'
      → Kept c o'
  unfolding rebase_files
  rebase_files-Kept [] o o' c i g e = inl (subst (λ x. get_file p x ≡ some c) (the_same e) g)
  rebase_files-Kept (f ∷ fs) o o' c (i, is) g e =
      let (base, h, e') =
        and_then-ok (try_read_base adapter revision f.path)
          (λ base. rebase_files adapter revision fs (drop_equal_file adapter revision f base o))
          e in
      elim (drop_equal_file-Kept f base o c i h g) [
        | inl kept ↦
            rebase_files-Kept fs (drop_equal_file adapter revision f base o) o' c is kept e'
        | inr published ↦ inr published
      ]

module _ (adapter : Adapter) (revision : Text) where
  files_of_if :
      (b : Bool) (f : Overlay → Overlay) (o : Overlay)
      → (f o).files ≡ o.files
      → (if b then f o else o).files ≡ o.files
  files_of_if true f o h = h
  files_of_if false f o h = refl

  files-rebase_directories :
      (ds : List Text) (o o' : Overlay)
      → rebase_directories adapter revision ds o ≡ ok o'
      → o'.files ≡ o.files
  unfolding rebase_directories Overlay.remove_directory
  files-rebase_directories [] o o' e = ap (λ x. x.files) (sym (the_same e))
  files-rebase_directories (d ∷ ds) o o' e =
      let (s, h, e') = and_then-ok (Repository.try_stat adapter revision d) _ e in
      files-rebase_directories ds _ o' e'
      ∙ files_of_if (is_directory_stat s) (Overlay.remove_directory d) o refl

  files-rebase_deleted :
      (ps : List Text) (o o' : Overlay)
      → rebase_deleted adapter revision ps o ≡ ok o'
      → o'.files ≡ o.files
  unfolding rebase_deleted Overlay.unmark_deleted
  files-rebase_deleted [] o o' e = ap (λ x. x.files) (sym (the_same e))
  files-rebase_deleted (d ∷ ds) o o' e =
      let (s, h, e') = and_then-ok (Repository.try_stat adapter revision d) _ e in
      elim (Bool-cases (is_some s)) [
        | inl y ↦ files-rebase_deleted ds o o' (rw y at e')
        | inr n ↦ files-rebase_deleted ds (Overlay.unmark_deleted d false o) o' (rw n at e')
      ]

  files-rebase_renames :
      (rs : List RenameSnapshot) (o o' : Overlay)
      → rebase_renames adapter revision rs o ≡ ok o'
      → o'.files ≡ o.files
  unfolding rebase_renames Overlay.remove_rename
  files-rebase_renames [] o o' e = ap (λ x. x.files) (sym (the_same e))
  files-rebase_renames (r ∷ rs) o o' e =
      let (s, h, e1) = and_then-ok (Repository.try_stat adapter revision r.from) _ e in
      let (t, h2, e2) = and_then-ok (Repository.try_stat adapter revision r.to) _ e1 in
      files-rebase_renames rs _ o' e2
      ∙ files_of_if (not (is_some s) && is_some t) (Overlay.remove_rename r.from r.to) o refl

  -- A rebase onto a published revision that returns loses no content: a file that the overlay had
  -- is still there, unchanged, or the published revision has a file at its path with a content that
  -- the overlay had there.
  pub rebase-Kept :
      (locale_le : Text → Text → Bool) (p : Text) (c : Bytes) (o o' : Overlay)
      → get_file p o ≡ some c
      → rebase_overlay_after_partial_publish adapter revision locale_le o ≡ ok o'
      → (get_file p o' ≡ some c) ⊎ Published adapter revision (Overlay.list_files locale_le o) p
  unfolding rebase_overlay_after_partial_publish get_file
  rebase-Kept locale_le p c o o' g e =
      let files = Overlay.list_files locale_le o in
      let (o1, h1, e1) = and_then-ok (rebase_files adapter revision files o) _ e in
      let (o2, h2, e2) =
        and_then-ok (rebase_directories adapter revision (Overlay.list_directories o1) o1) _ e1 in
      let (o3, h3, e3) =
        and_then-ok (rebase_deleted adapter revision (Overlay.list_deleted_paths o2) o2) _ e2 in
      let same : o'.files ≡ o1.files =
        files-rebase_renames (Overlay.list_renames o3) o3 o' e3
        ∙ files-rebase_deleted (Overlay.list_deleted_paths o2) o2 o3 h3
        ∙ files-rebase_directories (Overlay.list_directories o1) o1 o2 h2 in
      elim (rebase_files-Kept adapter revision files p files o o1 c (All-ends files) g h1) [
        | inl kept ↦ inl (ap (λ m. lookup p m) same ∙ kept)
        | inr published ↦ inr published
      ]
