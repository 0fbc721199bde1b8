-- ===== src/Persistence/Snapshots.antt =====
-- packages/vscode/src/persistence/workspace-snapshot-codec.ts: what is stored is loaded again, and
-- what is loaded can be stored.
use remotish.Shared.{
  Text, text, text_eq, Dict, lookup, Result, ok, and_then-ok, ok_injective, is_some, List, [], ◌∷◌,
  All, true, false, ◌≡◌, refl, arith, ◌∙◌, Option-cases, inl, inr,
}
use mathlib.Core.Path.{subst}
use remotish.Overlay
use remotish.WorkingTree.{WorkingTreeSnapshot}
use remotish.Workspace.{WorkspaceSnapshot}
use remotish.Base64.{atob}
use remotish.Base64.RoundTrip.{IsBytes, atob-btoa, atob-IsBytes}
use remotish.Json.{Value, get}
use remotish.Persistence.{
  StoredBranch, StoredWorkspace, require_record, require_string, is_of_branch,
  parse_stored_workspace, to_branch_snapshots, to_workspace_snapshot,
}
use remotish.Persistence.Memento.{
  StoredOverlayFile, require_content_base64, parse_file, value_of_file, encode_files,
  encode_branches, encode_workspace_snapshot, decode_base64, decode_files,
  decode_workspace_snapshot,
}
use remotish.Persistence.Schema.{
  IsSaid, IsSaidRename, IsSaidPending, IsStoredBranch, IsStored, require_string-IsSaid,
  parse_stored_workspace-IsStored,
}
use remotish.Persistence.RoundTrip.{require_string-string, parse_stored-value}

module _ (Q : Overlay.OverlayFileSnapshot → Type 0) where
  abbrev pub IsStorableBranch : Text × WorkingTreeSnapshot → Type 0
  IsStorableBranch (name, t) =
      IsSaid t.base_revision
      × All Q t.overlay.files
      × All IsSaid t.overlay.directories
      × All IsSaid t.overlay.deleted_paths
      × All IsSaidRename t.overlay.renames

  -- The selected branch is there, a pending publication is of it, and no string is empty.
  abbrev pub IsStorable : WorkspaceSnapshot → Type 0
  IsStorable s =
      IsSaid s.selected_branch
      × (is_some (lookup s.selected_branch s.branches) ≡ true)
      × (is_of_branch s.selected_branch s.pending_commit_publication ≡ true)
      × IsSaidPending s.pending_commit_publication
      × All IsStorableBranch s.branches

abbrev pub IsStorableFile : Overlay.OverlayFileSnapshot → Type 0
IsStorableFile f = IsSaid f.path × IsBytes f.content

IsStoredFile : StoredOverlayFile → Type 0
IsStoredFile f = IsSaid f.path

parse_file-value : (f : StoredOverlayFile) → IsStoredFile f → parse_file (value_of_file f) ≡ ok f
unfolding parse_file require_record get text_eq require_content_base64 IsStoredFile
parse_file-value f h = rw (require_string-string f.path h) refl

parse_file-IsStoredFile : (v : Value) (f : StoredOverlayFile) → parse_file v ≡ ok f → IsStoredFile f
unfolding parse_file IsStoredFile
parse_file-IsStoredFile v f h =
    let (item, e, h1) = and_then-ok (require_record v) _ h in
    let (path, p, h2) = and_then-ok (require_string (get (text "path") item)) _ h1 in
    let (content, c, h3) =
      and_then-ok (require_content_base64 (get (text "contentBase64") item)) _ h2 in
    subst IsStoredFile (ok_injective h3) (require_string-IsSaid _ path p)

-- Storing.
encode_files-AreStored :
    (fs : List Overlay.OverlayFileSnapshot)
    → All IsStorableFile fs
    → All IsStoredFile (encode_files fs)
unfolding IsStoredFile
encode_files-AreStored [] h = tt
encode_files-AreStored (f ∷ fs) ((p, b), h) = (p, encode_files-AreStored fs h)

decode_files-encode :
    (fs : List Overlay.OverlayFileSnapshot)
    → All IsStorableFile fs
    → decode_files (encode_files fs) ≡ ok fs
unfolding decode_files decode_base64
decode_files-encode [] h = refl
decode_files-encode (f ∷ fs) ((p, b), h) = rw (atob-btoa f.content b, decode_files-encode fs h) refl

encode_branches-AreStored :
    (bs : Dict WorkingTreeSnapshot)
    → All (IsStorableBranch IsStorableFile) bs
    → All (IsStoredBranch IsStoredFile) (encode_branches bs)
encode_branches-AreStored [] h = tt
encode_branches-AreStored ((name, b) ∷ bs) ((base, files, dirs, gone, renames), h) = (
  (base, encode_files-AreStored b.overlay.files files, dirs, gone, renames),
  encode_branches-AreStored bs h,
)

to_branch_snapshots-encode :
    (bs : Dict WorkingTreeSnapshot)
    → All (IsStorableBranch IsStorableFile) bs
    → to_branch_snapshots decode_files (encode_branches bs) ≡ ok bs
unfolding to_branch_snapshots
to_branch_snapshots-encode [] h = refl
to_branch_snapshots-encode ((name, b) ∷ bs) ((base, files, dirs, gone, renames), h) =
    rw (decode_files-encode b.overlay.files files, to_branch_snapshots-encode bs h) refl

lookup-encode_branches :
    (k : Text) (bs : Dict WorkingTreeSnapshot)
    → is_some (lookup k (encode_branches bs)) ≡ is_some (lookup k bs)
unfolding lookup
lookup-encode_branches k [] = refl
lookup-encode_branches k ((name, b) ∷ bs) = ground (arith, lookup-encode_branches k bs)

-- A workspace whose selected branch is not empty and among its branches, whose pending publication,
-- if any, is of that branch, in which no revision, path or branch of a pending publication is empty and whose
-- contents are lists of bytes is loaded from the memento as it was stored.
pub decode_workspace_snapshot-encode :
    (s : WorkspaceSnapshot)
    → IsStorable IsStorableFile s
    → decode_workspace_snapshot (encode_workspace_snapshot s) ≡ ok s
unfolding decode_workspace_snapshot encode_workspace_snapshot to_workspace_snapshot
decode_workspace_snapshot-encode s (said, there, same, pending, bs) =
    let stored : StoredWorkspace StoredOverlayFile = record {
      selected_branch = s.selected_branch;
      branches = encode_branches s.branches;
      pending = s.pending_commit_publication;
    } in
    let is_stored : IsStored IsStoredFile stored = (
      said,
      lookup-encode_branches s.selected_branch s.branches ∙ there,
      same,
      pending,
      encode_branches-AreStored s.branches bs,
    ) in
    rw
      (
        parse_stored-value IsStoredFile parse_file value_of_file parse_file-value 1 stored
            is_stored,
        to_branch_snapshots-encode s.branches bs,
      )
      refl

-- Loading.
module _ {F : Type 0} (P : F → Type 0) (Q : Overlay.OverlayFileSnapshot → Type 0)
    (decode : List F → Result (List Overlay.OverlayFileSnapshot))
    (decode_is : (fs : List F) (gs : List Overlay.OverlayFileSnapshot)
      → decode fs ≡ ok gs
      → All P fs
      → All Q gs) where
  to_branch_snapshots-AreStorable :
      (bs : Dict (StoredBranch F)) (ts : Dict WorkingTreeSnapshot)
      → to_branch_snapshots decode bs ≡ ok ts
      → All (IsStoredBranch P) bs
      → All (IsStorableBranch Q) ts
  unfolding to_branch_snapshots
  to_branch_snapshots-AreStorable [] ts h a = subst (All (IsStorableBranch Q)) (ok_injective h) tt
  to_branch_snapshots-AreStorable ((name, b) ∷ bs) ts h ((base, files, dirs, gone, renames), a) =
      let (gs, e, h1) = and_then-ok (decode b.files) _ h in
      let (us, f, h2) = and_then-ok (to_branch_snapshots decode bs) _ h1 in
      subst (All (IsStorableBranch Q)) (ok_injective h2) (
        (base, decode_is b.files gs e files, dirs, gone, renames),
        to_branch_snapshots-AreStorable bs us f a,
      )

  lookup-to_branch_snapshots :
      (k : Text) (bs : Dict (StoredBranch F)) (ts : Dict WorkingTreeSnapshot)
      → to_branch_snapshots decode bs ≡ ok ts
      → is_some (lookup k ts) ≡ is_some (lookup k bs)
  unfolding to_branch_snapshots lookup
  lookup-to_branch_snapshots k [] ts h =
      subst (λ us. is_some (lookup k us) ≡ false) (ok_injective h) refl
  lookup-to_branch_snapshots k ((name, b) ∷ bs) ts h =
      let (gs, e, h1) = and_then-ok (decode b.files) _ h in
      let (us, f, h2) = and_then-ok (to_branch_snapshots decode bs) _ h1 in
      let later = lookup-to_branch_snapshots k bs us f in
      subst (λ vs. is_some (lookup k vs) ≡ is_some (lookup k ((name, b) ∷ bs))) (ok_injective h2)
        (ground (arith, later))

  pub to_workspace_snapshot-IsStorable :
      (w : StoredWorkspace F) (s : WorkspaceSnapshot)
      → IsStored P w
      → to_workspace_snapshot decode w ≡ ok s
      → IsStorable Q s
  unfolding to_workspace_snapshot
  to_workspace_snapshot-IsStorable w s (said, there, same, pending, bs) h =
      let (ts, e, h1) = and_then-ok (to_branch_snapshots decode w.branches) _ h in
      subst (IsStorable Q) (ok_injective h1) (
        said,
        lookup-to_branch_snapshots w.selected_branch w.branches ts e ∙ there,
        same,
        pending,
        to_branch_snapshots-AreStorable w.branches ts e bs,
      )

decode_files-AreStorable :
    (fs : List StoredOverlayFile) (gs : List Overlay.OverlayFileSnapshot)
    → decode_files fs ≡ ok gs
    → All IsStoredFile fs
    → All IsStorableFile gs
unfolding decode_files decode_base64 IsStoredFile
decode_files-AreStorable [] gs h a = subst (All IsStorableFile) (ok_injective h) tt
decode_files-AreStorable (f ∷ fs) gs h (p, a) =
    let (content, e, h1) = and_then-ok (decode_base64 f.content_base64) _ h in
    let (rest, g, h2) = and_then-ok (decode_files fs) _ h1 in
    elim (Option-cases (atob f.content_base64)) [
      | inl n ↦ absurd (let x = rw n at e in cc)
      | inr (bytes, q) ↦
          let same : bytes ≡ content = ok_injective (rw q at e) in
          subst (All IsStorableFile) (ok_injective h2) (
            (p, subst IsBytes same (atob-IsBytes f.content_base64 bytes q)),
            decode_files-AreStorable fs rest g a,
          )
    ]

-- A workspace that is loaded from the memento, from whatever value, has its selected branch among
-- its branches, has a pending publication of that branch only, has no empty revision, path or
-- branch of a pending publication, and its contents are lists of bytes.
pub decode_workspace_snapshot-IsStorable :
    (v : Value) (s : WorkspaceSnapshot)
    → decode_workspace_snapshot v ≡ ok s
    → IsStorable IsStorableFile s
unfolding decode_workspace_snapshot
decode_workspace_snapshot-IsStorable v s h =
    let (w, e, h1) = and_then-ok (parse_stored_workspace parse_file 1 v) _ h in
    to_workspace_snapshot-IsStorable IsStoredFile IsStorableFile decode_files
      decode_files-AreStorable w s
      (parse_stored_workspace-IsStored IsStoredFile parse_file parse_file-IsStoredFile 1 v w e) h1
