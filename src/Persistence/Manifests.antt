-- ===== src/Persistence/Manifests.antt =====
-- packages/vscode/src/persistence/storage-uri-workspace-codec.ts: what is stored is loaded again.
use remotish.Shared.{
  Text, Bytes, text_eq, Dict, lookup, Result, ok, and_then-ok, ok_injective, is_some, List, [], ◌∷◌,
  All, true, false, ◌≡◌, refl, ◌∙◌, arith,
}
use mathlib.Core.Path.{subst}
use remotish.Overlay
use remotish.WorkingTree.{WorkingTreeSnapshot}
use remotish.Workspace.{WorkspaceSnapshot}
use remotish.Json.{Value, get}
use remotish.Persistence.{
  StoredBranch, StoredWorkspace, require_record, require_non_negative_integer, to_branch_snapshots,
  to_workspace_snapshot,
}
use remotish.Persistence.StorageUri.{
  StoredBlobReference, StoredOverlayFile, is_sha256, parse_blob, parse_file, value_of_blob,
  value_of_file, require_storage_uri_workspace_manifest, encode_files, encode_branches,
  encode_storage_uri_workspace_manifest, read_files, decode_storage_uri_workspace_manifest,
}
use remotish.Persistence.Schema.{IsSaid, IsStoredBranch, IsStored}
use remotish.Persistence.RoundTrip.{require_string-string, parse_stored-value}
use remotish.Persistence.Snapshots.{IsStorableBranch, IsStorable}

IsManifestFile : StoredOverlayFile → Type 0
IsManifestFile f = IsSaid f.path × (is_sha256 f.blob.sha256 ≡ true)

is_sha256-IsSaid : (s : Text) → is_sha256 s ≡ true → IsSaid s
unfolding is_sha256
is_sha256-IsSaid [] h = absurd cc
is_sha256-IsSaid (c ∷ s) h = refl

parse_blob-value :
    (b : StoredBlobReference) → is_sha256 b.sha256 ≡ true → parse_blob (value_of_blob b) ≡ ok b
unfolding parse_blob require_record get text_eq require_non_negative_integer
parse_blob-value b h = rw (require_string-string b.sha256 (is_sha256-IsSaid b.sha256 h), h) refl

parse_file-value : (f : StoredOverlayFile) → IsManifestFile f → parse_file (value_of_file f) ≡ ok f
unfolding parse_file require_record get text_eq IsManifestFile
parse_file-value f (p, h) = rw (parse_blob-value f.blob h, require_string-string f.path p) refl

-- The path of a file is not empty; what it holds is the business of the storage of blobs.
abbrev pub HasPath : Overlay.OverlayFileSnapshot → Type 0
HasPath f = IsSaid f.path

module _ (store_blob : Bytes → Result StoredBlobReference)
    (read_blob : StoredBlobReference → Result Bytes) where
  -- A blob that is stored is named by a hash, and is read back.
  abbrev pub IsBlobStorage : Type 0
  IsBlobStorage =
      (content : Bytes) (b : StoredBlobReference)
      → store_blob content ≡ ok b
      → (is_sha256 b.sha256 ≡ true) × (read_blob b ≡ ok content)

  module _ (storage : IsBlobStorage) where
    encode_files-stored :
        (fs : List Overlay.OverlayFileSnapshot) (gs : List StoredOverlayFile)
        → encode_files store_blob fs ≡ ok gs
        → All HasPath fs
        → All IsManifestFile gs × (read_files read_blob gs ≡ ok fs)
    unfolding encode_files read_files IsManifestFile
    encode_files-stored [] gs h a =
        subst (λ gs. All IsManifestFile gs × (read_files read_blob gs ≡ ok [])) (ok_injective h)
          (tt, refl)
    encode_files-stored (f ∷ fs) gs h (p, a) =
        let (blob, e, h1) = and_then-ok (store_blob f.content) _ h in
        let (rest, g, h2) = and_then-ok (encode_files store_blob fs) _ h1 in
        let (named, back) = storage f.content blob e in
        let (later, read) = encode_files-stored fs rest g a in
        subst (λ gs. All IsManifestFile gs × (read_files read_blob gs ≡ ok (f ∷ fs)))
          (ok_injective h2) (((p, named), later), rw (back, read) refl)

    encode_branches-stored :
        (ts : Dict WorkingTreeSnapshot) (bs : Dict (StoredBranch StoredOverlayFile))
        → encode_branches store_blob ts ≡ ok bs
        → All (IsStorableBranch HasPath) ts
        → All (IsStoredBranch IsManifestFile) bs
          × (to_branch_snapshots (read_files read_blob) bs ≡ ok ts)
    unfolding encode_branches to_branch_snapshots
    encode_branches-stored [] bs h a =
        subst
          (λ bs.
            All (IsStoredBranch IsManifestFile) bs
            × (to_branch_snapshots (read_files read_blob) bs ≡ ok []))
          (ok_injective h) (tt, refl)
    encode_branches-stored ((name, t) ∷ ts) bs h ((base, files, dirs, gone, renames), a) =
        let (gs, e, h1) = and_then-ok (encode_files store_blob t.overlay.files) _ h in
        let (rest, g, h2) = and_then-ok (encode_branches store_blob ts) _ h1 in
        let (stored, read) = encode_files-stored t.overlay.files gs e files in
        let (later, back) = encode_branches-stored ts rest g a in
        subst
          (λ bs.
            All (IsStoredBranch IsManifestFile) bs
            × (to_branch_snapshots (read_files read_blob) bs ≡ ok ((name, t) ∷ ts)))
          (ok_injective h2) (((base, stored, dirs, gone, renames), later), rw (read, back) refl)

    lookup-encode_branches :
        (k : Text) (ts : Dict WorkingTreeSnapshot) (bs : Dict (StoredBranch StoredOverlayFile))
        → encode_branches store_blob ts ≡ ok bs
        → is_some (lookup k bs) ≡ is_some (lookup k ts)
    unfolding encode_branches lookup
    lookup-encode_branches k [] bs h =
        subst (λ bs. is_some (lookup k bs) ≡ false) (ok_injective h) refl
    lookup-encode_branches k ((name, t) ∷ ts) bs h =
        let (gs, e, h1) = and_then-ok (encode_files store_blob t.overlay.files) _ h in
        let (rest, g, h2) = and_then-ok (encode_branches store_blob ts) _ h1 in
        let later = lookup-encode_branches k ts rest g in
        subst (λ bs. is_some (lookup k bs) ≡ is_some (lookup k ((name, t) ∷ ts))) (ok_injective h2)
          (ground (arith, later))

    -- Where each blob that is stored is named by 64 hexadecimal digits and read back, a workspace
    -- whose selected branch is not empty and among its branches, whose pending publication, if any, is of that
    -- branch and in which no revision, path or branch of a pending publication is empty is loaded
    -- as it was from the manifest that storing it has made.
    pub decode_storage_uri_workspace_manifest-encode :
        (s : WorkspaceSnapshot) (v : Value)
        → IsStorable HasPath s
        → encode_storage_uri_workspace_manifest store_blob s ≡ ok v
        → decode_storage_uri_workspace_manifest read_blob v ≡ ok s
    unfolding encode_storage_uri_workspace_manifest decode_storage_uri_workspace_manifest
        require_storage_uri_workspace_manifest to_workspace_snapshot
    decode_storage_uri_workspace_manifest-encode s v (said, there, same, pending, ts) h =
        let (bs, e, h1) = and_then-ok (encode_branches store_blob s.branches) _ h in
        let (are_stored, back) = encode_branches-stored s.branches bs e ts in
        let stored : StoredWorkspace StoredOverlayFile = record {
          selected_branch = s.selected_branch;
          branches = bs;
          pending = s.pending_commit_publication;
        } in
        let is_stored : IsStored IsManifestFile stored = (
          said,
          lookup-encode_branches s.selected_branch s.branches bs e ∙ there,
          same,
          pending,
          are_stored,
        ) in
        subst (λ u. decode_storage_uri_workspace_manifest read_blob u ≡ ok s) (ok_injective h1)
          (rw
            (
              parse_stored-value IsManifestFile parse_file value_of_file parse_file-value 2 stored
                  is_stored,
              back,
            )
            refl)
