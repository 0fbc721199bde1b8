-- ===== src/Persistence/StorageUri.antt =====
-- packages/vscode/src/persistence/storage-uri-workspace-codec.ts: file contents as references to
-- blobs. Storing and reading a blob are parameters.
use remotish.Shared.{
  Text, Bytes, text, Dict, add, Result, ok, and_then, List, [], ◌∷◌, Bool, true, not, ◌&&◌, ◌||◌,
  ◌==◌, leb, if◌then◌else◌, length, ℕ,
}
use remotish.Overlay
use remotish.WorkingTree.{WorkingTreeSnapshot}
use remotish.Workspace.{WorkspaceSnapshot}
use remotish.Json.{Value, number, string, object, no_fields, prop, get}
use remotish.Persistence.{
  StoredBranch, StoredWorkspace, reject, require_record, require_string,
  require_non_negative_integer, parse_stored_workspace, to_workspace_snapshot, value_of_workspace,
}

pub record StoredBlobReference : Type 0 where
  pub sha256 : Text
  pub size : ℕ

pub record StoredOverlayFile : Type 0 where
  pub path : Text
  pub blob : StoredBlobReference

-- `/^[a-f0-9]{64}$/u`
unfoldable pub are_hex : Text → Bool
are_hex [] = true
are_hex (c ∷ s) = ((leb 97 c && leb c 102) || (leb 48 c && leb c 57)) && are_hex s

unfoldable pub is_sha256 : Text → Bool
is_sha256 s = length s == 64 && are_hex s

unfoldable pub parse_blob : Value → Result StoredBlobReference
parse_blob v = and_then (require_record v) λ blob.
    and_then (require_string (get (text "sha256") blob)) λ sha256.
      if not (is_sha256 sha256)
      then reject
      else (and_then (require_non_negative_integer (get (text "size") blob))
          λ size. ok (record { sha256 = sha256; size = size }))

unfoldable pub parse_file : Value → Result StoredOverlayFile
parse_file v = and_then (require_record v) λ item.
    and_then (parse_blob (get (text "blob") item)) λ blob.
      and_then (require_string (get (text "path") item))
        λ path. ok (record { path = path; blob = blob })

unfoldable pub require_storage_uri_workspace_manifest :
    Value → Result (StoredWorkspace StoredOverlayFile)
require_storage_uri_workspace_manifest v = parse_stored_workspace parse_file 2 v

abbrev pub value_of_blob : StoredBlobReference → Value
value_of_blob b = object (prop "sha256" (string b.sha256) (prop "size" (number b.size) no_fields))

abbrev pub value_of_file : StoredOverlayFile → Value
value_of_file f =
    object (prop "path" (string f.path) (prop "blob" (value_of_blob f.blob) no_fields))

module _ (store_blob : Bytes → Result StoredBlobReference) where
  unfoldable pub encode_files : List Overlay.OverlayFileSnapshot → Result (List StoredOverlayFile)
  encode_files [] = ok []
  encode_files (f ∷ fs) =
      and_then (store_blob f.content)
        λ blob. and_then (encode_files fs) λ rest. ok (record { path = f.path; blob = blob } ∷ rest)

  unfoldable pub encode_branches :
      Dict WorkingTreeSnapshot → Result (Dict (StoredBranch StoredOverlayFile))
  encode_branches [] = ok []
  encode_branches ((name, branch) ∷ branches) =
      and_then (encode_files branch.overlay.files) λ files.
        and_then (encode_branches branches) λ rest. ok (
          (
            name,
            record {
              base_revision = branch.base_revision;
              files = files;
              directories = branch.overlay.directories;
              deleted_paths = branch.overlay.deleted_paths;
              renames = branch.overlay.renames;
            },
          )
          ∷ rest)

  unfoldable pub encode_storage_uri_workspace_manifest : WorkspaceSnapshot → Result Value
  encode_storage_uri_workspace_manifest s = and_then (encode_branches s.branches) λ branches. ok (
      value_of_workspace value_of_file 2 (record {
        selected_branch = s.selected_branch;
        branches = branches;
        pending = s.pending_commit_publication;
      }))

module _ (read_blob : StoredBlobReference → Result Bytes) where
  unfoldable pub read_files : List StoredOverlayFile → Result (List Overlay.OverlayFileSnapshot)
  read_files [] = ok []
  read_files (f ∷ fs) = and_then (read_blob f.blob) λ content.
      and_then (read_files fs) λ rest. ok (record { path = f.path; content = content } ∷ rest)

  unfoldable pub decode_storage_uri_workspace_manifest : Value → Result WorkspaceSnapshot
  decode_storage_uri_workspace_manifest v =
      and_then (require_storage_uri_workspace_manifest v) (to_workspace_snapshot read_files)

unfoldable pub add_blob_ids : List StoredOverlayFile → List Text → List Text
add_blob_ids [] ids = ids
add_blob_ids (f ∷ fs) ids = add_blob_ids fs (add f.blob.sha256 ids)

unfoldable pub add_branch_blob_ids : Dict (StoredBranch StoredOverlayFile) → List Text → List Text
add_branch_blob_ids [] ids = ids
add_branch_blob_ids ((name, branch) ∷ branches) ids =
    add_branch_blob_ids branches (add_blob_ids branch.files ids)

unfoldable pub referenced_storage_blob_ids : Value → Result (List Text)
referenced_storage_blob_ids v =
    and_then (require_storage_uri_workspace_manifest v)
      λ stored. ok (add_branch_blob_ids stored.branches [])
