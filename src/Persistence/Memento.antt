-- ===== src/Persistence/Memento.antt =====
-- packages/vscode/src/persistence/workspace-snapshot-codec.ts: file contents in base 64.
use remotish.Shared.{
  Text, Bytes, text, Dict, Result, ok, and_then, Option, none, some, List, [], ◌∷◌,
}
use remotish.Overlay
use remotish.WorkingTree.{WorkingTreeSnapshot}
use remotish.Workspace.{WorkspaceSnapshot}
use remotish.Base64.{btoa, atob}
use remotish.Json.{Value, string, object, no_fields, prop, get}
use remotish.Persistence.{
  StoredBranch, reject, require_record, require_string, parse_stored_workspace,
  to_workspace_snapshot, value_of_workspace,
}

pub record StoredOverlayFile : Type 0 where
  pub path : Text
  pub content_base64 : Text

unfoldable pub require_content_base64 : Value → Result Text
require_content_base64 (string s) = ok s
require_content_base64 _ = reject

unfoldable pub parse_file : Value → Result StoredOverlayFile
parse_file v = and_then (require_record v) λ item.
    and_then (require_string (get (text "path") item)) λ path.
      and_then (require_content_base64 (get (text "contentBase64") item))
        λ content. ok (record { path = path; content_base64 = content })

abbrev pub value_of_file : StoredOverlayFile → Value
value_of_file f =
    object (prop "path" (string f.path) (prop "contentBase64" (string f.content_base64) no_fields))

abbrev pub encode_file : Overlay.OverlayFileSnapshot → StoredOverlayFile
encode_file f = record { path = f.path; content_base64 = btoa f.content }

abbrev pub encode_files : List Overlay.OverlayFileSnapshot → List StoredOverlayFile
encode_files [] = []
encode_files (f ∷ fs) = encode_file f ∷ encode_files fs

abbrev pub encode_branches : Dict WorkingTreeSnapshot → Dict (StoredBranch StoredOverlayFile)
encode_branches [] = []
encode_branches ((name, branch) ∷ branches) =
    (
      name,
      record {
        base_revision = branch.base_revision;
        files = encode_files branch.overlay.files;
        directories = branch.overlay.directories;
        deleted_paths = branch.overlay.deleted_paths;
        renames = branch.overlay.renames;
      },
    )
    ∷ encode_branches branches

unfoldable pub encode_workspace_snapshot : WorkspaceSnapshot → Value
encode_workspace_snapshot s = value_of_workspace value_of_file 1 (record {
  selected_branch = s.selected_branch;
  branches = encode_branches s.branches;
  pending = s.pending_commit_publication;
})

abbrev pub decoded : Option Bytes → Result Bytes
decoded none = reject
decoded (some content) = ok content

unfoldable pub decode_base64 : Text → Result Bytes
decode_base64 s = decoded (atob s)

unfoldable pub decode_files : List StoredOverlayFile → Result (List Overlay.OverlayFileSnapshot)
decode_files [] = ok []
decode_files (f ∷ fs) = and_then (decode_base64 f.content_base64) λ content.
    and_then (decode_files fs) λ rest. ok (record { path = f.path; content = content } ∷ rest)

unfoldable pub decode_workspace_snapshot : Value → Result WorkspaceSnapshot
decode_workspace_snapshot v =
    and_then (parse_stored_workspace parse_file 1 v) (to_workspace_snapshot decode_files)
