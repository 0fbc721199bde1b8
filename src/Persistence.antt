-- ===== src/Persistence.antt =====
-- packages/vscode/src/persistence/workspace-persistence-schema.ts: workspaces as they are stored.
--
-- A stored object is a JSON value. The names of an object are distinct, so that to set one after the
-- other is to append; JavaScript lists names that are array indices first, which nothing here tells.
pub mod Memento
pub mod StorageUri
pub mod Schema
pub mod RoundTrip
pub mod Snapshots
pub mod Manifests
use remotish.Shared.{
  Text, text, Dict, Result, ok, err, other_error, and_then, Option, none, some, List, [], ◌∷◌, Bool,
  true, false, not, if◌then◌else◌, is_nil, is_some, lookup, text_eq, ℕ,
}
use remotish.Overlay
use remotish.WorkingTree.{WorkingTreeSnapshot}
use remotish.Workspace.{
  PendingCommitPublication, prepared, published, pending_branch, WorkspaceSnapshot,
}
use remotish.Json.{
  Value, undefined, number, string, array, object, instance_of, Items, Fields, no_fields, field,
  prop, optional_prop, get, is_text, is_number, items_of, decode_items,
}

pub record StoredBranch (F : Type 0) : Type 0 where
  pub base_revision : Text
  pub files : List F
  pub directories : List Text
  pub deleted_paths : List Text
  pub renames : List Overlay.RenameSnapshot

pub record StoredWorkspace (F : Type 0) : Type 0 where
  pub selected_branch : Text
  pub branches : Dict (StoredBranch F)
  pub pending : Option PendingCommitPublication

-- `throw validation.invalid(...)`
abbrev pub reject {ℓ} : {A : Type ℓ} → Result A
reject = err other_error

unfoldable pub require_record : Value → Result Fields
require_record (object fields) = ok fields
require_record (instance_of fields) = ok fields
require_record _ = reject

unfoldable pub require_string : Value → Result Text
require_string (string s) = if is_nil s then reject else ok s
require_string _ = reject

unfoldable pub require_non_negative_integer : Value → Result ℕ
require_non_negative_integer (number n) = ok n
require_non_negative_integer _ = reject

unfoldable pub require_array : Value → Result Items
require_array (array items) = ok items
require_array _ = reject

unfoldable pub require_string_array : Value → Result (List Text)
require_string_array v = and_then (require_array v) λ items. decode_items require_string items

unfoldable pub parse_rename : Value → Result Overlay.RenameSnapshot
parse_rename v = and_then (require_record v) λ item.
    and_then (require_string (get (text "from") item)) λ from.
      and_then (require_string (get (text "to") item)) λ to. ok (record { from = from; to = to })

unfoldable pub parse_phase : Value → Fields → Text → Text → Result PendingCommitPublication
parse_phase phase pending branch expected =
    if is_text (text "published") phase
    then (and_then (require_string (get (text "publishedRevision") pending))
        λ revision. ok (published branch expected revision))
    else reject

abbrev pub is_prepared_phase : Value → Bool
is_prepared_phase undefined = true
is_prepared_phase v = is_text (text "prepared") v

unfoldable pub parse_pending_commit_publication : Value → Result PendingCommitPublication
parse_pending_commit_publication v = and_then (require_record v) λ pending.
    and_then (require_string (get (text "branch") pending)) λ branch.
      and_then (require_string (get (text "expectedRemoteRevision") pending)) λ expected.
        if is_prepared_phase (get (text "phase") pending)
        then ok (prepared branch expected)
        else parse_phase (get (text "phase") pending) pending branch expected

unfoldable pub parse_pending : Value → Result (Option PendingCommitPublication)
parse_pending undefined = ok none
parse_pending v = and_then (parse_pending_commit_publication v) λ p. ok (some p)

abbrev pub is_of_branch : Text → Option PendingCommitPublication → Bool
is_of_branch branch none = true
is_of_branch branch (some p) = text_eq (pending_branch p) branch

module _ {F : Type 0} (parse_file : Value → Result F) where
  unfoldable pub parse_branch : Value → Result (StoredBranch F)
  parse_branch v = and_then (require_record v) λ branch.
      and_then (require_record (get (text "overlay") branch)) λ overlay.
        and_then (require_string (get (text "baseRevision") branch)) λ base_revision.
          and_then (require_array (get (text "files") overlay)) λ file_items.
            and_then (decode_items parse_file file_items) λ files.
              and_then (require_string_array (get (text "directories") overlay)) λ directories.
                and_then (require_string_array (get (text "deletedPaths") overlay)) λ deleted_paths.
                  and_then (require_array (get (text "renames") overlay)) λ rename_items.
                    and_then (decode_items parse_rename rename_items) λ renames. ok (record {
                      base_revision = base_revision;
                      files = files;
                      directories = directories;
                      deleted_paths = deleted_paths;
                      renames = renames;
                    })

  unfoldable pub parse_branches : Fields → Result (Dict (StoredBranch F))
  parse_branches no_fields = ok []
  parse_branches (field name v fields) =
      and_then (parse_branch v)
        λ branch. and_then (parse_branches fields) λ branches. ok ((name, branch) ∷ branches)

  unfoldable pub parse_stored_workspace : ℕ → Value → Result (StoredWorkspace F)
  parse_stored_workspace version v = and_then (require_record v) λ root.
      if not (is_number version (get (text "version") root))
      then reject
      else (and_then (require_string (get (text "selectedBranch") root)) λ selected_branch.
          and_then (require_record (get (text "branches") root)) λ raw_branches.
            and_then (parse_pending (get (text "pendingCommitPublication") root)) λ pending.
              and_then (parse_branches raw_branches) λ branches.
                if not (is_some (lookup selected_branch branches))
                then reject
                else if not (is_of_branch selected_branch pending)
                then reject
                else ok (record {
                  selected_branch = selected_branch;
                  branches = branches;
                  pending = pending;
                }))

-- `toWorkspaceSnapshotSync`, and `toWorkspaceSnapshot` for files that are read one after the other.
module _ {F : Type 0} (decode_files : List F → Result (List Overlay.OverlayFileSnapshot)) where
  unfoldable pub to_branch_snapshots : Dict (StoredBranch F) → Result (Dict WorkingTreeSnapshot)
  to_branch_snapshots [] = ok []
  to_branch_snapshots ((name, branch) ∷ branches) = and_then (decode_files branch.files) λ files.
      and_then (to_branch_snapshots branches) λ rest. ok (
        (
          name,
          record {
            base_revision = branch.base_revision;
            overlay = record {
              files = files;
              directories = branch.directories;
              deleted_paths = branch.deleted_paths;
              renames = branch.renames;
            };
          },
        )
        ∷ rest)

  unfoldable pub to_workspace_snapshot : StoredWorkspace F → Result WorkspaceSnapshot
  to_workspace_snapshot stored = and_then (to_branch_snapshots stored.branches) λ branches.
      ok (record {
        selected_branch = stored.selected_branch;
        branches = branches;
        pending_commit_publication = stored.pending;
      })

-- The objects that the two encoders build.
abbrev pub value_of_rename : Overlay.RenameSnapshot → Value
value_of_rename r = object (prop "from" (string r.from) (prop "to" (string r.to) no_fields))

abbrev pub value_of_texts : List Text → Value
value_of_texts ts = array (items_of string ts)

abbrev pub value_of_pending : PendingCommitPublication → Value
value_of_pending (prepared branch expected) = object (
    prop "phase" (string (text "prepared"))
      (prop "branch" (string branch) (prop "expectedRemoteRevision" (string expected) no_fields)))
value_of_pending (published branch expected revision) = object (
    prop "phase" (string (text "published")) (
      prop "branch" (string branch) (
        prop "expectedRemoteRevision" (string expected)
          (prop "publishedRevision" (string revision) no_fields))))

abbrev pub optional_pending : Option PendingCommitPublication → Option Value
optional_pending none = none
optional_pending (some p) = some (value_of_pending p)

module _ {F : Type 0} (value_of_file : F → Value) where
  unfoldable pub value_of_branch : StoredBranch F → Value
  value_of_branch b = object (
      prop "baseRevision" (string b.base_revision) (
        prop "overlay"
          (object (
            prop "files" (array (items_of value_of_file b.files)) (
              prop "directories" (value_of_texts b.directories) (
                prop "deletedPaths" (value_of_texts b.deleted_paths)
                  (prop "renames" (array (items_of value_of_rename b.renames)) no_fields)))))
          no_fields))

  unfoldable pub fields_of_branches : Dict (StoredBranch F) → Fields
  fields_of_branches [] = no_fields
  fields_of_branches ((name, branch) ∷ branches) =
      field name (value_of_branch branch) (fields_of_branches branches)

  unfoldable pub value_of_workspace : ℕ → StoredWorkspace F → Value
  value_of_workspace version w = object (
      prop "version" (number version) (
        prop "selectedBranch" (string w.selected_branch) (
          prop "branches" (object (fields_of_branches w.branches))
            (optional_prop "pendingCommitPublication" (optional_pending w.pending) no_fields))))
