-- ===== src/Persistence/RoundTrip.antt =====
-- packages/vscode/src/persistence: what is stored is loaded again.
use remotish.Shared.{
  Text, text_eq, Dict, Result, ok, Option, none, some, List, [], ◌∷◌, All, true, ℕ, ◌≡◌, refl,
  arith, ◌==◌,
}
use remotish.Overlay
use remotish.Workspace.{PendingCommitPublication, prepared, published}
use remotish.Json.{Value, undefined, string, get, decode_items-items_of}
use remotish.Persistence.{
  StoredBranch, StoredWorkspace, require_record, require_string, require_array,
  require_string_array, parse_rename, parse_phase, parse_pending_commit_publication, parse_pending,
  parse_branch, parse_branches, parse_stored_workspace, value_of_rename, value_of_texts,
  value_of_pending, value_of_branch, fields_of_branches, value_of_workspace,
}
use remotish.Persistence.Schema.{IsSaid, IsSaidRename, IsSaidPending, IsStoredBranch, IsStored}

pub require_string-string : (s : Text) → IsSaid s → require_string (string s) ≡ ok s
unfolding require_string
require_string-string s h = rw h refl

require_string_array-texts :
    (ts : List Text) → All IsSaid ts → require_string_array (value_of_texts ts) ≡ ok ts
unfolding require_string_array require_array
require_string_array-texts ts h =
    decode_items-items_of IsSaid require_string string ts require_string-string h

parse_rename-value :
    (r : Overlay.RenameSnapshot) → IsSaidRename r → parse_rename (value_of_rename r) ≡ ok r
unfolding parse_rename require_record get text_eq
parse_rename-value r (f, t) = rw (require_string-string r.from f, require_string-string r.to t) refl

publication-value :
    (p : PendingCommitPublication)
    → IsSaidPending (some p)
    → parse_pending_commit_publication (value_of_pending p) ≡ ok p
unfolding parse_pending_commit_publication parse_phase require_record get text_eq
publication-value (prepared branch expected) (b, e) =
    rw (require_string-string branch b, require_string-string expected e) refl
publication-value (published branch expected revision) (b, e, r) =
    rw
      (
        require_string-string branch b,
        require_string-string expected e,
        require_string-string revision r,
      )
      refl

version_refl : (n : ℕ) → (n == n) ≡ true
version_refl n = ground arith

parse_pending-undefined : parse_pending undefined ≡ ok none
unfolding parse_pending
parse_pending-undefined = refl

parse_pending-value :
    (p : PendingCommitPublication)
    → IsSaidPending (some p)
    → parse_pending (value_of_pending p) ≡ ok (some p)
unfolding parse_pending
parse_pending-value (prepared branch expected) h =
    rw (publication-value (prepared branch expected) h) refl
parse_pending-value (published branch expected revision) h =
    rw (publication-value (published branch expected revision) h) refl

module _ {F : Type 0} (P : F → Type 0) (parse_file : Value → Result F) (value_of_file : F → Value)
    (file_back : (f : F) → P f → parse_file (value_of_file f) ≡ ok f) where
  parse_branch-value :
      (name : Text) (b : StoredBranch F)
      → IsStoredBranch P (name, b)
      → parse_branch parse_file (value_of_branch value_of_file b) ≡ ok b
  unfolding parse_branch value_of_branch require_record require_array get text_eq
  parse_branch-value name b (base, files, dirs, gone, renames) =
      rw
        (
          require_string-string b.base_revision base,
          decode_items-items_of P parse_file value_of_file b.files file_back files,
          require_string_array-texts b.directories dirs,
          require_string_array-texts b.deleted_paths gone,
          decode_items-items_of IsSaidRename parse_rename value_of_rename b.renames
              parse_rename-value renames,
        )
        refl

  parse_branches-fields :
      (bs : Dict (StoredBranch F))
      → All (IsStoredBranch P) bs
      → parse_branches parse_file (fields_of_branches value_of_file bs) ≡ ok bs
  unfolding parse_branches fields_of_branches
  parse_branches-fields [] h = refl
  parse_branches-fields ((name, b) ∷ bs) (h, hs) =
      rw (parse_branch-value name b h, parse_branches-fields bs hs) refl

  parse_stored-value_as :
      (version : ℕ) (selected : Text) (branches : Dict (StoredBranch F))
      (pending : Option PendingCommitPublication)
      → let w : StoredWorkspace F = record {
        selected_branch = selected;
        branches = branches;
        pending = pending;
      } in
        IsStored P w
        → parse_stored_workspace parse_file version (value_of_workspace value_of_file version w)
          ≡ ok w
  unfolding parse_stored_workspace value_of_workspace require_record get text_eq
  parse_stored-value_as version selected branches none (s, there, same, p, bs) =
      rw
        (
          version_refl version,
          require_string-string selected s,
          parse_pending-undefined,
          parse_branches-fields branches bs,
          there,
        )
        refl
  parse_stored-value_as version selected branches (some q) (s, there, same, p, bs) =
      rw
        (
          version_refl version,
          require_string-string selected s,
          parse_pending-value q p,
          parse_branches-fields branches bs,
          there,
          same,
        )
        refl

  pub parse_stored-value :
      (version : ℕ) (w : StoredWorkspace F)
      → IsStored P w
      → parse_stored_workspace parse_file version (value_of_workspace value_of_file version w)
        ≡ ok w
  parse_stored-value version w h =
      parse_stored-value_as version w.selected_branch w.branches w.pending h
