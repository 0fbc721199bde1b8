-- ===== src/Persistence/Schema.antt =====
-- packages/vscode/src/persistence/workspace-persistence-schema.ts: which workspaces are accepted.
use remotish.Shared.{
  Text, text, Dict, lookup, Result, ok, and_then, and_then-ok, ok_injective, unless-ok, Option,
  none, some, is_some, List, All, Bool, true, false, not, is_nil, ℕ, ◌≡◌, refl, Bool-cases, inl,
  inr,
}
use mathlib.Core.Path.{subst}
use remotish.Overlay
use remotish.Workspace.{PendingCommitPublication, prepared, published}
use remotish.Json.{
  Value, undefined, null, other, boolean, number, string, array, object, instance_of, Fields,
  no_fields, field, get, is_text, decode_items, decode_items-All,
}
use remotish.Persistence.{
  StoredBranch, StoredWorkspace, require_record, require_string, require_array,
  require_string_array, parse_rename, parse_phase, is_prepared_phase,
  parse_pending_commit_publication, parse_pending, is_of_branch, parse_branch, parse_branches,
  parse_stored_workspace,
}

-- Not empty.
abbrev pub IsSaid : Text → Type 0
IsSaid s = is_nil s ≡ false

abbrev pub IsSaidRename : Overlay.RenameSnapshot → Type 0
IsSaidRename r = IsSaid r.from × IsSaid r.to

abbrev pub IsSaidPending : Option PendingCommitPublication → Type 0
IsSaidPending none = Unit
IsSaidPending (some (prepared branch expected)) = IsSaid branch × IsSaid expected
IsSaidPending (some (published branch expected revision)) =
    IsSaid branch × IsSaid expected × IsSaid revision

module _ {F : Type 0} (P : F → Type 0) where
  abbrev pub IsStoredBranch : Text × StoredBranch F → Type 0
  IsStoredBranch (name, b) =
      IsSaid b.base_revision
      × All P b.files
      × All IsSaid b.directories
      × All IsSaid b.deleted_paths
      × All IsSaidRename b.renames

  -- The selected branch is there, a pending publication is of it, and no string is empty.
  abbrev pub IsStored : StoredWorkspace F → Type 0
  IsStored w =
      IsSaid w.selected_branch
      × (is_some (lookup w.selected_branch w.branches) ≡ true)
      × (is_of_branch w.selected_branch w.pending ≡ true)
      × IsSaidPending w.pending
      × All IsStoredBranch w.branches

not-false : (b : Bool) → not b ≡ false → b ≡ true
not-false true h = refl
not-false false h = cc

pub require_string-IsSaid : (v : Value) (s : Text) → require_string v ≡ ok s → IsSaid s
unfolding require_string
require_string-IsSaid (string t) s h =
    let (said, e) = unless-ok (is_nil t) _ _ h in subst IsSaid (ok_injective e) said
require_string-IsSaid undefined s h = absurd cc
require_string-IsSaid null s h = absurd cc
require_string-IsSaid other s h = absurd cc
require_string-IsSaid (boolean b) s h = absurd cc
require_string-IsSaid (number n) s h = absurd cc
require_string-IsSaid (array _) s h = absurd cc
require_string-IsSaid (object _) s h = absurd cc
require_string-IsSaid (instance_of _) s h = absurd cc

require_string_array-IsSaid :
    (v : Value) (ts : List Text) → require_string_array v ≡ ok ts → All IsSaid ts
unfolding require_string_array
require_string_array-IsSaid v ts h =
    let (items, e, h1) = and_then-ok (require_array v) _ h in
    decode_items-All IsSaid require_string items ts require_string-IsSaid h1

parse_rename-IsSaidRename :
    (v : Value) (r : Overlay.RenameSnapshot) → parse_rename v ≡ ok r → IsSaidRename r
unfolding parse_rename
parse_rename-IsSaidRename v r h =
    let (item, e, h1) = and_then-ok (require_record v) _ h in
    let (from, f, h2) = and_then-ok (require_string (get (text "from") item)) _ h1 in
    let (to, t, h3) = and_then-ok (require_string (get (text "to") item)) _ h2 in
    subst IsSaidRename (ok_injective h3)
      (require_string-IsSaid _ from f, require_string-IsSaid _ to t)

publication-IsSaid :
    (v : Value) (p : PendingCommitPublication)
    → parse_pending_commit_publication v ≡ ok p
    → IsSaidPending (some p)
unfolding parse_pending_commit_publication parse_phase
publication-IsSaid v p h =
    let (pending, e, h1) = and_then-ok (require_record v) _ h in
    let (branch, b, h2) = and_then-ok (require_string (get (text "branch") pending)) _ h1 in
    let (expected, r, h3) =
      and_then-ok (require_string (get (text "expectedRemoteRevision") pending)) _ h2 in
    let said = require_string-IsSaid _ branch b in
    let known = require_string-IsSaid _ expected r in
    elim (Bool-cases (is_prepared_phase (get (text "phase") pending))) [
      | inl first ↦
          subst (λ q. IsSaidPending (some q)) (ok_injective (rw first at h3)) (said, known)
      | inr later ↦ elim (Bool-cases (is_text (text "published") (get (text "phase") pending))) [
        | inr strange ↦ absurd (let x = rw (later, strange) at h3 in cc)
        | inl second ↦
            let (revision, q, h4) =
              and_then-ok (require_string (get (text "publishedRevision") pending)) _
                (rw (later, second) at h3) in
            subst (λ q. IsSaidPending (some q)) (ok_injective h4)
              (said, known, require_string-IsSaid _ revision q)
      ]
    ]

some_publication :
    (v : Value) (p : Option PendingCommitPublication)
    → (and_then (parse_pending_commit_publication v) λ q. ok (some q)) ≡ ok p
    → IsSaidPending p
some_publication v p h =
    let (q, e, h1) = and_then-ok (parse_pending_commit_publication v) _ h in
    subst IsSaidPending (ok_injective h1) (publication-IsSaid v q e)

parse_pending-IsSaidPending :
    (v : Value) (p : Option PendingCommitPublication) → parse_pending v ≡ ok p → IsSaidPending p
unfolding parse_pending
parse_pending-IsSaidPending undefined p h = subst IsSaidPending (ok_injective h) tt
parse_pending-IsSaidPending null p h = some_publication null p h
parse_pending-IsSaidPending other p h = some_publication other p h
parse_pending-IsSaidPending (boolean b) p h = some_publication (boolean b) p h
parse_pending-IsSaidPending (number n) p h = some_publication (number n) p h
parse_pending-IsSaidPending (string s) p h = some_publication (string s) p h
parse_pending-IsSaidPending (array items) p h = some_publication (array items) p h
parse_pending-IsSaidPending (object fields) p h = some_publication (object fields) p h
parse_pending-IsSaidPending (instance_of fields) p h = some_publication (instance_of fields) p h

module _ {F : Type 0} (P : F → Type 0) (parse_file : Value → Result F)
    (file_is : (v : Value) (f : F) → parse_file v ≡ ok f → P f) where
  parse_branch-IsStoredBranch :
      (name : Text) (v : Value) (b : StoredBranch F)
      → parse_branch parse_file v ≡ ok b
      → IsStoredBranch P (name, b)
  unfolding parse_branch
  parse_branch-IsStoredBranch name v b h =
      let (branch, e1, h1) = and_then-ok (require_record v) _ h in
      let (overlay, e2, h2) = and_then-ok (require_record (get (text "overlay") branch)) _ h1 in
      let (base, e3, h3) = and_then-ok (require_string (get (text "baseRevision") branch)) _ h2 in
      let (items, e4, h4) = and_then-ok (require_array (get (text "files") overlay)) _ h3 in
      let (files, e5, h5) = and_then-ok (decode_items parse_file items) _ h4 in
      let (dirs, e6, h6) =
        and_then-ok (require_string_array (get (text "directories") overlay)) _ h5 in
      let (gone, e7, h7) =
        and_then-ok (require_string_array (get (text "deletedPaths") overlay)) _ h6 in
      let (rows, e8, h8) = and_then-ok (require_array (get (text "renames") overlay)) _ h7 in
      let (renames, e9, h9) = and_then-ok (decode_items parse_rename rows) _ h8 in
      subst (λ c. IsStoredBranch P (name, c)) (ok_injective h9)
        (
          require_string-IsSaid _ base e3,
          decode_items-All P parse_file items files file_is e5,
          require_string_array-IsSaid _ dirs e6,
          require_string_array-IsSaid _ gone e7,
          decode_items-All IsSaidRename parse_rename rows renames parse_rename-IsSaidRename e9,
        )

  parse_branches-AreStored :
      (fields : Fields) (bs : Dict (StoredBranch F))
      → parse_branches parse_file fields ≡ ok bs
      → All (IsStoredBranch P) bs
  unfolding parse_branches
  parse_branches-AreStored no_fields bs h = subst (All (IsStoredBranch P)) (ok_injective h) tt
  parse_branches-AreStored (field name v fields) bs h =
      let (b, e, h1) = and_then-ok (parse_branch parse_file v) _ h in
      let (rest, f, h2) = and_then-ok (parse_branches parse_file fields) _ h1 in
      subst (All (IsStoredBranch P)) (ok_injective h2)
        (parse_branch-IsStoredBranch name v b e, parse_branches-AreStored fields rest f)

  pub parse_stored_workspace-IsStored :
      (version : ℕ) (v : Value) (w : StoredWorkspace F)
      → parse_stored_workspace parse_file version v ≡ ok w
      → IsStored P w
  unfolding parse_stored_workspace
  parse_stored_workspace-IsStored version v w h =
      let (root, e1, h1) = and_then-ok (require_record v) _ h in
      let (right, h2) = unless-ok _ _ _ h1 in
      let (selected, e3, h3) =
        and_then-ok (require_string (get (text "selectedBranch") root)) _ h2 in
      let (raw, e4, h4) = and_then-ok (require_record (get (text "branches") root)) _ h3 in
      let (pending, e5, h5) =
        and_then-ok (parse_pending (get (text "pendingCommitPublication") root)) _ h4 in
      let (branches, e6, h6) = and_then-ok (parse_branches parse_file raw) _ h5 in
      let (there, h7) = unless-ok _ _ _ h6 in
      let (same, h8) = unless-ok _ _ _ h7 in
      subst (IsStored P) (ok_injective h8) (
        require_string-IsSaid _ selected e3,
        not-false _ there,
        not-false _ same,
        parse_pending-IsSaidPending _ pending e5,
        parse_branches-AreStored raw branches e6,
      )
