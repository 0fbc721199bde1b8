-- ===== src/Examples/Stored.antt =====
-- Workspaces that are stored and loaded.
use remotish.Shared.{
  Text, Bytes, text, text_eq, text_eq→eq, Result, ok, err, other_error, some, [], ◌∷◌, true,
  if◌then◌else◌, lookup, ◌≡◌, refl, sym, ap, arith, Bool-cases, inl, inr, ok_injective, text_le,
}
use mathlib.Core.Path.{subst}
use remotish.Overlay.{Overlay, snapshot, restore}
use remotish.Overlay.Restore.{HasRepositoryPaths, LooksLike, restore-snapshot}
use remotish.Paths.{normalize_repo_path}
use remotish.Workspace.{WorkspaceSnapshot, prepared}
use remotish.Json.{Value}
use remotish.Persistence.{value_of_workspace}
use remotish.Persistence.Memento.{encode_workspace_snapshot, decode_workspace_snapshot}
use remotish.Persistence.StorageUri.{
  StoredBlobReference, is_sha256, are_hex, encode_files, encode_branches,
  encode_storage_uri_workspace_manifest, decode_storage_uri_workspace_manifest, value_of_file,
}
use remotish.Persistence.Snapshots.{
  IsStorable, IsStorableFile, decode_workspace_snapshot-encode,
  decode_workspace_snapshot-IsStorable,
}
use remotish.Persistence.Manifests.{
  HasPath, IsBlobStorage, decode_storage_uri_workspace_manifest-encode,
}

abbrev edited : WorkspaceSnapshot
edited = record {
  selected_branch = text "m";
  branches =
      (
        text "m",
        record {
          base_revision = text "r";
          overlay = record {
            files = record { path = text "d/b"; content = 7 ∷ [] } ∷ [];
            directories = text "d" ∷ [];
            deleted_paths = text "a" ∷ [];
            renames = record { from = text "a"; to = text "d/b" } ∷ [];
          };
        },
      )
      ∷ [];
  pending_commit_publication = some (prepared (text "m") (text "r"));
}

edited-IsStorable : IsStorable IsStorableFile edited
unfolding lookup text_eq
edited-IsStorable = (
  refl,
  refl,
  refl,
  (refl, refl),
  ((refl, ((refl, (omega arith, tt)), tt), (refl, tt), (refl, tt), ((refl, refl), tt)), tt),
)

decode_workspace_snapshot-encode_example :
    decode_workspace_snapshot (encode_workspace_snapshot edited) ≡ ok edited
decode_workspace_snapshot-encode_example = decode_workspace_snapshot-encode edited edited-IsStorable

decode_workspace_snapshot-IsStorable_example : IsStorable IsStorableFile edited
decode_workspace_snapshot-IsStorable_example =
    decode_workspace_snapshot-IsStorable (encode_workspace_snapshot edited) edited
      decode_workspace_snapshot-encode_example

-- A storage that holds one blob.
abbrev hash : Text
hash = text "0123456789abcdef0123456789abcdef0123456789abcdef0123456789abcdef"

abbrev seven : StoredBlobReference
seven = record { sha256 = hash; size = 1 }

abbrev store_seven : Bytes → Result StoredBlobReference
store_seven content = if text_eq content (7 ∷ []) then ok seven else err other_error

abbrev read_seven : StoredBlobReference → Result Bytes
read_seven blob = ok (7 ∷ [])

hash_tested : is_sha256 hash ≡ true
unfolding is_sha256 are_hex
hash_tested = refl

seven-IsBlobStorage : IsBlobStorage store_seven read_seven
seven-IsBlobStorage content blob e = elim (Bool-cases (text_eq content (7 ∷ []))) [
  | inr other ↦ absurd (let x = rw other at e in cc)
  | inl same ↦
      let it : seven ≡ blob = ok_injective (rw same at e) in
      (
        subst (λ b. is_sha256 b.sha256 ≡ true) it hash_tested,
        ap ok (sym (text_eq→eq content (7 ∷ []) same)),
      )
]

edited-HasPath : IsStorable HasPath edited
unfolding lookup text_eq
edited-HasPath = (
  refl,
  refl,
  refl,
  (refl, refl),
  ((refl, (refl, tt), (refl, tt), (refl, tt), ((refl, refl), tt)), tt),
)

abbrev manifest : Value
manifest = value_of_workspace value_of_file 2 (record {
  selected_branch = text "m";
  branches =
      (
        text "m",
        record {
          base_revision = text "r";
          files = record { path = text "d/b"; blob = seven } ∷ [];
          directories = text "d" ∷ [];
          deleted_paths = text "a" ∷ [];
          renames = record { from = text "a"; to = text "d/b" } ∷ [];
        },
      )
      ∷ [];
  pending = some (prepared (text "m") (text "r"));
})

encode_edited : encode_storage_uri_workspace_manifest store_seven edited ≡ ok manifest
unfolding encode_storage_uri_workspace_manifest encode_branches encode_files text_eq
encode_edited = refl

decode_storage_uri_workspace_manifest-encode_example :
    decode_storage_uri_workspace_manifest read_seven manifest ≡ ok edited
decode_storage_uri_workspace_manifest-encode_example =
    decode_storage_uri_workspace_manifest-encode store_seven read_seven seven-IsBlobStorage edited
      manifest edited-HasPath encode_edited

abbrev moved : Overlay
moved = record {
  files = (text "d/b", 7 ∷ []) ∷ (text "c", 1 ∷ []) ∷ [];
  directories = text "d" ∷ [];
  deleted_paths = text "b" ∷ text "a" ∷ [];
  renames = record { from = text "a"; to = text "d/b" } ∷ [];
}

moved-HasRepositoryPaths : HasRepositoryPaths moved
unfolding normalize_repo_path lookup text_eq
moved-HasRepositoryPaths =
    ((refl, refl, (refl, refl, tt)), (refl, tt), (refl, (refl, tt)), ((refl, refl), tt))

restore-snapshot_example :
    (o : Overlay) × (restore (snapshot text_le moved) ≡ ok o) × LooksLike o moved
restore-snapshot_example = restore-snapshot text_le moved moved-HasRepositoryPaths
