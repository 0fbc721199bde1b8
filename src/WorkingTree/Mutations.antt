-- ===== src/WorkingTree/Mutations.antt =====
-- packages/core/src/working-tree/mutation-service.ts: `WorkingTreeMutations`. Each operation is a
-- method of the working tree; what it changed before it throws stays changed. The serial executor
-- runs one operation at a time, which is what a method is.
use remotish.Shared.{
  Text, Bytes, text_eq, Result, ok, and_then, throw_code, not_found, invalid_request, Method, pure,
  throw, attempt, modify, guard, ◌>>=◌, ◌>>◌, Option, none, some, List, [], ◌∷◌, ◌++◌, Bool, true,
  false, not, ◌&&◌, ◌||◌, ◌==◌, if◌then◌else◌, is_nil, is_some, length, drop,
}
use remotish.Paths.{normalize_repo_path, parent_path, is_same_or_child}
use remotish.Overlay
use remotish.Overlay.{Overlay, RenameSnapshot}
use remotish.Repository
use remotish.Repository.{Adapter, FileStat}
use remotish.WorkingTree.{
  WorkingTree, stat_at, try_stat_at, read_file_at, read_directory_at, list_visible_files,
  list_visible_directories, is_directory, is_file,
}

abbrev pub on_overlay : (Overlay → Overlay) → Method WorkingTree (Unit {0})
on_overlay f = modify (λ t. record t { overlay = f t.overlay })

unfoldable pub for_each {ℓ} :
    {A : Type ℓ} → List A → (A → Method WorkingTree (Unit {0})) → Method WorkingTree (Unit {0})
unfolding ◌>>=◌
for_each [] f = pure tt
for_each (x ∷ xs) f = f x >> for_each xs f

unfoldable pub equal_bytes : Bytes → Bytes → Bool
equal_bytes [] [] = true
equal_bytes (a ∷ left) (b ∷ right) = a == b && equal_bytes left right
equal_bytes _ _ = false

unfoldable pub require_non_root : Text → Result Text
require_non_root path =
    and_then (normalize_repo_path path)
      λ normalized. if is_nil normalized then throw_code invalid_request else ok normalized

-- `parentPath(path) ?? ''`
abbrev pub parent_or_root : Text → Text
parent_or_root path = elim (parent_path path) [ none ↦ [] | some parent ↦ parent ]

abbrev pub is_directory_stat : Option FileStat → Bool
is_directory_stat none = false
is_directory_stat (some s) = is_directory s

abbrev pub is_file_stat : Option FileStat → Bool
is_file_stat none = false
is_file_stat (some s) = is_file s

-- `tryReadBase`: the base content, if the base has a file there.
unfoldable pub try_read_base : Adapter → Text → Text → Result (Option Bytes)
try_read_base adapter revision path = and_then (Repository.try_stat adapter revision path) λ s.
    if is_file_stat s
    then (and_then (Repository.read_file adapter revision path) λ content. ok (some content))
    else ok none

-- The end of `writeFile`: content equal to the base needs no entry.
unfoldable pub store : Text → Bytes → Option Bytes → Overlay → Overlay
store path content none o = Overlay.set_file path content o
store path content (some base) o =
    if equal_bytes base content
    then Overlay.unmark_deleted path true (Overlay.remove_overlay_path path o)
    else Overlay.set_file path content o

abbrev pub bury : Text → Option FileStat → Overlay → Overlay
bury path base o =
    let cleared = Overlay.remove_overlay_path path o in
    if is_file_stat base
    then Overlay.mark_deleted path cleared
    else Overlay.unmark_deleted path true cleared

abbrev pub mark_if_directory : Text → Option FileStat → Overlay → Overlay
mark_if_directory path base o = if is_directory_stat base then Overlay.mark_deleted path o else o

-- `${to}${path.slice(from.length)}`
abbrev pub moved : Text → Text → Text → Text
moved from to path = to ++ drop (length from) path

module _ (adapter : Adapter) where
  unfoldable pub require_directory : Text → Method WorkingTree (Unit {0})
  unfolding ◌>>=◌
  require_directory path = do
    s ← attempt (stat_at adapter path)
    guard (is_directory s) invalid_request

  unfoldable pub write_file : Text → Bytes → Bool → Bool → Method WorkingTree (Unit {0})
  unfolding ◌>>=◌
  write_file path content create overwrite = do
    normalized ← attempt (λ t. require_non_root path)
    current ← attempt (try_stat_at adapter normalized)
    guard (is_some current || create) not_found
    guard (not (is_some current) || overwrite) invalid_request
    guard (not (is_directory_stat current)) invalid_request
    require_directory (parent_or_root normalized)
    base ← attempt (λ t. try_read_base adapter t.base_revision normalized)
    on_overlay (store normalized content base)

  unfoldable pub create_directory : Text → Method WorkingTree (Unit {0})
  unfolding ◌>>=◌
  create_directory path = do
    normalized ← attempt (λ t. require_non_root path)
    current ← attempt (try_stat_at adapter normalized)
    guard (not (is_some current)) invalid_request
    require_directory (parent_or_root normalized)
    on_overlay (Overlay.set_directory normalized)

  unfoldable pub delete_file_internal : Text → Method WorkingTree (Unit {0})
  unfolding ◌>>=◌
  delete_file_internal path = do
    base ← attempt (λ t. Repository.try_stat adapter t.base_revision path)
    on_overlay (bury path base)

  unfoldable pub read_all : List Text → WorkingTree → Result (List (Text × Bytes))
  read_all [] t = ok []
  read_all (path ∷ rest) t =
      and_then (read_file_at adapter path t)
        λ content. and_then (read_all rest t) λ contents. ok ((path, content) ∷ contents)

  module _ (locale_le : Text → Text → Bool) where
    unfoldable pub delete_directory_internal : Text → Bool → Method WorkingTree (Unit {0})
    unfolding ◌>>=◌
    delete_directory_internal path recursive = do
      entries ← attempt (read_directory_at adapter locale_le path)
      guard (recursive || is_nil entries) invalid_request
      files ← attempt (list_visible_files adapter locale_le path)
      for_each files delete_file_internal
      on_overlay (Overlay.remove_overlay_path path)
      base ← attempt (λ t. Repository.try_stat adapter t.base_revision path)
      on_overlay (mark_if_directory path base)

    unfoldable pub delete_internal : Text → Bool → Method WorkingTree (Unit {0})
    unfolding ◌>>=◌
    delete_internal path recursive = do
      s ← attempt (stat_at adapter path)
      if is_directory s then delete_directory_internal path recursive else delete_file_internal path

    unfoldable pub delete : Text → Bool → Method WorkingTree (Unit {0})
    unfolding ◌>>=◌
    delete path recursive = do
      normalized ← attempt (λ t. require_non_root path)
      delete_internal normalized recursive

    unfoldable pub rename_file : Text → Text → Method WorkingTree (Unit {0})
    unfolding ◌>>=◌
    rename_file from to = do
      content ← attempt (read_file_at adapter from)
      delete_file_internal from
      on_overlay (Overlay.set_file to content)
      on_overlay (Overlay.add_rename from to)

    unfoldable pub rename_directory : Text → Text → Method WorkingTree (Unit {0})
    unfolding ◌>>=◌
    rename_directory from to = do
      files ← attempt (list_visible_files adapter locale_le from)
      directories ← attempt (list_visible_directories adapter locale_le from)
      contents ← attempt (read_all files)
      for_each directories (λ d. on_overlay (Overlay.set_directory (moved from to d)))
      on_overlay (Overlay.set_directory to)
      for_each contents (λ f. on_overlay (Overlay.set_file (moved from to f.0) f.1))
      delete_internal from true
      for_each files (λ f. on_overlay (Overlay.add_rename f (moved from to f)))

    unfoldable pub rename_onto : Text → Text → Bool → Method WorkingTree (Unit {0})
    unfolding ◌>>=◌
    rename_onto from to overwrite = do
      source ← attempt (stat_at adapter from)
      target ← attempt (try_stat_at adapter to)
      guard (not (is_some target) || overwrite) invalid_request
      require_directory (parent_or_root to)
      (if is_some target then delete_internal to true else pure tt)
      if is_directory source then rename_directory from to else rename_file from to

    unfoldable pub rename : Text → Text → Bool → Method WorkingTree (Unit {0})
    unfolding ◌>>=◌
    rename source target overwrite = do
      from ← attempt (λ t. require_non_root source)
      to ← attempt (λ t. require_non_root target)
      if text_eq from to
          then pure tt
          else if is_same_or_child to from
          then throw invalid_request
          else rename_onto from to overwrite

-- The overlay without what hides the base of `path`, or undoes the rename that made `path`.
unfoldable pub revert_overlay : Text → Overlay → Overlay
revert_overlay path o =
    let (found, o') = Overlay.remove_rename_to path o in
    elim found [
      | some r ↦ Overlay.unmark_deleted r.from true (Overlay.remove_overlay_path r.to o')
      | none ↦ Overlay.unmark_deleted path true (Overlay.remove_overlay_path path o')
    ]

unfoldable pub revert : Text → Method WorkingTree (Unit {0})
unfolding ◌>>=◌
revert path = do
  normalized ← attempt (λ t. normalize_repo_path path)
  on_overlay (revert_overlay normalized)

unfoldable pub revert_all : Method WorkingTree (Unit {0})
unfolding ◌>>=◌
revert_all = on_overlay Overlay.clear
