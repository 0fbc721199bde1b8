-- ===== src/WorkingTree/Writes.antt =====
-- packages/core/src/working-tree/mutation-service.ts: what `writeFile` does.
use remotish.Shared.{
  Text, Bytes, text_eq, text_eq→eq, Result, ok, err, and_then, throw_code, not_found,
  invalid_request, Failure, Result-cases, Bool-cases, Option, none, some, [], ◌∷◌, Bool, true,
  false, not, ◌||◌, if◌then◌else◌, is_some, ◌≡◌, refl, inl, inr, arith, text_eq_refl,
}
use remotish.Paths.{normalize_repo_path, is_same_or_child}
use remotish.Paths.Tree.{same_or_child_refl}
use remotish.Overlay
use remotish.Overlay.{Overlay, get_file, has_directory, is_deleted}
use remotish.Overlay.Deletion.{
  is_deleted-set_file_self, is_deleted-unmark_self, is_deleted-set_file, is_deleted-unmark,
  is_deleted-remove_overlay_path,
}
use remotish.Overlay.Lookup.{
  get_file-set_file, get_file-remove_overlay_path, get_file-unmark_deleted,
}
use remotish.Repository
use remotish.Repository.{Adapter, FileStat}
use remotish.WorkingTree.{WorkingTree, stat_at, try_stat_at, read_file_at, read_file, is_directory}
use remotish.WorkingTree.Mutations.{
  equal_bytes, require_non_root, parent_or_root, is_directory_stat, try_read_base,
  require_directory, store, write_file,
}

pub equal_bytes→eq : (a b : Bytes) → equal_bytes a b ≡ true → a ≡ b
unfolding equal_bytes
equal_bytes→eq [] [] h = refl
equal_bytes→eq [] (y ∷ b) h = absurd (ground arith)
equal_bytes→eq (x ∷ a) [] h = absurd (ground arith)
equal_bytes→eq (x ∷ a) (y ∷ b) h = ground (arith, equal_bytes→eq a b)

module _ (adapter : Adapter) where
  -- What `write_file` checks before it writes, in its order, and what it then writes.
  unfoldable pub write_outcome : Text → Bytes → Bool → Bool → WorkingTree → Result Overlay
  write_outcome p content create overwrite t = and_then (try_stat_at adapter p t) λ current.
      if not (is_some current || create)
      then throw_code not_found
      else if not (not (is_some current) || overwrite)
      then throw_code invalid_request
      else if is_directory_stat current
      then throw_code invalid_request
      else (and_then (stat_at adapter (parent_or_root p) t) λ parent.
          if not (is_directory parent)
          then throw_code invalid_request
          else (and_then (try_read_base adapter t.base_revision p)
              λ base. ok (store p content base t.overlay)))

  pub write_file-eq :
      (path p : Text) (content : Bytes) (create overwrite : Bool) (t : WorkingTree)
      → require_non_root path ≡ ok p
      → write_file adapter path content create overwrite t
        ≡ (elim (write_outcome p content create overwrite t) [
          | ok o ↦ (ok tt, record t { overlay = o })
          | err e ↦ (err e, t)
        ])
  unfolding write_file write_outcome require_directory
  write_file-eq path p content create overwrite t h = rw h (ground arith)

  try_read_base-ok :
      (revision p : Text) (b : Bytes)
      → try_read_base adapter revision p ≡ ok (some b)
      → Repository.read_file adapter revision p ≡ ok b
  unfolding try_read_base
  try_read_base-ok revision p b h = ground arith

  read-set_file :
      (p : Text) (content : Bytes) (t : WorkingTree)
      → read_file_at adapter p (record t { overlay = Overlay.set_file p content t.overlay })
        ≡ ok content
  unfolding read_file_at
  read-set_file p content t = ground (
    arith,
    is_deleted-set_file_self p content t.overlay,
    get_file-set_file p p t.overlay content,
    text_eq_refl p,
  )

  read-cleared :
      (p : Text) (t : WorkingTree)
      → read_file_at adapter p (record t {
        overlay = Overlay.unmark_deleted p true (Overlay.remove_overlay_path p t.overlay);
      })
        ≡ Repository.read_file adapter t.base_revision p
  unfolding read_file_at
  read-cleared p t =
      let o = Overlay.remove_overlay_path p t.overlay in
      ground (
        arith,
        is_deleted-unmark_self p o,
        get_file-unmark_deleted p p o true,
        get_file-remove_overlay_path p p t.overlay,
        same_or_child_refl p,
      )

  read-store :
      (p : Text) (content : Bytes) (base : Option Bytes) (t : WorkingTree)
      → try_read_base adapter t.base_revision p ≡ ok base
      → read_file_at adapter p (record t { overlay = store p content base t.overlay }) ≡ ok content
  unfolding store
  read-store p content none t h = read-set_file p content t
  read-store p content (some b) t h = elim (Bool-cases (equal_bytes b content)) [
    | inl same ↦ rw (
      same,
      read-cleared p t,
      try_read_base-ok t.base_revision p b h,
      equal_bytes→eq b content same,
    )
    | inr other ↦ rw other (read-set_file p content t)
  ]

  -- The overlay that a successful write leaves.
  record HasStored (p : Text) (content : Bytes) (t t' : WorkingTree) : Type 0 where
    base : Option Bytes
    read : try_read_base adapter t.base_revision p ≡ ok base
    stored : t' ≡ record t { overlay = store p content base t.overlay }

  write_file-HasStored :
      (path p : Text) (content : Bytes) (create overwrite : Bool) (t t' : WorkingTree)
      → require_non_root path ≡ ok p
      → write_file adapter path content create overwrite t ≡ (ok tt, t')
      → HasStored p content t t'
  unfolding write_outcome
  write_file-HasStored path p content create overwrite t t' h w =
      let e = write_file-eq path p content create overwrite t h in
      elim (Result-cases (try_read_base adapter t.base_revision p)) [
        | inl (base, r) ↦ record { base = base; read = r; stored = ground (arith, e, w, r) }
        | inr (f, r) ↦ absurd (ground (arith, e, w, r))
      ]

  normalize-require :
      (path p : Text) → require_non_root path ≡ ok p → normalize_repo_path path ≡ ok p
  unfolding require_non_root
  normalize-require path p h = ground arith

  -- A write that returns is read back: the content that was written, whether it was stored or is
  -- the content of the base.
  pub read_file-write_file :
      (path : Text) (content : Bytes) (create overwrite : Bool) (t t' : WorkingTree)
      → write_file adapter path content create overwrite t ≡ (ok tt, t')
      → read_file adapter path t' ≡ ok content
  unfolding read_file
  read_file-write_file path content create overwrite t t' w =
      elim (Result-cases (require_non_root path)) [
        | inl (p, h) ↦
            let s = write_file-HasStored path p content create overwrite t t' h w in
            rw (normalize-require path p h, s.stored) (read-store p content s.base t s.read)
        | inr (e, h) ↦ absurd (unfold write_file in ground (arith, w, h))
      ]

  -- A write that throws changes nothing.
  pub write_file_throws :
      (path : Text) (content : Bytes) (create overwrite : Bool) (t t' : WorkingTree) (e : Failure)
      → write_file adapter path content create overwrite t ≡ (err e, t')
      → t' ≡ t
  write_file_throws path content create overwrite t t' e w =
      elim (Result-cases (require_non_root path)) [
        | inl (p, h) ↦ ground (arith, w, write_file-eq path p content create overwrite t h)
        | inr (f, h) ↦ unfold write_file in ground (arith, w, h)
      ]

  is_deleted-store :
      (p q : Text) (content : Bytes) (base : Option Bytes) (o : Overlay)
      → is_deleted q o ≡ false
      → is_deleted q (store p content base o) ≡ false
  unfolding store
  is_deleted-store p q content none o h = is_deleted-set_file p q content o h
  is_deleted-store p q content (some b) o h = elim (Bool-cases (equal_bytes b content)) [
    | inl same ↦ rw same (
        is_deleted-unmark p q true (Overlay.remove_overlay_path p o)
          (rw is_deleted-remove_overlay_path h))
    | inr other ↦ rw other (is_deleted-set_file p q content o h)
  ]

  not-same : (p q : Text) → is_same_or_child q p ≡ false → text_eq p q ≡ false
  not-same p q h = elim (Bool-cases (text_eq p q)) [
    | inl e ↦ absurd (ground (arith, text_eq→eq p q e, same_or_child_refl q, h))
    | inr e ↦ e
  ]

  get_file-store :
      (p q : Text) (content : Bytes) (base : Option Bytes) (o : Overlay)
      → is_same_or_child q p ≡ false
      → get_file q (store p content base o) ≡ get_file q o
  unfolding store
  get_file-store p q content none o h =
      ground (arith, get_file-set_file p q o content, not-same p q h)
  get_file-store p q content (some b) o h = elim (Bool-cases (equal_bytes b content)) [
    | inl same ↦
        rw (same, get_file-unmark_deleted) (ground (arith, get_file-remove_overlay_path p q o, h))
    | inr other ↦ rw other (ground (arith, get_file-set_file p q o content, not-same p q h))
  ]

  -- A write that returns loses no other file: what could be read elsewhere still can, unchanged.
  pub write_file_keeps :
      (path p q : Text) (content c : Bytes) (create overwrite : Bool) (t t' : WorkingTree)
      → require_non_root path ≡ ok p
      → write_file adapter path content create overwrite t ≡ (ok tt, t')
      → is_same_or_child q p ≡ false
      → read_file_at adapter q t ≡ ok c
      → read_file_at adapter q t' ≡ ok c
  unfolding read_file_at
  write_file_keeps path p q content c create overwrite t t' h w n r =
      let s = write_file-HasStored path p content create overwrite t t' h w in
      let visible : is_deleted q t.overlay ≡ false = ground (arith, r) in
      rw s.stored (
        ground (
          arith,
          r,
          visible,
          is_deleted-store p q content s.base t.overlay visible,
          get_file-store p q content s.base t.overlay n,
        ))
