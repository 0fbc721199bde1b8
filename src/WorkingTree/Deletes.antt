-- ===== src/WorkingTree/Deletes.antt =====
-- packages/core/src/working-tree/mutation-service.ts: what `delete` does.
use remotish.Shared.{
  Text, Result, ok, err, throw_code, not_found, Result-cases, Bool-cases, Option, none, some, List,
  [], ◌∷◌, Bool, true, false, not, is_nil, ◌≡◌, refl, ◌⊎◌, inl, inr, arith, ◌∙◌,
}
use remotish.Paths.Tree.{same_or_child_refl}
use remotish.Overlay
use remotish.Overlay.{Overlay, get_file, has_directory, is_deleted}
use remotish.Overlay.Deletion.{is_deleted-mark_deleted}
use remotish.Overlay.Lookup.{
  get_file-remove_overlay_path, has_directory-remove_overlay_path, get_file-unmark_deleted,
  has_directory-unmark_deleted,
}
use remotish.Repository
use remotish.Repository.{Adapter, FileStat, catch_not_found}
use remotish.WorkingTree.{WorkingTree, stat_at, is_directory, list_visible_files}
use remotish.WorkingTree.Mutations.{
  for_each, require_non_root, is_directory_stat, is_file_stat, bury, delete_file_internal,
  mark_if_directory, delete_directory_internal, delete_internal, delete,
}
use mathlib.Core.Path.{subst}

module _ (adapter : Adapter) where
  base_stat : Text → WorkingTree → Result (Option FileStat)
  base_stat p t = Repository.try_stat adapter t.base_revision p

  delete_file_internal-eq :
      (p : Text) (t : WorkingTree)
      → delete_file_internal adapter p t ≡ (elim (base_stat p t) [
        | ok base ↦ (ok tt, record t { overlay = bury p base t.overlay })
        | err e ↦ (err e, t)
      ])
  unfolding delete_file_internal base_stat
  delete_file_internal-eq p t = ground arith

  base-delete_file_internal :
      (p : Text) (t : WorkingTree)
      → (delete_file_internal adapter p t).1.base_revision ≡ t.base_revision
  base-delete_file_internal p t = ground (arith, delete_file_internal-eq p t)

  base-for_each :
      (files : List Text) (t : WorkingTree)
      → (for_each files (delete_file_internal adapter) t).1.base_revision ≡ t.base_revision
  unfolding for_each
  base-for_each [] t = refl
  base-for_each (p ∷ files) t = elim (Result-cases (delete_file_internal adapter p t).0) [
    | inl (u, h) ↦
        rw h
          (base-for_each files (delete_file_internal adapter p t).1 ∙ base-delete_file_internal p t)
    | inr (e, h) ↦ rw h (base-delete_file_internal p t)
  ]

  -- `Gone` says what is found at a path of kind `was_directory` that was deleted: nothing, or what
  -- the base has there, where that is of the other kind.
  pub record Gone (p : Text) (was_directory : Bool) (revision : Text) (t : WorkingTree)
      : Type 0 where
    pub gone :
        (stat_at adapter p t ≡ throw_code not_found)
        ⊎ ((base : FileStat) × (Repository.stat adapter revision p ≡ ok base)
            × (is_directory base ≡ not was_directory)
            × (stat_at adapter p t ≡ ok base))

  stat-deleted :
      (p : Text) (t : WorkingTree)
      → is_nil p ≡ false
      → is_deleted p t.overlay ≡ true
      → stat_at adapter p t ≡ throw_code not_found
  unfolding stat_at
  stat-deleted p t n h = ground (arith, n, h)

  -- Where the overlay holds nothing, only a tombstone or the base is left.
  stat-bare :
      (p : Text) (t : WorkingTree)
      → is_nil p ≡ false
      → get_file p t.overlay ≡ none
      → has_directory p t.overlay ≡ false
      → (stat_at adapter p t ≡ throw_code not_found)
        ⊎ (stat_at adapter p t ≡ Repository.stat adapter t.base_revision p)
  unfolding stat_at
  stat-bare p t n f d = elim (Bool-cases (is_deleted p t.overlay)) [
    | inl h ↦ inl (ground (arith, n, h))
    | inr h ↦ inr (ground (arith, n, h, f, d))
  ]

  try_stat-none :
      (revision p : Text)
      → Repository.try_stat adapter revision p ≡ ok none
      → Repository.stat adapter revision p ≡ throw_code not_found
  unfolding Repository.try_stat catch_not_found
  try_stat-none revision p h = ground arith

  try_stat-some :
      (revision p : Text) (s : FileStat)
      → Repository.try_stat adapter revision p ≡ ok (some s)
      → Repository.stat adapter revision p ≡ ok s
  unfolding Repository.try_stat catch_not_found
  try_stat-some revision p s h = ground arith

  bare-Gone :
      (p : Text) (was_directory : Bool) (base : Option FileStat) (t : WorkingTree)
      → is_nil p ≡ false
      → get_file p t.overlay ≡ none
      → has_directory p t.overlay ≡ false
      → Repository.try_stat adapter t.base_revision p ≡ ok base
      → ((s : FileStat) → base ≡ some s → is_directory s ≡ not was_directory)
      → Gone p was_directory t.base_revision t
  bare-Gone p w none t n f d h k = record {
    gone = elim (stat-bare p t n f d) [
      | inl e ↦ inl e
      | inr e ↦ inl (e ∙ try_stat-none t.base_revision p h)
    ];
  }
  bare-Gone p w (some s) t n f d h k = record {
    gone = elim (stat-bare p t n f d) [
      | inl e ↦ inl e
      | inr e ↦ let b = try_stat-some t.base_revision p s h in inr (s, b, k s refl, e ∙ b)
    ];
  }

  bury-Gone :
      (p : Text) (base : Option FileStat) (t : WorkingTree)
      → is_nil p ≡ false
      → base_stat p t ≡ ok base
      → Gone p false t.base_revision (record t { overlay = bury p base t.overlay })
  unfolding base_stat
  bury-Gone p base t n h =
      let cleared = Overlay.remove_overlay_path p t.overlay in
      let self = same_or_child_refl p in
      elim (Bool-cases (is_file_stat base)) [
        | inl y ↦ record {
          gone = inl (
              stat-deleted p (record t { overlay = bury p base t.overlay }) n
                (ground (arith, y, self, is_deleted-mark_deleted p p cleared)));
        }
        | inr y ↦ rw y (
            bare-Gone p false base (record t { overlay = Overlay.unmark_deleted p true cleared }) n
              (ground (
                arith,
                self,
                get_file-unmark_deleted p p cleared true,
                get_file-remove_overlay_path p p t.overlay,
              ))
              (ground (
                arith,
                self,
                has_directory-unmark_deleted p p cleared true,
                has_directory-remove_overlay_path p p t.overlay,
              ))
              h (λ s e. ground (arith, y, e)))
      ]

  mark-Gone :
      (p : Text) (base : Option FileStat) (t : WorkingTree)
      → is_nil p ≡ false
      → base_stat p t ≡ ok base
      → Gone p true t.base_revision (record t {
        overlay = mark_if_directory p base (Overlay.remove_overlay_path p t.overlay);
      })
  unfolding base_stat
  mark-Gone p base t n h =
      let cleared = Overlay.remove_overlay_path p t.overlay in
      let self = same_or_child_refl p in
      elim (Bool-cases (is_directory_stat base)) [
        | inl y ↦ record {
          gone = inl (
              stat-deleted p (record t { overlay = mark_if_directory p base cleared }) n
                (ground (arith, y, self, is_deleted-mark_deleted p p cleared)));
        }
        | inr y ↦ rw y (
            bare-Gone p true base (record t { overlay = cleared }) n
              (ground (arith, self, get_file-remove_overlay_path p p t.overlay))
              (ground (arith, self, has_directory-remove_overlay_path p p t.overlay)) h
              (λ s e. ground (arith, y, e)))
      ]

  module _ (locale_le : Text → Text → Bool) where
    record Emptied (p : Text) (t t' : WorkingTree) : Type 0 where
      loop : WorkingTree
      base : Option FileStat
      same_base : loop.base_revision ≡ t.base_revision
      read : base_stat p loop ≡ ok base
      after : t' ≡ record loop {
        overlay = mark_if_directory p base (Overlay.remove_overlay_path p loop.overlay);
      }

    delete_directory-Emptied :
        (p : Text) (recursive : Bool) (t t' : WorkingTree)
        → delete_directory_internal adapter locale_le p recursive t ≡ (ok tt, t')
        → Emptied p t t'
    unfolding delete_directory_internal base_stat
    delete_directory-Emptied p recursive t t' h =
        elim (Result-cases (list_visible_files adapter locale_le p t)) [
          | inr (e, q) ↦ absurd (ground (arith, h, q))
          | inl (files, q) ↦
              let u = (for_each files (delete_file_internal adapter) t).1 in
              elim (Result-cases (Repository.try_stat adapter u.base_revision p)) [
                | inr (e, r) ↦ absurd (ground (arith, h, q, r))
                | inl (base, r) ↦ record {
                  loop = u;
                  base = base;
                  same_base = base-for_each files t;
                  read = r;
                  after = ground (arith, h, q, r);
                }
              ]
        ]

    Emptied-Gone :
        (p : Text) (t t' : WorkingTree)
        → is_nil p ≡ false
        → Emptied p t t'
        → Gone p true t.base_revision t'
    Emptied-Gone p t t' n x =
        let u : WorkingTree = record x.loop {
          overlay = mark_if_directory p x.base (Overlay.remove_overlay_path p x.loop.overlay);
        } in
        rw x.after (subst (λ r. Gone p true r u) x.same_base (mark-Gone p x.base x.loop n x.read))

    delete_internal-Gone :
        (p : Text) (recursive : Bool) (s : FileStat) (t t' : WorkingTree)
        → is_nil p ≡ false
        → stat_at adapter p t ≡ ok s
        → delete_internal adapter locale_le p recursive t ≡ (ok tt, t')
        → Gone p (is_directory s) t.base_revision t'
    unfolding delete_internal
    delete_internal-Gone p recursive s t t' n k h = elim (Bool-cases (is_directory s)) [
      | inl y ↦ rw y (
          Emptied-Gone p t t' n
            (delete_directory-Emptied p recursive t t' (ground (arith, h, k, y))))
      | inr y ↦ elim (Result-cases (base_stat p t)) [
        | inl (base, r) ↦
            let e : t' ≡ record t { overlay = bury p base t.overlay } =
              ground (arith, h, k, y, r, delete_file_internal-eq p t) in
            rw (y, e) (bury-Gone p base t n r)
        | inr (e, r) ↦ absurd (ground (arith, h, k, y, r, delete_file_internal-eq p t))
      ]
    ]

    -- After a deletion that returns, the path is not found, unless the base revision has an entry of
    -- the other kind there (a directory where the deleted path was a file, or a file where it was a
    -- directory): then that entry is seen again.
    pub stat-delete :
        (path p : Text) (recursive : Bool) (s : FileStat) (t t' : WorkingTree)
        → require_non_root path ≡ ok p
        → stat_at adapter p t ≡ ok s
        → delete adapter locale_le path recursive t ≡ (ok tt, t')
        → (stat_at adapter p t' ≡ throw_code not_found)
          ⊎ ((base : FileStat) × (Repository.stat adapter t.base_revision p ≡ ok base)
              × (is_directory base ≡ not (is_directory s))
              × (stat_at adapter p t' ≡ ok base))
    unfolding delete
    stat-delete path p recursive s t t' r k h =
        let n : is_nil p ≡ false = unfold require_non_root in ground (arith, r) in
        (delete_internal-Gone p recursive s t t' n k (ground (arith, h, r))).gone
