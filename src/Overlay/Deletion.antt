-- ===== src/Overlay/Deletion.antt =====
-- packages/core/src/overlay/overlay.ts:
-- What a path's deletion is after each operation on an `Overlay`.
use remotish.Shared.{
  Text, Bytes, text_eq, text_eq_iff, text_eq_refl, contains, add, keep, leave_out, any_of, ◌≡◌,
  refl, List, [], ◌∷◌, ◌++◌, Bool, true, false, ◌&&◌, ◌||◌, arith, Bool-cases, inl, inr,
}
use remotish.Paths.{is_same_or_child}
use remotish.Paths.Tree.{same_or_child_trans}
use remotish.Overlay.{
  Overlay, unmark_deleted, set_file, set_directory, remove_overlay_path, mark_deleted, is_deleted,
}

abbrev covers : Text → Text → Bool
covers path = λ deleted. is_same_or_child path deleted

any_of-append : (p : Text → Bool) (s t : List Text) → any_of p (s ++ t) ≡ (any_of p s || any_of p t)
unfolding any_of
any_of-append p [] t = refl
any_of-append p (x ∷ s) t = ground (arith, any_of-append p s t)

any_of-contains :
    (p : Text → Bool) (x : Text) (s : List Text)
    → contains x s ≡ true
    → p x ≡ true
    → any_of p s ≡ true
unfolding any_of contains
any_of-contains p x [] h e = absurd (ground arith)
any_of-contains p x (y ∷ s) h e = ground (arith, text_eq_iff y x, any_of-contains p x s)

any_of-add : (p : Text → Bool) (x : Text) (s : List Text) → any_of p (add x s) ≡ (p x || any_of p s)
unfolding add
any_of-add p x s = elim (Bool-cases (contains x s)) [
  | inl old ↦ elim (Bool-cases (p x)) [
    | inl e ↦ rw (old, e) (any_of-contains p x s old e)
    | inr e ↦ rw (old, e)
  ]
  | inr new ↦ rw (new, any_of-append p s (x ∷ [])) (unfold any_of in ground arith)
]

any_of_witness :
    (p : Text → Bool) (s : List Text)
    → any_of p s ≡ true
    → (x : Text) × (contains x s ≡ true) × (p x ≡ true)
unfolding any_of contains
any_of_witness p [] h = absurd (ground arith)
any_of_witness p (x ∷ s) h = elim (Bool-cases (p x)) [
  | inl e ↦ (x, ground (arith, text_eq_refl x), e)
  | inr e ↦ let (y, c, q) = any_of_witness p s (ground arith) in (y, ground (arith, c), q)
]

-- A tombstone hides what lies at it and below it, and changes nothing elsewhere.
pub is_deleted-mark_deleted :
    (p q : Text) (o : Overlay)
    → is_deleted q (mark_deleted p o) ≡ (is_same_or_child q p || is_deleted q o)
unfolding is_deleted mark_deleted
is_deleted-mark_deleted p q o = any_of-add (covers q) p o.deleted_paths

any_of-unmark_self :
    (p : Text) (s : List Text)
    → any_of (covers p) (leave_out (λ d. text_eq d p || (true && is_same_or_child p d)) s) ≡ false
unfolding any_of keep
any_of-unmark_self p [] = refl
any_of-unmark_self p (d ∷ s) = ground (arith, any_of-unmark_self p s)

-- A path whose tombstones are removed with those above it is no longer deleted.
pub is_deleted-unmark_self :
    (p : Text) (o : Overlay) → is_deleted p (unmark_deleted p true o) ≡ false
unfolding is_deleted unmark_deleted
is_deleted-unmark_self p o = any_of-unmark_self p o.deleted_paths

any_of-leave_out :
    (p q : Text → Bool) (s : List Text) → any_of p s ≡ false → any_of p (leave_out q s) ≡ false
unfolding any_of keep
any_of-leave_out p q [] h = refl
any_of-leave_out p q (x ∷ s) h = ground (arith, any_of-leave_out p q s)

-- Removing tombstones hides nothing that was visible.
pub is_deleted-unmark :
    (p q : Text) (b : Bool) (o : Overlay)
    → is_deleted q o ≡ false
    → is_deleted q (unmark_deleted p b o) ≡ false
unfolding is_deleted unmark_deleted
is_deleted-unmark p q b o h = any_of-leave_out (covers q) _ o.deleted_paths h

pub is_deleted-set_file_self :
    (p : Text) (c : Bytes) (o : Overlay) → is_deleted p (set_file p c o) ≡ false
unfolding set_file is_deleted
is_deleted-set_file_self p c o = any_of-unmark_self p o.deleted_paths

pub is_deleted-set_file :
    (p q : Text) (c : Bytes) (o : Overlay)
    → is_deleted q o ≡ false
    → is_deleted q (set_file p c o) ≡ false
unfolding set_file is_deleted
is_deleted-set_file p q c o h = any_of-leave_out (covers q) _ o.deleted_paths h

pub is_deleted-set_directory :
    (p q : Text) (o : Overlay) → is_deleted q o ≡ false → is_deleted q (set_directory p o) ≡ false
unfolding set_directory is_deleted
is_deleted-set_directory p q o h = any_of-leave_out (covers q) _ o.deleted_paths h

pub is_deleted-remove_overlay_path :
    (p q : Text) (o : Overlay) → is_deleted q (remove_overlay_path p o) ≡ is_deleted q o
unfolding is_deleted remove_overlay_path
is_deleted-remove_overlay_path p q o = refl

-- What lies below a deleted path is deleted.
pub is_deleted-child :
    (p q : Text) (o : Overlay)
    → is_same_or_child q p ≡ true
    → is_deleted p o ≡ true
    → is_deleted q o ≡ true
unfolding is_deleted
is_deleted-child p q o below h =
    let (d, c, e) = any_of_witness (covers p) o.deleted_paths h in
    any_of-contains (covers q) d o.deleted_paths c (same_or_child_trans q p d below e)
