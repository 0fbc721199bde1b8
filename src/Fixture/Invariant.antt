-- ===== src/Fixture/Invariant.antt =====
-- packages/adapter-fixture/src: what every operation of the repository keeps.
use remotish.Shared.{
  ◌>>=◌, Result-cases, Text, Bytes, some_injective, text_eq, text_eq→eq, text_eq_iff, text_eq_refl,
  Dict, lookup, insert, delete, lookup-insert, lookup-without, Result, ok, none, some, is_some, [],
  ◌∷◌, Bool, true, false, if◌then◌else◌, is_nil, ℕ, ◌≤◌, ◌≡◌, refl, sym, ◌∙◌, arith, Bool-cases,
  Option-cases, inl, inr,
}
use mathlib.Core.Path.{subst}
use remotish.Sdk.{CommitRequest}
use remotish.Sdk.History.{PublishedCommit}
use remotish.Fixture.{StoredCommit, Fixture, require_commit}
use remotish.Fixture.Commits.{revision_name, execute, info_of}
use remotish.Fixture.View.{first_parent, first_of}
use remotish.Fixture.Branches.{
  add_branch, require_branch, set_head, create_branch, delete_branch, move_head,
  validate_branch_name,
}
use remotish.Fixture.Engine.{
  Outcome, refused, outdated, published, parents_of, replaces_head, published_state, stored_commit,
  execute-Outcome,
}
use remotish.Fixture.History.{IsGraph, is_before, is_before-known}
use remotish.Fixture.Numbers.{revision_name-differs}

module _ {ℓ} {V : Type ℓ} where
  is_before-insert :
      (p k j : Text) (v : V) (m : Dict V)
      → is_before p k m ≡ true
      → is_before p k (insert j v m) ≡ true
  unfolding is_before insert lookup
  is_before-insert p k j v [] h = absurd cc
  is_before-insert p k j v ((i, w) ∷ m) h = ground (
    arith,
    text_eq_iff i j,
    text_eq_iff i k,
    text_eq_iff i p,
    text_eq_iff j k,
    lookup-insert j k v m,
    is_before-insert p k j v m,
  )

  is_before-new :
      (p j : Text) (v : V) (m : Dict V)
      → is_some (lookup p m) ≡ true
      → lookup j m ≡ none
      → is_before p j (insert j v m) ≡ true
  unfolding is_before insert lookup
  is_before-new p j v [] h n = absurd cc
  is_before-new p j v ((i, w) ∷ m) h n = ground (
    arith,
    text_eq_iff i j,
    text_eq_iff i p,
    text_eq_refl j,
    lookup-insert j j v m,
    is_before-new p j v m,
  )

abbrev pub HasHeads : Fixture → Type 0
HasHeads f = (b h : Text) → lookup b f.branches ≡ some h → is_some (lookup h f.commits) ≡ true

abbrev pub IsFresh : Fixture → Type 0
IsFresh f = (n : ℕ) → f.sequence ≤ n → lookup (revision_name n) f.commits ≡ none

-- Parents are older commits, heads are commits, and the next names are free.
abbrev pub IsSound : Fixture → Type 0
IsSound f = IsGraph f.commits × HasHeads f × IsFresh f

IsGraph-insert :
    (m : Dict StoredCommit) (j : Text) (s : StoredCommit)
    → IsGraph m
    → lookup j m ≡ none
    → (is_nil (first_parent s.info) ≡ false → is_some (lookup (first_parent s.info) m) ≡ true)
    → IsGraph (insert j s m)
IsGraph-insert m j s graph free known k c e p =
    let found : (if text_eq j k then some s else lookup k m) ≡ some c =
      sym (lookup-insert j k s m) ∙ e in
    elim (Bool-cases (text_eq j k)) [
      | inl same ↦
          let made : s ≡ c = some_injective (rw same at found) in
          subst (λ c'. is_before (first_parent c'.info) k (insert j s m) ≡ true) made
            (subst (λ k'. is_before (first_parent s.info) k' (insert j s m) ≡ true)
              (text_eq→eq j k same)
              (is_before-new (first_parent s.info) j s m
                (known (subst (λ c'. is_nil (first_parent c'.info) ≡ false) (sym made) p)) free))
      | inr other ↦ is_before-insert (first_parent c.info) k j s m (graph k c (rw other at found) p)
    ]

module _ {ℓ} {V : Type ℓ} where
  is_some-insert :
      (k j : Text) (v : V) (m : Dict V)
      → is_some (lookup k m) ≡ true
      → is_some (lookup k (insert j v m)) ≡ true
  is_some-insert k j v m h = rw (lookup-insert j k v m) (ground (arith, h))

  is_some-new : (j : Text) (v : V) (m : Dict V) → is_some (lookup j (insert j v m)) ≡ true
  is_some-new j v m = rw (lookup-insert j j v m, text_eq_refl j) refl

-- A branch that is set to a commit.
HasHeads-insert :
    (f : Fixture) (branch revision : Text)
    → HasHeads f
    → is_some (lookup revision f.commits) ≡ true
    → HasHeads (record f { branches = insert branch revision f.branches })
HasHeads-insert f branch revision heads known b h e =
    let found : (if text_eq branch b then some revision else lookup b f.branches) ≡ some h =
      sym (lookup-insert branch b revision f.branches) ∙ e in
    elim (Bool-cases (text_eq branch b)) [
      | inl same ↦
          subst (λ r. is_some (lookup r f.commits) ≡ true) (some_injective (rw same at found)) known
      | inr other ↦ heads b h (rw other at found)
    ]

module _ (iso_date : ℕ → Text) (r : CommitRequest) (f : Fixture) (sound : IsSound f) where
  -- The first parent of a commit that is published is stored.
  first_of-known :
      (base : StoredCommit) (amends : Bool)
      → lookup r.base_revision f.commits ≡ some base
      → let p = first_of (if amends then base.info.parents else r.base_revision ∷ []) in
        is_nil p ≡ false → is_some (lookup p f.commits) ≡ true
  first_of-known base true e p =
      is_before-known (first_parent base.info) r.base_revision f.commits
        (sound.0 r.base_revision base e p)
  first_of-known base false e p = rw e refl

  published-IsSound :
      (base : StoredCommit) (files : Dict Bytes)
      → lookup r.base_revision f.commits ≡ some base
      → IsSound (published_state iso_date r f (parents_of r base) files)
  unfolding info_of
  published-IsSound base files at_base =
      let (graph, heads, fresh) = sound in
      let name = revision_name f.sequence in
      let stored = stored_commit iso_date r f (parents_of r base) files in
      let free = fresh f.sequence (omega arith) in
      (
        IsGraph-insert f.commits name stored graph free
            (first_of-known base (replaces_head r) at_base),
        HasHeads-insert (record f { commits = insert name stored f.commits }) r.branch name
            (λ b h e. is_some-insert h name stored f.commits (heads b h e))
            (is_some-new name stored f.commits),
        λ n later.
            lookup-insert name (revision_name n) stored f.commits
            ∙ (rw (revision_name-differs f.sequence n later) (fresh n (omega (arith, later)))),
      )

  Outcome-IsSound : (x : Result PublishedCommit × Fixture) → Outcome iso_date r f x → IsSound x.1
  Outcome-IsSound (q, g) (refused e) = sound
  Outcome-IsSound (q, g) (outdated head h n) = sound
  Outcome-IsSound (q, g) (published base parents files h b a m p) =
      subst (λ ps. IsSound (published_state iso_date r f ps files)) (sym p)
        (published-IsSound base files b)

  pub execute-IsSound : IsSound (execute iso_date r f).1
  execute-IsSound = Outcome-IsSound (execute iso_date r f) (execute-Outcome iso_date r f)

require_commit-known :
    (revision : Text) (f : Fixture) (c : StoredCommit)
    → require_commit revision f ≡ ok c
    → is_some (lookup revision f.commits) ≡ true
unfolding require_commit
require_commit-known revision f c h = elim (Option-cases (lookup revision f.commits)) [
  | inl n ↦ absurd (let x = rw n at h in cc)
  | inr (d, e) ↦ rw e refl
]

set_to-IsSound :
    (branch revision : Text) (f : Fixture)
    → IsSound f
    → is_some (lookup revision f.commits) ≡ true
    → IsSound (record f { branches = insert branch revision f.branches })
set_to-IsSound branch revision f sound known =
    (sound.0, HasHeads-insert f branch revision sound.1 known, sound.2)

add_branch-IsSound :
    (name revision : Text) (f : Fixture)
    → IsSound f
    → is_some (lookup revision f.commits) ≡ true
    → IsSound (add_branch name revision f).1
unfolding add_branch
add_branch-IsSound name revision f sound known =
    elim (Bool-cases (is_some (lookup name f.branches))) [
      | inl taken ↦ rw taken sound
      | inr free ↦ rw free (set_to-IsSound name revision f sound known)
    ]

pub create_branch-IsSound :
    (name revision : Text) (f : Fixture) → IsSound f → IsSound (create_branch name revision f).1
unfolding create_branch ◌>>=◌
create_branch-IsSound name revision f sound = elim (Result-cases (validate_branch_name name)) [
  | inr (e, n) ↦ rw n sound
  | inl (normalized, n) ↦ elim (Result-cases (require_commit revision f)) [
    | inr (e, m) ↦ rw (n, m) sound
    | inl (c, m) ↦
        rw (n, m)
          (add_branch-IsSound normalized revision f sound (require_commit-known revision f c m))
  ]
]

HasHeads-delete :
    (f : Fixture) (name : Text)
    → HasHeads f
    → HasHeads (record f { branches = delete name f.branches })
HasHeads-delete f name heads b h e =
    let found : (if text_eq b name then none else lookup b f.branches) ≡ some h =
      sym (lookup-without (λ j. text_eq j name) b f.branches) ∙ e in
    elim (Bool-cases (text_eq b name)) [
      | inl same ↦ absurd (let x = rw same at found in cc)
      | inr other ↦ heads b h (rw other at found)
    ]

pub delete_branch-IsSound :
    (name : Text) (f : Fixture) → IsSound f → IsSound (delete_branch name f).1
unfolding delete_branch
delete_branch-IsSound name f sound = elim (Bool-cases (text_eq name f.info.default_branch)) [
  | inl default ↦ rw default sound
  | inr other ↦ elim (Bool-cases (is_some (lookup name f.branches))) [
    | inr missing ↦ rw (other, missing) sound
    | inl there ↦ rw (other, there) (sound.0, HasHeads-delete f name sound.1, sound.2)
  ]
]

pub move_head-IsSound :
    (branch revision : Text) (f : Fixture) → IsSound f → IsSound (move_head branch revision f).1
unfolding move_head ◌>>=◌ require_branch set_head
move_head-IsSound branch revision f sound = elim (Bool-cases (is_some (lookup branch f.branches))) [
  | inr missing ↦ rw missing sound
  | inl there ↦ elim (Result-cases (require_commit revision f)) [
    | inr (e, m) ↦ rw (there, m) sound
    | inl (c, m) ↦
        rw (there, m) (set_to-IsSound branch revision f sound (require_commit-known revision f c m))
  ]
]
