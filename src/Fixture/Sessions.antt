-- ===== src/Fixture/Sessions.antt =====
-- packages/adapter-fixture/src/fixture-adapter.ts: what holds of the repository in every session.
use remotish.Shared.{
  Text, text_eq, text_eq→eq, Dict, lookup, ok, some, is_some, List, [], ◌∷◌, Bool, true, false,
  ◌||◌, if◌then◌else◌, is_nil, length, ℕ, suc, ◌≡◌, refl, arith, Bool-cases, Option-cases, inl, inr,
  some_injective,
}
use mathlib.Core.Path.{subst}
use remotish.Sdk.{CommitRequest}
use remotish.Sdk.History.{CommitInfo}
use remotish.Fixture.{StoredCommit, Fixture}
use remotish.Fixture.Commits.{revision_name, execute}
use remotish.Fixture.View.{first_parent, first_parent_history}
use remotish.Fixture.Branches.{create_branch, delete_branch, move_head}
use remotish.Fixture.Seed.{seed_commit, seed_commits, create_fixture_repository}
use remotish.Fixture.History.{IsGraph, is_before, Follows, first_parent_history-Follows}
use remotish.Fixture.Invariant.{
  IsSound, HasHeads, IsFresh, execute-IsSound, create_branch-IsSound, delete_branch-IsSound,
  move_head-IsSound,
}

-- The calls of the adapter that change the repository.
pub data Operation : Type 0 where
  commit : CommitRequest → Operation
  new_branch : Text → Text → Operation
  drop_branch : Text → Operation
  moved_head : Text → Text → Operation

module _ (iso_date : ℕ → Text) where
  unfoldable pub run_operation : Operation → Fixture → Fixture
  run_operation (commit r) f = (execute iso_date r f).1
  run_operation (new_branch name revision) f = (create_branch name revision f).1
  run_operation (drop_branch name) f = (delete_branch name f).1
  run_operation (moved_head branch revision) f = (move_head branch revision f).1

  -- The repositories of a session: the first one, and what calls make of them, failures included.
  pub data Made : Fixture → Type 0 where
    seeded : Made create_fixture_repository
    ran : (operation : Operation) (f : Fixture) → Made f → Made (run_operation operation f)

module _ {ℓ} {V : Type ℓ} (p : Text → V → Bool) where
  all_entries : Dict V → Bool
  all_entries [] = true
  all_entries ((k, v) ∷ m) = let rest = all_entries m in if p k v then rest else false

  lookup-all_entries :
      (k : Text) (v : V) (m : Dict V) → all_entries m ≡ true → lookup k m ≡ some v → p k v ≡ true
  unfolding lookup all_entries
  lookup-all_entries k v [] h e = absurd cc
  lookup-all_entries k v ((j, w) ∷ m) h e = elim (Bool-cases (text_eq j k)) [
    | inr other ↦ lookup-all_entries k v m (ground (arith, h)) (rw other at e)
    | inl same ↦
        subst (λ i. p i v ≡ true) (text_eq→eq j k same)
          (subst (λ u. p j u ≡ true) (some_injective (rw same at e)) (ground (arith, h)))
  ]

has_parent_before : Dict StoredCommit → Text → StoredCommit → Bool
has_parent_before m k c = is_nil (first_parent c.info) || is_before (first_parent c.info) k m

seed_tested : all_entries (has_parent_before seed_commits) seed_commits ≡ true
unfolding all_entries has_parent_before seed_commits seed_commit is_before lookup text_eq
seed_tested = refl

heads_tested :
    all_entries (λ name head. is_some (lookup head seed_commits)) create_fixture_repository.branches
    ≡ true
unfolding all_entries create_fixture_repository seed_commits lookup text_eq
heads_tested = refl

seed-IsGraph : IsGraph create_fixture_repository.commits
unfolding create_fixture_repository
seed-IsGraph k c e more =
    let tested =
      lookup-all_entries (has_parent_before seed_commits) k c seed_commits seed_tested e in
    unfold has_parent_before in ground (arith, tested, more)

seed-HasHeads : HasHeads create_fixture_repository
unfolding create_fixture_repository
seed-HasHeads b h e =
    lookup-all_entries (λ name head. is_some (lookup head seed_commits)) b h
      create_fixture_repository.branches heads_tested e

seed-IsFresh : IsFresh create_fixture_repository
unfolding create_fixture_repository seed_commits lookup revision_name text_eq
seed-IsFresh n h = refl

Made-IsSound : (iso_date : ℕ → Text) (f : Fixture) → Made iso_date f → IsSound f
unfolding run_operation
Made-IsSound iso_date f seeded = (seed-IsGraph, seed-HasHeads, seed-IsFresh)
Made-IsSound iso_date f (ran (commit r) g m) =
    execute-IsSound iso_date r g (Made-IsSound iso_date g m)
Made-IsSound iso_date f (ran (new_branch name revision) g m) =
    create_branch-IsSound name revision g (Made-IsSound iso_date g m)
Made-IsSound iso_date f (ran (drop_branch name) g m) =
    delete_branch-IsSound name g (Made-IsSound iso_date g m)
Made-IsSound iso_date f (ran (moved_head branch revision) g m) =
    move_head-IsSound branch revision g (Made-IsSound iso_date g m)

-- In every session of the repository in memory, from its first commits and whatever commits, branch
-- creations, branch deletions and head moves are tried, the walk along first parents from the head
-- of any branch ends within one step more than there are commits, and lists stored commits, each
-- the first parent of the one before, down to one without parents.
pub history-Follows :
    (iso_date : ℕ → Text) (f : Fixture) (branch head : Text)
    → Made iso_date f
    → lookup branch f.branches ≡ some head
    → (h : List CommitInfo) × (first_parent_history (suc (length f.commits)) head f ≡ ok h)
      × Follows f head h
history-Follows iso_date f branch head made e =
    let (graph, heads, fresh) = Made-IsSound iso_date f made in
    elim (Option-cases (lookup head f.commits)) [
      | inl lost ↦ absurd (let x = heads branch head e in let y = rw lost at x in cc)
      | inr (c, known) ↦ first_parent_history-Follows f graph head c known
    ]
