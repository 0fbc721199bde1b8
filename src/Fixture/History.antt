-- ===== src/Fixture/History.antt =====
-- packages/adapter-fixture/src/repository-view.ts: the walk along first parents ends.
use remotish.Shared.{
  Text, text_eq, Dict, lookup, ok, some, is_some, List, [], ◌∷◌, Bool, true, false, if◌then◌else◌,
  is_nil, length, ℕ, zero, suc, ◌<◌, ◌≡◌, refl, arith, Bool-cases, Option-cases, inl, inr,
}
use remotish.Sdk.History.{CommitInfo}
use remotish.Fixture.{StoredCommit, Fixture, require_commit}
use remotish.Fixture.View.{first_parent, first_parent_history}

module _ {ℓ} {V : Type ℓ} where
  -- How many keys come before a key.
  unfoldable pub place : Text → Dict V → ℕ
  place k [] = 0
  place k ((j, v) ∷ m) = let rest = place k m in if text_eq j k then 0 else suc rest

  -- A key comes before another one.
  unfoldable pub is_before : Text → Text → Dict V → Bool
  is_before p k [] = false
  is_before p k ((j, v) ∷ m) =
      let rest = is_before p k m in
      if text_eq j k then false else if text_eq j p then is_some (lookup k m) else rest

  place-lt : (k : Text) (m : Dict V) → is_some (lookup k m) ≡ true → place k m < length m
  unfolding place lookup
  place-lt k [] h = absurd cc
  place-lt k ((j, v) ∷ m) h = ground (arith, place-lt k m)

  place_before : (p k : Text) (m : Dict V) → is_before p k m ≡ true → place p m < place k m
  unfolding place is_before
  place_before p k [] h = absurd cc
  place_before p k ((j, v) ∷ m) h = ground (arith, place_before p k m)

  pub is_before-known :
      (p k : Text) (m : Dict V) → is_before p k m ≡ true → is_some (lookup p m) ≡ true
  unfolding is_before lookup
  is_before-known p k [] h = absurd cc
  is_before-known p k ((j, v) ∷ m) h = ground (arith, is_before-known p k m)

-- The first parent of every commit was there before it.
abbrev pub IsGraph : Dict StoredCommit → Type 0
IsGraph m =
    (k : Text) (c : StoredCommit)
    → lookup k m ≡ some c
    → is_nil (first_parent c.info) ≡ false
    → is_before (first_parent c.info) k m ≡ true

module _ (f : Fixture) where
  -- Commits that are stored, each the first parent of the one before, up to one without parents.
  abbrev pub Follows : Text → List CommitInfo → Type 0
  Follows k [] = is_nil k ≡ true
  Follows k (info ∷ rest) =
      (is_nil k ≡ false)
      × ((c : StoredCommit) × (lookup k f.commits ≡ some c) × (c.info ≡ info))
      × Follows (first_parent info) rest

  history_step :
      (fuel : ℕ) (k : Text) (c : StoredCommit) (rest : List CommitInfo)
      → is_nil k ≡ false
      → lookup k f.commits ≡ some c
      → first_parent_history fuel (first_parent c.info) f ≡ ok rest
      → first_parent_history (suc fuel) k f ≡ ok (c.info ∷ rest)
  unfolding first_parent_history require_commit
  history_step fuel k c rest n e h = rw (n, e, h) refl

  history_stop :
      (fuel : ℕ) (k : Text) → is_nil k ≡ true → first_parent_history (suc fuel) k f ≡ ok []
  unfolding first_parent_history
  history_stop fuel k n = rw n refl

  history_known :
      IsGraph f.commits
      → (fuel : ℕ) (k : Text) (c : StoredCommit) → is_nil k ≡ false
      → lookup k f.commits ≡ some c
      → place k f.commits < fuel
      → (h : List CommitInfo) × (first_parent_history (suc fuel) k f ≡ ok h) × Follows k h
  history_known graph zero k c n e l = absurd (omega (arith, l))
  history_known graph (suc fuel) k c n e l =
      let p = first_parent c.info in
      elim (Bool-cases (is_nil p)) [
        | inl last ↦ (
          c.info ∷ [],
          history_step (suc fuel) k c [] n e (history_stop fuel p last),
          (n, (c, e, refl), last),
        )
        | inr more ↦
            let earlier = graph k c e more in
            let closer = place_before p k f.commits earlier in
            elim (Option-cases (lookup p f.commits)) [
              | inl lost ↦
                  absurd
                    (let x = is_before-known p k f.commits earlier in let y = rw lost at x in cc)
              | inr (d, q) ↦
                  let (rest, h, follows) =
                    history_known graph fuel p d more q (omega (arith, closer, l)) in
                  (
                    c.info ∷ rest,
                    history_step (suc fuel) k c rest n e h,
                    (n, (c, e, refl), follows),
                  )
            ]
      ]

  pub first_parent_history-Follows :
      IsGraph f.commits
      → (k : Text) (c : StoredCommit) → lookup k f.commits ≡ some c
      → (h : List CommitInfo) × (first_parent_history (suc (length f.commits)) k f ≡ ok h)
        × Follows k h
  first_parent_history-Follows graph k c e = elim (Bool-cases (is_nil k)) [
    | inl n ↦ ([], history_stop (length f.commits) k n, n)
    | inr y ↦ history_known graph (length f.commits) k c y e (place-lt k f.commits (rw e refl))
  ]
