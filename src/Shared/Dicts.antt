-- ===== src/Shared/Dicts.antt =====
-- JavaScript's `Map` with string keys: entries in the order of insertion, where `set` on a key that
-- is there keeps its place.
use mathlib.Core.Path.{◌≡◌, refl}
use mathlib.Core.Bool.{Bool}
use mathlib.Core.Option.{Option, none, some}
use mathlib.Core.List.{List, [], ◌∷◌}
use native.Mathlib.Omega.{arith}
use remotish.Shared.Tests.{if◌then◌else◌}
use remotish.Shared.Texts.{Text, text_eq, text_eq_iff}

abbrev pub Dict {ℓ} : Type ℓ → Type ℓ
Dict V = List (Text × V)

module _ {ℓ} {V : Type ℓ} where
  -- `map.get(key)`
  unfoldable pub lookup : Text → Dict V → Option V
  lookup k [] = none
  lookup k ((j, v) ∷ m) = if text_eq j k then some v else lookup k m

  -- `map.set(key, value)`
  unfoldable pub insert : Text → V → Dict V → Dict V
  insert k v [] = (k, v) ∷ []
  insert k v ((j, w) ∷ m) = if text_eq j k then (j, v) ∷ m else (j, w) ∷ insert k v m

  -- `map.delete(key)` for each key that meets the test
  unfoldable pub without : (Text → Bool) → Dict V → Dict V
  without p [] = []
  without p ((j, v) ∷ m) = let rest = without p m in if p j then rest else (j, v) ∷ rest

  -- `map.delete(key)`
  abbrev pub delete : Text → Dict V → Dict V
  delete k = without (λ j. text_eq j k)

  pub lookup-insert :
      (k j : Text) (v : V) (m : Dict V)
      → lookup j (insert k v m) ≡ (if text_eq k j then some v else lookup j m)
  unfolding lookup insert
  lookup-insert k j v [] = refl
  lookup-insert k j v ((i, w) ∷ m) =
      ground (arith, text_eq_iff k j, text_eq_iff i k, text_eq_iff i j, lookup-insert k j v m)

  pub lookup-without :
      (p : Text → Bool) (j : Text) (m : Dict V)
      → lookup j (without p m) ≡ (if p j then none else lookup j m)
  unfolding lookup without
  lookup-without p j [] = ground arith
  lookup-without p j ((i, w) ∷ m) = ground (arith, text_eq_iff i j, lookup-without p j m)
