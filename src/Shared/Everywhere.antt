-- ===== src/Shared/Everywhere.antt =====
-- What holds of every element of a list.
use mathlib.Core.Path.{refl}
use mathlib.Core.Logic.{inl, inr}
use mathlib.Core.Bool.{Bool}
use mathlib.Core.List.{List, [], ◌∷◌, Memᴰ}
use mathlib.Core.List.Memᴰ.{head, tail}
use remotish.Shared.Tests.{Bool-cases}
use remotish.Shared.Lists.{keep, insert_sorted, sort_by}

module _ {ℓ κ} {A : Type ℓ} (P : A → Type κ) where
  abbrev pub All : List A → Type κ
  All [] = Unit
  All (x ∷ xs) = P x × All xs

  pub All-keep : (p : A → Bool) (xs : List A) → All xs → All (keep p xs)
  unfolding keep
  All-keep p [] a = a
  All-keep p (x ∷ xs) (a, rest) = elim (Bool-cases (p x)) [
    | inl y ↦ rw y (a, All-keep p xs rest)
    | inr n ↦ rw n (All-keep p xs rest)
  ]

  pub All-insert_sorted :
      (before : A → A → Bool) (x : A) (xs : List A) → P x → All xs → All (insert_sorted before x xs)
  unfolding insert_sorted
  All-insert_sorted before x [] p a = (p, a)
  All-insert_sorted before x (y ∷ ys) p (q, a) = elim (Bool-cases (before x y)) [
    | inl h ↦ rw h (p, (q, a))
    | inr n ↦ rw n (q, All-insert_sorted before x ys p a)
  ]

  pub All-sort_by : (before : A → A → Bool) (xs : List A) → All xs → All (sort_by before xs)
  unfolding sort_by
  All-sort_by before [] a = a
  All-sort_by before (x ∷ xs) (p, a) =
      All-insert_sorted before x (sort_by before xs) p (All-sort_by before xs a)

All-later {ℓ} :
    {A : Type ℓ} (x : A) (ys zs : List A) → All (λ y. Memᴰ y zs) ys → All (λ y. Memᴰ y (x ∷ zs)) ys
All-later x [] zs a = tt
All-later x (y ∷ ys) zs (i, a) = (tail i, All-later x ys zs a)

pub All-ends {ℓ} : {A : Type ℓ} (xs : List A) → All (λ x. Memᴰ x xs) xs
All-ends [] = tt
All-ends (x ∷ xs) = (head refl, All-later x xs xs (All-ends xs))
