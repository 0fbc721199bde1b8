-- ===== src/Shared/Keys.antt =====
-- JavaScript's `Set` of strings, in the order of insertion.
use mathlib.Core.Path.{◌≡◌, refl, ap, ◌∙◌}
use mathlib.Core.Logic.{inl, inr}
use mathlib.Core.Bool.{Bool, false, not, ◌&&◌, ◌||◌}
use mathlib.Core.List.{List, [], ◌∷◌, ◌++◌}
use native.Mathlib.Omega.{arith}
use remotish.Shared.Tests.{if◌then◌else◌, Bool-cases}
use remotish.Shared.Everywhere.{All}
use remotish.Shared.Lists.{keep, insert_sorted, sort_by}
use remotish.Shared.Texts.{Text, text_eq, text_eq_iff}

-- `set.has(key)`
unfoldable pub contains : Text → List Text → Bool
contains k [] = false
contains k (j ∷ s) = text_eq j k || contains k s

-- `set.add(key)`
unfoldable pub add : Text → List Text → List Text
add k s = if contains k s then s else s ++ k ∷ []

-- `set.delete(key)` for each key that meets the test
abbrev pub leave_out : (Text → Bool) → List Text → List Text
leave_out p = keep (λ j. not (p j))

-- `set.delete(key)`
abbrev pub remove : Text → List Text → List Text
remove k = leave_out (λ j. text_eq j k)

pub contains-append :
    (k : Text) (s t : List Text) → contains k (s ++ t) ≡ (contains k s || contains k t)
unfolding contains
contains-append k [] t = refl
contains-append k (j ∷ s) t = ground (arith, contains-append k s t)

pub contains-add :
    (k j : Text) (s : List Text) → contains j (add k s) ≡ (text_eq k j || contains j s)
unfolding add contains
contains-add k j s = ground (arith, contains-append j s (k ∷ []), text_eq_iff k j)

pub All-add {κ} : (P : Text → Type κ) (k : Text) (s : List Text) → P k → All P s → All P (add k s)
unfolding add
All-add P k s h a = elim (Bool-cases (contains k s)) [
  | inl y ↦ rw y a
  | inr n ↦ rw n (all_append s a)
]
  where
    all_append : (s : List Text) → All P s → All P (s ++ k ∷ [])
    all_append [] a = (h, tt)
    all_append (j ∷ s) (g, a) = (g, all_append s a)

pub contains-leave_out :
    (p : Text → Bool) (j : Text) (s : List Text)
    → contains j (leave_out p s) ≡ (not (p j) && contains j s)
unfolding contains keep
contains-leave_out p j [] = ground arith
contains-leave_out p j (i ∷ s) = ground (arith, text_eq_iff i j, contains-leave_out p j s)

contains-insert_sorted :
    (before : Text → Text → Bool) (p q : Text) (ps : List Text)
    → contains p (insert_sorted before q ps) ≡ (text_eq q p || contains p ps)
unfolding contains insert_sorted
contains-insert_sorted before p q [] = refl
contains-insert_sorted before p q (r ∷ ps) = ground (arith, contains-insert_sorted before p q ps)

pub contains-sort_by :
    (before : Text → Text → Bool) (p : Text) (ps : List Text)
    → contains p (sort_by before ps) ≡ contains p ps
unfolding contains sort_by
contains-sort_by before p [] = refl
contains-sort_by before p (q ∷ ps) =
    contains-insert_sorted before p q (sort_by before ps)
    ∙ ap (λ b. text_eq q p || b) (contains-sort_by before p ps)
