-- ===== src/Shared/Texts.antt =====
-- A JavaScript string is the list of its UTF-16 code units, and a `Uint8Array` the list of its
-- bytes.
use Prim.Native.Nat.{ℕ, compare, Ordering}
use Prim.Native.Char.{code}
use Prim.Native.String.{String}
use mathlib.Core.Path.{◌≡◌, refl}
use mathlib.Core.Logic.{◌↔◌}
use mathlib.Core.Bool.{Bool, true, false, ◌&&◌}
use mathlib.Core.List.{List, [], ◌∷◌, ◌++◌}
use native.Mathlib.Omega.{arith}
use remotish.Shared.Tests.{◌==◌}

abbrev pub Text : Type 0
Text = List ℕ

abbrev pub Bytes : Type 0
Bytes = List ℕ

abbrev pub text : String → Text
text String.[] = []
text (String.◌∷◌ c s) = code c ∷ text s

-- `===` on strings
unfoldable pub text_eq : Text → Text → Bool
text_eq [] [] = true
text_eq (a ∷ s) (b ∷ t) = a == b && text_eq s t
text_eq _ _ = false

pub text_eq→eq : (s t : Text) → text_eq s t ≡ true → s ≡ t
unfolding text_eq
text_eq→eq [] [] h = refl
text_eq→eq [] (b ∷ t) h = ground arith
text_eq→eq (a ∷ s) [] h = ground arith
text_eq→eq (a ∷ s) (b ∷ t) h = ground (arith, text_eq→eq s t)

pub text_eq_refl : (s : Text) → text_eq s s ≡ true
unfolding text_eq
text_eq_refl [] = refl
text_eq_refl (a ∷ s) = ground (arith, text_eq_refl s)

pub text_eq_iff : (s t : Text) → (text_eq s t ≡ true) ↔ (s ≡ t)
text_eq_iff s t = (text_eq→eq s t, λ e. rw e (text_eq_refl t))

-- `text.startsWith(prefix)`
unfoldable pub starts_with : Text → Text → Bool
starts_with t [] = true
starts_with [] (b ∷ p) = false
starts_with (a ∷ t) (b ∷ p) = a == b && starts_with t p

pub starts_with-append : (p r : Text) → starts_with (p ++ r) p ≡ true
unfolding starts_with
starts_with-append [] r = refl
starts_with-append (b ∷ p) r = ground (arith, starts_with-append p r)

pub starts_with→append : (t p : Text) → starts_with t p ≡ true → (r : Text) × (t ≡ p ++ r)
unfolding starts_with
starts_with→append t [] h = (t, refl)
starts_with→append [] (b ∷ p) h = absurd (ground arith)
starts_with→append (a ∷ t) (b ∷ p) h =
    let (r, e) = starts_with→append t p (ground arith) in (r, ground arith)

-- The order of `Array.prototype.sort` on strings: by code units.
unfoldable pub text_le : Text → Text → Bool
text_le [] t = true
text_le (a ∷ s) [] = false
text_le (a ∷ s) (b ∷ t) =
    let rest = text_le s t in
    elim (compare a b) [ Ordering.lt ↦ true | Ordering.gt ↦ false | Ordering.eq ↦ rest ]
