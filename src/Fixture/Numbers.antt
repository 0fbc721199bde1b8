-- ===== src/Fixture/Numbers.antt =====
-- packages/adapter-fixture/src: numbers in revision names and cursors.
use remotish.Shared.{
  Text, text_eq, text_eq→eq, [], ◌∷◌, ◌++◌, Bool, true, false, ◌&&◌, leb, ltb, drop, ℕ, zero, suc,
  ◌+◌, ◌-◌, ◌*◌, ◌/◌, ◌%◌, ◌<◌, ◌≡◌, refl, sym, ap, ◌∙◌, arith, Bool-cases, inl, inr,
}
use remotish.Fixture.Commits.{decimal_digits, decimal, revision_name}
use remotish.Fixture.View.{leading_digits}

all_digits : Text → Bool
all_digits [] = true
all_digits (c ∷ s) = (leb 48 c && leb c 57) && all_digits s

all_digits-append :
    (s : Text) (d : ℕ)
    → all_digits s ≡ true
    → (leb 48 d && leb d 57) ≡ true
    → all_digits (s ++ d ∷ []) ≡ true
unfolding all_digits
all_digits-append [] d a h = rw h refl
all_digits-append (c ∷ s) d a h = ground (arith, all_digits-append s d)

leading_digits-append :
    (s : Text) (d m : ℕ)
    → all_digits s ≡ true
    → (leb 48 d && leb d 57) ≡ true
    → leading_digits (s ++ d ∷ []) m ≡ leading_digits s m * 10 + (d - 48)
unfolding leading_digits all_digits
leading_digits-append [] d m a h = rw h refl
leading_digits-append (c ∷ s) d m a h =
    ground (arith, leading_digits-append s d (m * 10 + (c - 48)))

all_digits-decimal_digits : (fuel n : ℕ) → all_digits (decimal_digits fuel n) ≡ true
unfolding decimal_digits
all_digits-decimal_digits zero n = unfold all_digits in refl
all_digits-decimal_digits (suc fuel) n = elim (Bool-cases (ltb n 10)) [
  | inl low ↦ rw low (unfold all_digits in ground (arith, low))
  | inr high ↦ rw high (
      all_digits-append (decimal_digits fuel (n / 10)) (48 + n % 10)
        (all_digits-decimal_digits fuel (n / 10)) (ground arith))
]

leading_digits-decimal_digits :
    (fuel n : ℕ) → n < fuel → leading_digits (decimal_digits fuel n) 0 ≡ n
unfolding decimal_digits
leading_digits-decimal_digits zero n h = absurd (omega (arith, h))
leading_digits-decimal_digits (suc fuel) n h = elim (Bool-cases (ltb n 10)) [
  | inl low ↦ rw low (unfold leading_digits in ground (arith, low))
  | inr high ↦
      let smaller : n / 10 < fuel = ground (arith, high, h) in
      let known = leading_digits-decimal_digits fuel (n / 10) smaller in
      rw
        (
          high,
          leading_digits-append (decimal_digits fuel (n / 10)) (48 + n % 10) 0
              (all_digits-decimal_digits fuel (n / 10)) (ground arith),
          known,
        )
        (omega arith)
]

pub leading_digits-decimal : (n : ℕ) → leading_digits (decimal n) 0 ≡ n
unfolding decimal
leading_digits-decimal n = leading_digits-decimal_digits (suc n) n (omega arith)

revision_name_injective : (m n : ℕ) → revision_name m ≡ revision_name n → m ≡ n
unfolding revision_name
revision_name_injective m n e =
    sym (leading_digits-decimal m)
    ∙ ap (λ s. leading_digits (drop 8 s) 0) e
    ∙ leading_digits-decimal n

-- A later commit has another name.
pub revision_name-differs : (m n : ℕ) → m < n → text_eq (revision_name m) (revision_name n) ≡ false
revision_name-differs m n h = elim (Bool-cases (text_eq (revision_name m) (revision_name n))) [
  | inr other ↦ other
  | inl same ↦ absurd (
      omega (
        arith,
        h,
        revision_name_injective m n (text_eq→eq (revision_name m) (revision_name n) same),
      ))
]
