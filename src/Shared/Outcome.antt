-- ===== src/Shared/Outcome.antt =====
-- What code that may throw comes to: packages/adapter-sdk/src/errors.ts, and methods that change an
-- object before they throw.

use mathlib.Core.Path.{◌≡◌, refl}
use mathlib.Core.Logic.{◌⊎◌, inl, inr}
use mathlib.Core.Bool.{Bool, true, false}
use remotish.Shared.Tests.{if◌then◌else◌}

pub data RemotishErrorCode : Type 0 where
  not_found unauthorized forbidden rate_limited offline unsupported invalid_request :
      RemotishErrorCode
  cancelled unknown : RemotishErrorCode

-- A thrown value: a `RemotishError` by its code (its message is not modelled), or any other.
pub data Failure : Type 0 where
  remotish_error : RemotishErrorCode → Failure
  other_error : Failure

pub data Result {ℓ} (A : Type ℓ) : Type ℓ where
  ok : A → Result A
  err : Failure → Result A

abbrev pub and_then {ℓ κ} : {A : Type ℓ} {B : Type κ} → Result A → (A → Result B) → Result B
and_then (ok a) f = f a
and_then (err e) f = err e

abbrev pub throw_code {ℓ} : {A : Type ℓ} → RemotishErrorCode → Result A
throw_code c = err (remotish_error c)

-- A method of an object with state `S`: what was written before a throw stays written.
abbrev pub Method {ℓ κ} : Type ℓ → Type κ → Type (ℓ ⊔ κ)
Method S A = S → Result A × S

module _ {ℓ κ} {S : Type ℓ} {A : Type κ} where
  unfoldable pub pure : A → Method S A
  pure a s = (ok a, s)

  unfoldable pub throw : RemotishErrorCode → Method S A
  throw c s = (throw_code c, s)

  unfoldable pub attempt : (S → Result A) → Method S A
  attempt f s = (f s, s)

unfoldable pub modify {ℓ} : {S : Type ℓ} → (S → S) → Method S (Unit {0})
modify f s = (ok tt, f s)

unfoldable pub guard {ℓ} : {S : Type ℓ} → Bool → RemotishErrorCode → Method S (Unit {0})
guard true c s = (ok tt, s)
guard false c s = (throw_code c, s)

module _ {ℓ κ μ} {S : Type ℓ} {A : Type κ} {B : Type μ} where
  abbrev pub resume : Result A → (A → Method S B) → Method S B
  resume (ok a) f s = f a s
  resume (err e) f s = (err e, s)

  infixl 5 ◌>>=◌
  -- To unfold it is to unfold the methods above.
  unfoldable pub ◌>>=◌ : Method S A → (A → Method S B) → Method S B
  unfolding pure throw attempt modify guard
  ◌>>=◌ m f s = resume (m s).0 f (m s).1

infixl 5 ◌>>◌
abbrev pub ◌>>◌ {ℓ κ} : {S : Type ℓ} {B : Type κ} → Method S (Unit {0}) → Method S B → Method S B
m >> n = m >>= λ _. n

pub Result-cases {ℓ} :
    {A : Type ℓ} (r : Result A) → ((a : A) × (r ≡ ok a)) ⊎ ((e : Failure) × (r ≡ err e))
Result-cases (ok a) = inl (a, refl)
Result-cases (err e) = inr (e, refl)

-- A chain that returns: each step has returned.
pub and_then-ok {ℓ κ} :
    {A : Type ℓ} {B : Type κ} (r : Result A) (f : A → Result B) {b : B}
    → and_then r f ≡ ok b
    → (a : A) × (r ≡ ok a) × (f a ≡ ok b)
and_then-ok (ok a) f h = (a, refl, h)
and_then-ok (err e) f h = cc

pub ok_injective {ℓ} : {A : Type ℓ} {x y : A} → ok x ≡ ok y → x ≡ y
ok_injective e = cc

-- A guard that throws has been passed.
pub unless-ok {ℓ} :
    {A : Type ℓ} (test : Bool) (e : Failure) (r : Result A) {a : A}
    → (if test then err e else r) ≡ ok a
    → (test ≡ false) × (r ≡ ok a)
unless-ok true e r h = cc
unless-ok false e r h = (refl, h)
