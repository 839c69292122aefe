-- ===== src/Prelude/Results.antt =====
-- A Go call that returns a value or an error.
use mathlib.Core.Path.{◌≡◌, refl, ap}
use mathlib.Core.Bool.{Bool, true, false}
use native.Mathlib.Omega.{arith}
use prm.Prelude.Tests.{if◌then◌else◌}
use mathlib.Core.Logic.{◌⊎◌, inl, inr}

pub data Result {ℓ κ} (E : Type ℓ) (A : Type κ) : Type (ℓ ⊔ κ) where
  ok : A → Result E A
  err : E → Result E A

infixl 5 ◌>>=◌
abbrev pub ◌>>=◌ {ℓ κ μ} :
    {E : Type ℓ} {A : Type κ} {B : Type μ} → Result E A → (A → Result E B) → Result E B
ok a >>= f = f a
err e >>= f = err e

pub Result-cases {ℓ κ} :
    {E : Type ℓ} {A : Type κ} (r : Result E A) → ((a : A) × (r ≡ ok a)) ⊎ ((e : E) × (r ≡ err e))
Result-cases (ok a) = inl (a, refl)
Result-cases (err e) = inr (e, refl)

module _ {ℓ κ} {E : Type ℓ} {A : Type κ} where
  value_or : A → Result E A → A
  value_or d (ok a) = a
  value_or d (err e) = d

  pub ok_inj : {a b : A} → ◌≡◌ {A = Result E A} (ok a) (ok b) → a ≡ b
  unfolding value_or
  ok_inj {a} p = ap (value_or a) p

  -- A check that fails, or the value.
  pub if-ok : {a b : A} (c : Bool) (e : E) → (if c then err e else ok a) ≡ ok b → a ≡ b
  if-ok true e p = absurd (ground (arith, p))
  if-ok false e p = ok_inj p

  -- A check that must fail for the result to be a value.
  pub if-err :
      {b : A} (c : Bool) (e : E) (r : Result E A)
      → (if c then err e else r) ≡ ok b
      → (c ≡ false) × (r ≡ ok b)
  if-err true e r p = absurd (ground (arith, p))
  if-err false e r p = (refl, p)

  -- A check that must hold for the result to be a value.
  pub if-holds :
      {b : A} (c : Bool) (e : E) (r : Result E A)
      → (if c then r else err e) ≡ ok b
      → (c ≡ true) × (r ≡ ok b)
  if-holds true e r p = (refl, p)
  if-holds false e r p = absurd (ground (arith, p))
