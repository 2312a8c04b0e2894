-- ===== src/Prelude/Result.antt =====
-- Results of code that may throw, abort or have undefined behaviour; `E` is the type of errors.
use mathlib.Core.Path.{◌≡◌, refl}
use mathlib.Core.Logic.{◌⊎◌, inl, inr}

pub data Result {ℓ κ} (E : Type κ) (A : Type ℓ) : Type (ℓ ⊔ κ) where
  ok : A → Result E A
  err : E → Result E A

-- What follows a statement that may throw runs on its value only.
abbrev pub ◌>>=◌ {κ ℓ μ} :
    {E : Type κ} {A : Type ℓ} {B : Type μ} → Result E A → (A → Result E B) → Result E B
err thrown >>= next = err thrown
ok value >>= next = next value

infixl 5 ◌>>=◌
module _ {κ ℓ} {E : Type κ} {A : Type ℓ} where
  pub Result-cases : (r : Result E A) → ((a : A) × (r ≡ ok a)) ⊎ ((e : E) × (r ≡ err e))
  Result-cases (err thrown) = inr (thrown, refl)
  Result-cases (ok value) = inl (value, refl)

  pub ok_injective : {a b : A} → (let r : Result E A = ok a in r) ≡ ok b → a ≡ b
  ok_injective h = cc

module _ {κ ℓ μ} {E : Type κ} {A : Type ℓ} {B : Type μ} where
  -- A sequence of two statements succeeds only where both do.
  pub >>=-eq-ok :
      (first : Result E A) (next : A → Result E B) {end : B}
      → (first >>= next) ≡ ok end
      → (middle : A) × (first ≡ ok middle) × (next middle ≡ ok end)
  >>=-eq-ok (err thrown) next returns = cc
  >>=-eq-ok (ok value) next returns = (value, refl, returns)

  -- A sequence of two statements that fails does so in one of them.
  pub >>=-eq-err :
      (first : Result E A) (next : A → Result E B) {thrown : E}
      → (first >>= next) ≡ err thrown
      → (first ≡ err thrown) ⊎ ((middle : A) × (first ≡ ok middle) × (next middle ≡ err thrown))
  >>=-eq-err (err _) next fails = inl (cc)
  >>=-eq-err (ok value) next fails = inr (value, refl, fails)
