-- ===== src/Prelude/Fallible.antt =====
-- Rust's `Result`, its `?` as the bind of a do block.
use mathlib.Core.Path.{◌≡◌, refl}
use mathlib.Core.Logic.{◌⊎◌, inl, inr}
use mathlib.Core.Option.{Option, none, some}

pub data Result {ℓ} (Failure : Type 0) (Value : Type ℓ) : Type ℓ where
  err : Failure → Result Failure Value
  ok : Value → Result Failure Value

module _ {ℓ κ} {E : Type 0} {A : Type ℓ} {B : Type κ} where
  infixl 5 ◌>>=◌
  abbrev pub ◌>>=◌ : Result E A → (A → Result E B) → Result E B
  err failure >>= next = err failure
  ok value >>= next = next value

  -- Inversion of a successful bind.
  pub >>=-eq-ok :
      {b : B} (r : Result E A) (next : A → Result E B)
      → (r >>= next) ≡ ok b
      → (value : A) × (r ≡ ok value) × (next value ≡ ok b)
  >>=-eq-ok (err failure) next h = cc
  >>=-eq-ok (ok value) next h = (value, refl, h)

  -- `Result::map`.
  abbrev pub map_ok : (A → B) → Result E A → Result E B
  map_ok f (err failure) = err failure
  map_ok f (ok value) = ok (f value)

module _ {ℓ} {E : Type 0} {A : Type ℓ} where
  -- `Option::ok_or_else`.
  abbrev pub ok_or : Option A → E → Result E A
  ok_or none e = err e
  ok_or (some a) e = ok a

  infixl 5 ◌>>◌
  abbrev pub ◌>>◌ : Result E (Unit {0}) → Result E A → Result E A
  err failure >> after = err failure
  ok tt >> after = after

  pub Result-cases :
      (r : Result E A) → ((value : A) × (r ≡ ok value)) ⊎ ((failure : E) × (r ≡ err failure))
  Result-cases (err failure) = inr (failure, refl)
  Result-cases (ok value) = inl (value, refl)

  pub ok-injective : {a b : A} → Path (Result E A) (ok a) (ok b) → a ≡ b
  ok-injective h = cc
