-- ===== src/Common/Outcome.antt =====
-- What a Go function that can fail gives: a result with a nil error, a non-nil error, or a panic
-- that nothing recovers. `out_of_fuel` is no Go value: it marks a loop cut off by its fuel.

pub data Outcome {ℓ κ} (E : Type κ) (A : Type ℓ) : Type (ℓ ⊔ κ) where
  ok : A → Outcome E A
  err : E → Outcome E A
  panic : Outcome E A
  out_of_fuel : Outcome E A

module _ {ℓ κ μ} {E : Type μ} {A : Type ℓ} {B : Type κ} where
  infixl 5 ◌>>=◌
  abbrev pub ◌>>=◌ : Outcome E A → (A → Outcome E B) → Outcome E B
  ok a >>= f = f a
  err e >>= f = err e
  panic >>= f = panic
  out_of_fuel >>= f = out_of_fuel
