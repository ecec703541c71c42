-- ===== src/Outbox/Returns.antt =====
-- What holds of the value of an operation of the outbox, when it returns one.
use mathlib.Core.Path.{subst}
use aisle_signals.Common.{◌≡◌, refl, ◌⊎◌, inl, inr}
use aisle_signals.Outbox.Model.{Code, Result, ok, err}

abbrev pub Returns : {A : Type 0} → (A → Type 0) → Result A → Type 0
Returns P (ok a) = P a
Returns P (err c) = Unit

module _ {A : Type 0} where
  -- To split on the result of an operation and keep the equation.
  pub Result-cases : (m : Result A) → ((a : A) × (m ≡ ok a)) ⊎ ((c : Code) × (m ≡ err c))
  Result-cases (ok a) = inl (a, refl)
  Result-cases (err c) = inr (c, refl)

  -- The value of an operation that is known to return it.
  pub value-Returns : (P : A → Type 0) (m : Result A) (a : A) → Returns P m → m ≡ ok a → P a
  value-Returns P m a h e = subst (Returns P) e h
