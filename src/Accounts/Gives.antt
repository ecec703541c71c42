-- ===== src/Accounts/Gives.antt =====
-- What holds of the value of an operation on accounts, when it is not refused.
use mathlib.Core.Path.{subst}
use aisle_signals.Common.{◌≡◌, refl, Bool, true, false}
use aisle_signals.Accounts.Model.{Refusal, Answer, done, ◌>>=◌, require}

unfoldable pub Gives {ℓ} : {A : Type ℓ} → (A → Type 0) → Answer A → Type 0
Gives P (done a) = P a
Gives P (Answer.refused r) = Unit

module _ {ℓ} {A : Type ℓ} where
  -- The value of an operation that is known to return it.
  pub value-Gives : (P : A → Type 0) (m : Answer A) (a : A) → Gives P m → m ≡ done a → P a
  unfolding Gives
  value-Gives P m a h e = subst (Gives P) e h

  -- The later steps may use what the earlier one returned.
  pub bind-Gives :
      {B : Type 0} (P : A → Type 0) (m : Answer B) (f : B → Answer A)
      → ((b : B) → m ≡ done b → Gives P (f b))
      → Gives P (m >>= f)
  unfolding Gives ◌>>=◌
  bind-Gives P (done b) f k = k b refl
  bind-Gives P (Answer.refused r) f k = tt

  -- The later steps may use the condition that was checked.
  pub require-Gives :
      (P : A → Type 0) (b : Bool) (r : Refusal) (m : Answer A)
      → (b ≡ true → Gives P m)
      → Gives P (require b r >>= λ u. m)
  unfolding Gives ◌>>=◌
  require-Gives P true r m k = k refl
  require-Gives P false r m k = tt

  pub done-Gives : (P : A → Type 0) (a : A) → P a → Gives P (done a)
  unfolding Gives
  done-Gives P a h = h
