-- ===== src/Review/Breaker.antt =====
-- `CircuitBreaker`, at times of its clock in the unit of the cooldown; the lock makes each method
-- one step.
use aisle_signals.Common.{
  ◌≡◌, refl, ℕ, ◌+◌, ◌<◌, false, Option, none, some, List, [], ◌∷◌, length, leb, ltb, Bool-cases,
  inl, inr, arith, if◌then◌else◌,
}

pub record CircuitBreaker : Type 0 where
  pub threshold : ℕ
  pub cooldown : ℕ
  pub failures : ℕ
  pub opened_at : Option ℕ

abbrev pub closed : CircuitBreaker → CircuitBreaker
closed b = record b { failures = 0; opened_at = none }

-- `allow`; `none` is the error that the circuit is open.
unfoldable pub allow : ℕ → CircuitBreaker → Option CircuitBreaker
allow now b = elim b.opened_at [
  | none ↦ some b
  | some at ↦ if ltb now (at + b.cooldown) then none else some (closed b)
]

unfoldable pub success : CircuitBreaker → CircuitBreaker
success b = closed b

unfoldable pub failure : ℕ → CircuitBreaker → CircuitBreaker
failure now b = record b {
  failures = b.failures + 1;
  opened_at = if leb b.threshold (b.failures + 1) then some now else b.opened_at;
}

-- The breaker after failures at these times, in their order.
unfoldable pub fail_all : List ℕ → CircuitBreaker → CircuitBreaker
fail_all [] b = b
fail_all (at ∷ times) b = fail_all times (failure at b)

fails_counted :
    (times : List ℕ) (b : CircuitBreaker)
    → ((fail_all times b).failures ≡ b.failures + length times)
      × (((fail_all times b).threshold ≡ b.threshold) × ((fail_all times b).cooldown ≡ b.cooldown))
unfolding fail_all failure
fails_counted [] b = (omega arith, (refl, refl))
fails_counted (at ∷ times) b =
    let (count, kept) = fails_counted times (failure at b) in (omega (arith, count), kept)

fails_closed :
    (times : List ℕ) (b : CircuitBreaker)
    → b.opened_at ≡ none
    → b.failures + length times < b.threshold
    → (fail_all times b).opened_at ≡ none
unfolding fail_all failure
fails_closed [] b o h = o
fails_closed (at ∷ times) b o h =
    let short : leb b.threshold (b.failures + 1) ≡ false = ground (arith, h) in
    fails_closed times (failure at b) (rw short o) (omega (arith, h))

-- A breaker that was closed opens at the failure that brings their number to the threshold and not
-- before: before that every call is let through and the failures stay counted; from then on a call
-- is refused until the cooldown after the last failure is over, and the first one after it is let
-- through with the count at zero.
pub failure_opens :
    (b : CircuitBreaker) (times : List ℕ) (at later : ℕ)
    → allow later (failure at (fail_all times (success b))) ≡ (
        if leb b.threshold (length times + 1)
        then (if ltb later (at + b.cooldown)
            then none
            else some (record b { failures = 0; opened_at = none }))
        else some (record b { failures = length times + 1; opened_at = none }))
unfolding allow failure success
failure_opens b times at later =
    let (sum, (same, wait)) = fails_counted times (closed b) in
    let count : (fail_all times (closed b)).failures ≡ length times = omega (arith, sum) in
    elim (Bool-cases (leb b.threshold (length times + 1))) [
      | inl tripped ↦ rw (success, count, same, wait, tripped) refl
      | inr short ↦
          let still = fails_closed times (closed b) refl (ground (arith, short)) in
          rw (success, count, same, wait, still, short) refl
    ]
