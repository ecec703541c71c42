-- ===== src/Review/Tests.antt =====
-- Requests against an empty ledger, and a breaker at its threshold.
use aisle_signals.Common.{◌≡◌, ◌≤◌, none, some, [], ◌∷◌, if◌then◌else◌, leb, ltb}
use Prim.Native.Nat.{◌*◌}
use aisle_signals.Review.Ledger.{absent, granted, hard_cap, reservation, granted_within_cap}
use aisle_signals.Review.Breaker.{CircuitBreaker, allow, failure, success, fail_all, failure_opens}

granted_within_cap_example : granted 9 absent * reservation ≤ hard_cap
granted_within_cap_example = granted_within_cap 9 absent

abbrev breaker : CircuitBreaker
breaker = record { threshold = 3; cooldown = 60; failures = 2; opened_at = none }

-- The third of three failures opens the breaker until a minute after it.
failure_opens_example : allow 50 (failure 10 (fail_all (7 ∷ 8 ∷ []) (success breaker))) ≡ (
    if leb 3 3
    then (if ltb 50 70
        then none
        else some (record { threshold = 3; cooldown = 60; failures = 0; opened_at = none }))
    else some (record { threshold = 3; cooldown = 60; failures = 3; opened_at = none }))
failure_opens_example = failure_opens breaker (7 ∷ 8 ∷ []) 10 50
