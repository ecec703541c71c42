-- ===== src/Review.antt =====
-- services/api/xai_verifier.py: the spending ledger, the circuit breaker and the comparison around
-- an external review.
pub mod Ledger
pub mod Breaker
mod Tests
use aisle_signals.Common.{Bool, true, false, ◌&&◌, ◌||◌, not, String, str_eq, if◌then◌else◌}

-- What `compare_blind_result` reads of a result.
pub record VerifierResult : Type 0 where
  pub visibility : String
  pub person_present : Bool
  pub product_transition_visible : Bool
  pub sequence_observed : Bool
  pub observed_action : String

abbrev pub is_inconclusive : VerifierResult → Bool
is_inconclusive r =
    not (str_eq r.visibility "ADEQUATE")
    || not r.person_present
    || not r.product_transition_visible
    || not r.sequence_observed
    || str_eq r.observed_action "UNCLEAR"

abbrev pub is_normal : String → Bool
is_normal action =
    str_eq action "RETURN_PRODUCT"
    || str_eq action "PLACE_IN_BASKET"
    || str_eq action "NORMAL_SHOPPING"

pub data Comparison : Type 0 where
  inconclusive supports contradicts : Comparison

-- `compare_blind_result`
unfoldable pub compare_blind_result : String → VerifierResult → Comparison
compare_blind_result local r =
    if is_inconclusive r
    then inconclusive
    else if str_eq r.observed_action local
    then supports
    else if str_eq local "POSSIBLE_CONCEALMENT" && is_normal r.observed_action
    then contradicts
    else inconclusive
