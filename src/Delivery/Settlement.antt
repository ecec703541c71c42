-- ===== src/Delivery/Settlement.antt =====
-- services/api/cloud_delivery.py: the settlement of an answer.
use Prim.Native.Nat.{◌*◌, ◌^◌, ◌-◌, min, max}
use aisle_signals.Common.{
  ℕ, Bool, true, false, ◌||◌, not, Option, none, some, String, leb, str_eq, if◌then◌else◌,
}
use aisle_signals.Observation.Model.{Instant}
use aisle_signals.Outbox.Model.{
  Result, ok, ◌>>=◌, Operation, observation, withdrawal, Item, Db, Vault, Claim,
}
use aisle_signals.Outbox.Leases.{acknowledge, reject, retry}
use aisle_signals.Outbox.Upkeep.{withdraw}
use aisle_signals.Delivery.Authority.{
  DeliveryPolicy, Context, Provider, same, row_of, is_claimed, blocking_reason,
}

-- The answer to a request: a receipt, or a code with the time after which to retry.
pub data Response : Type 0 where
  receipt : String → Response
  failure : String → Option ℕ → Response

pub data Status : Type 0 where
  fenced delivered withdrawn blocked retrying : Status

-- `DeliveryResult`, and whether the delivery halts.
pub record DeliveryResult : Type 0 where
  pub status : Status
  pub error_code : Option String
  pub retry_seconds : ℕ
  pub halts : Bool

abbrev pub plain : Status → Option String → DeliveryResult
plain status code = record { status = status; error_code = code; retry_seconds = 0; halts = false }

-- `HALT_CODES`
abbrev pub is_halt : String → Bool
is_halt code =
    str_eq code "KEY_UNAVAILABLE"
    || str_eq code "CIPHERTEXT_INVALID"
    || str_eq code "CLOCK_ROLLBACK"

-- `REMOTE_PERMANENT`
abbrev pub is_permanent : String → Bool
is_permanent code =
    str_eq code "VALIDATION_FAILED"
    || str_eq code "REQUEST_REFUSED"
    || str_eq code "EVENT_CONFLICT"
    || str_eq code "INVALID_EVENT_TIME"
    || str_eq code "REDIRECT_REFUSED"
    || str_eq code "RECEIPT_MISMATCH"

abbrev pub is_cut_short : String → Bool
is_cut_short code = str_eq code "CANCELLED" || str_eq code "CONTEXT_CHANGED"

-- The codes of a failure that may pass.
abbrev pub is_transient : String → Bool
is_transient code =
    str_eq code "NETWORK_UNAVAILABLE"
    || str_eq code "INVALID_RESPONSE"
    || str_eq code "SERVICE_UNAVAILABLE"
    || str_eq code "RATE_LIMITED"
    || str_eq code "SYNC_LIMIT"
    || str_eq code "REQUEST_TIMEOUT"

abbrev pub maximum : DeliveryPolicy → Operation → ℕ
maximum policy observation = policy.observation_attempts
maximum policy withdrawal = policy.total_attempts

abbrev pub at_least : ℕ → Option ℕ → ℕ
at_least delay none = delay
at_least delay (some after) = max delay after

-- The delay before the next attempt. A row that is leased has been attempted.
unfoldable pub delay_of : DeliveryPolicy → ℕ → Option ℕ → ℕ
delay_of policy attempts after =
    at_least (min policy.max_retry_seconds (policy.retry_base_seconds * 2 ^ min (attempts - 1) 12))
      after

abbrev pub rejection : String → String
rejection code =
    if str_eq code "EVENT_CONFLICT" || str_eq code "RECEIPT_MISMATCH"
    then "REMOTE_CONFLICT"
    else "REMOTE_REJECTED"

-- What a failed request leads to, while the claim holds.
unfoldable pub settle_failure :
    Vault
    → Provider
    → DeliveryPolicy
    → Context
    → Claim
    → Item
    → String
    → Option ℕ
    → Instant
    → Db
    → Result (DeliveryResult × Db)
settle_failure vault provider policy ctx c row code after now db =
    if is_cut_short code
    then ok (plain fenced none, db)
    else if is_permanent code || leb (maximum policy c.operation) row.attempts
    then (reject vault provider.nonce ctx.scope ctx.binding c (rejection code) now db >>= λ d.
        ok (plain blocked (some "REMOTE_REJECTED"), d))
    else retry vault ctx.scope ctx.binding c (delay_of policy row.attempts after) now db >>= λ d.
        ok (
          record {
            status = retrying;
            error_code = some (if is_transient code then code else "NETWORK_UNAVAILABLE");
            retry_seconds = delay_of policy row.attempts after;
            halts = false;
          },
          d,
        )

abbrev pub success : Operation → Status
success observation = delivered
success withdrawal = withdrawn

abbrev pub settle_response :
    Vault
    → Provider
    → DeliveryPolicy
    → Context
    → Claim
    → Item
    → Response
    → Instant
    → Db
    → Result (DeliveryResult × Db)
settle_response vault provider policy ctx c row (receipt id) now db =
    acknowledge vault ctx.scope ctx.binding c id now db >>= λ d.
    ok (plain (success c.operation) none, d)
settle_response vault provider policy ctx c row (failure code after) now db =
    settle_failure vault provider policy ctx c row code after now db

-- The settlement of a claim whose connection is unchanged.
unfoldable pub settle_row :
    Vault
    → Provider
    → DeliveryPolicy
    → Context
    → Claim
    → Response
    → Instant
    → Db
    → Option Item
    → Result (DeliveryResult × Db)
settle_row vault provider policy ctx c response now db none = ok (plain fenced none, db)
settle_row vault provider policy ctx c response now db (some row) =
    if not (is_claimed ctx c now row)
    then ok (plain fenced none, db)
    else elim (blocking_reason provider db ctx c row now) [
      | some reason ↦
          withdraw vault provider.nonce ctx.scope ctx.binding c.id reason now db >>= λ d.
          ok (plain fenced none, d)
      | none ↦ settle_response vault provider policy ctx c row response now db
    ]

abbrev pub is_revoked : Response → Bool
is_revoked (receipt id) = false
is_revoked (failure code after) = str_eq code "ACCESS_REVOKED"

-- The code of an answer that halts the delivery.
abbrev pub halt_code : Response → Option String
halt_code (receipt id) = none
halt_code (failure code after) = if is_halt code then some code else none

-- `_settle`
unfoldable pub settle :
    Vault
    → Provider
    → DeliveryPolicy
    → Bool
    → Context
    → Claim
    → Response
    → Instant
    → Db
    → Result (DeliveryResult × Db)
settle vault provider policy stopping ctx c response now db =
    if stopping || not (same ctx (provider.delivery_context db))
    then ok (plain fenced none, db)
    else if is_revoked response
    then ok (plain blocked (some "ACCESS_REVOKED"), provider.access_revoked ctx now db)
    else elim (halt_code response) [
      | some code ↦ ok (
        record (plain blocked (some code)) { halts = true },
        provider.pause_error ctx code now db,
      )
      | none ↦ settle_row vault provider policy ctx c response now db (row_of db ctx c.id)
    ]
